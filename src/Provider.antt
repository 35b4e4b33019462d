-- ===== src/Provider.antt =====
-- provider/mod.rs: what a webhook handler asks of a provider, with the lookup of a customer that
-- provider/telegram.rs and provider/instagram.rs share.
pub mod Telegram
pub mod Customers
pub mod Instagram
use chatbridge.Prelude.{
  ℕ, String, Option, none, some, List, [], ◌∷◌, Uuid, Instant, ◌+◌, ◌*◌, ltb, if◌then◌else◌,
}
use chatbridge.Prelude.Results.{Result, ok, err}
use chatbridge.Model.{NewMessage}
use chatbridge.Db.{SqlError, Client}
use chatbridge.Channels.{AppError}
use chatbridge.World.{Env, Io, pure}

-- An axum `HeaderMap`: the value of a header of that name, if it has one of visible ASCII.
abbrev pub Headers : Type 0
Headers = String → Option String

-- A background task that refreshes the profile of a known client.
pub record ProfileTask : Type 0 where
  pub client_id : Uuid
  pub external_id : String
  -- The channel's token, for a profile that is fetched from the provider.
  pub access_token : Option String

-- What a parse spawned before it ended, and how it ended.
pub record Parsed : Type 0 where
  pub tasks : List ProfileTask
  pub messages : Result AppError (List NewMessage)

-- `WebhookProvider`
pub record WebhookProvider : Type 0 where
  pub verify : Headers → String → Result AppError (Unit {0})
  pub parse : String → Io Parsed

abbrev pub a_day : ℕ
a_day = 24 * 60 * 60 * 1000000

-- `Utc::now() - client.updated_at > TimeDelta::hours(24)`
abbrev pub refresh_if_stale : Instant → Client → ProfileTask → List ProfileTask
refresh_if_stale now client task = if ltb (client.updated_at + a_day) now then task ∷ [] else []

-- `Uuid::new_v4()`
unfoldable pub new_uuid : Env → Io Uuid
new_uuid env w = (env.fresh w.queries, w)

-- `Utc::now()`: the clock of the process, as a function of how many queries it has made.
unfoldable pub utc_now : (ℕ → Instant) → Io Instant
utc_now clock w = (clock w.queries, w)
