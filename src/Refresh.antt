-- ===== src/Refresh.antt =====
-- refresh.rs: one pass of the token refresher. What Meta answers is a parameter, and so are the JSON of
-- a config and the clock of the process, as a function of how many queries it has made.
pub mod Pass
pub mod Kept
use Prim.Native.String.{◌++◌ as append}
use chatbridge.Prelude.{
  ℕ, suc, String, Bool, true, false, Option, none, some, List, [], ◌∷◌, Uuid, Instant, ◌+◌, ◌*◌,
  leb, if◌then◌else◌,
}
use chatbridge.Prelude.Json.{Json}
use chatbridge.Prelude.Results.{Result, ok, err}
use chatbridge.Model.{InstagramConfig, instagram}
use chatbridge.Db.{SqlError, Channel}
use chatbridge.Db.Channels.{list_live_channels_by_provider, update_channel}
use chatbridge.World.{Env, Io, pure, ◌>>=◌, ◌>>◌, read_db, write_db}
use chatbridge.Channels.Manage.{invalidate_everywhere}
use chatbridge.Oauth.{LongLivedToken}
use chatbridge.Provider.{utc_now}

-- `REFRESH_THRESHOLD_DAYS`, in microseconds.
abbrev pub threshold : ℕ
threshold = 3 * 24 * 60 * 60 * 1000000

-- `is_due`
unfoldable pub is_due : InstagramConfig → Instant → Bool
is_due config now = elim config.token_expires_at [
  | none ↦ true
  | some at_time ↦ leb at_time (now + threshold)
]

module _ (parse_config : Json → Result String InstagramConfig) where
  abbrev due_config : Channel → Instant → Option InstagramConfig
  due_config channel now = elim (parse_config channel.config) [
    | err e ↦ none
    | ok config ↦ if is_due config now then some config else none
  ]

  abbrev listed :
      Channel
      → Option InstagramConfig
      → List (Channel × InstagramConfig)
      → List (Channel × InstagramConfig)
  listed channel none due = due
  listed channel (some config) due = (channel, config) ∷ due

  -- `due_channels`
  unfoldable pub due_channels : List Channel → Instant → List (Channel × InstagramConfig)
  unfolding is_due
  due_channels [] now = []
  due_channels (channel ∷ channels) now =
      listed channel (due_config channel now) (due_channels channels now)

module _ (env : Env) (clock : ℕ → Instant) (refresh_token : String → Result String LongLivedToken)
    (to_json : InstagramConfig → Result String Json) (show : SqlError → String)
    (parse_config : Json → Result String InstagramConfig) where
  -- An edit that met no row counts as stored.
  unfoldable pub after_store :
      Uuid → Result SqlError (Option Channel) → Io (Result String (Unit {0}))
  unfolding invalidate_everywhere
  after_store id (err e) = pure (err (append "could not store the refreshed token: " (show e)))
  after_store id (ok _) = do invalidate_everywhere env id; pure (ok tt)

  unfoldable pub store_token : Uuid → Result String Json → Io (Result String (Unit {0}))
  unfolding after_store
  store_token id (err e) = pure (err (append "serialize failed: " e))
  store_token id (ok blob) =
      write_db env (λ _ _. update_channel id none none (some blob) false) >>= after_store id

  abbrev refreshed_config : Instant → InstagramConfig → LongLivedToken → InstagramConfig
  refreshed_config now config fresh = record {
    access_token = fresh.access_token;
    token_expires_at = some (now + fresh.expires_in * 1000000);
    username = config.username;
  }

  -- `refresh_channel`
  unfoldable pub refresh_channel : Channel → InstagramConfig → Io (Result String (Unit {0}))
  unfolding store_token
  refresh_channel channel config = elim (refresh_token config.access_token) [
    | err e ↦ pure (err e)
    | ok fresh ↦ do
      now ← utc_now clock
      store_token channel.id (to_json (refreshed_config now config fresh))
  ]

  abbrev pub tally : Result String (Unit {0}) → ℕ × ℕ → ℕ × ℕ
  tally (ok _) (refreshed, failed) = (suc refreshed, failed)
  tally (err _) (refreshed, failed) = (refreshed, suc failed)

  unfoldable pub refresh_all : List (Channel × InstagramConfig) → ℕ × ℕ → Io (ℕ × ℕ)
  unfolding refresh_channel
  refresh_all [] counts = pure counts
  refresh_all ((channel, config) ∷ due) counts = do
    result ← refresh_channel channel config
    refresh_all due (tally result counts)

  unfoldable pub refresh_listed : Result SqlError (List Channel) → Io (ℕ × ℕ)
  unfolding refresh_all due_channels
  refresh_listed (err e) = pure (0, 0)
  refresh_listed (ok channels) = do
    now ← utc_now clock
    refresh_all (due_channels parse_config channels now) (0, 0)

  -- `refresh_due_tokens`: how many were refreshed and how many failed.
  unfoldable pub refresh_due_tokens : Io (ℕ × ℕ)
  unfolding refresh_listed
  refresh_due_tokens = read_db env (list_live_channels_by_provider instagram) >>= refresh_listed
