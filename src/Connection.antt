-- ===== src/Connection.antt =====
-- handler/connection.rs: whether a channel is wired up at its provider. What a provider answers is a
-- parameter; the `details` of a status, a list for display, are left out.
pub mod Verdict
use Prim.Native.String.{◌++◌ as append}
use chatbridge.Prelude.{
  ℕ, zero, suc, String, Bool, true, false, Option, none, some, List, [], ◌∷◌, Uuid, Instant, str_eq,
  ◌+◌, ◌*◌, ◌-◌, ◌/◌, ◌&&◌, not, any, leb, ltb, map_option, if◌then◌else◌,
}
use chatbridge.Prelude.Ints.{ℤ, pos, negsuc}
use chatbridge.Prelude.Json.{Json}
use chatbridge.Prelude.Results.{Result, ok, err}
use chatbridge.Model.{InstagramConfig, TelegramConfig}
use chatbridge.Db.{SqlError, Channel}
use chatbridge.Db.Channels.{find_live_channel_by_id}
use chatbridge.World.{Env, Io, pure, ◌>>=◌, read_db}
use chatbridge.Oauth.{join_with}
use chatbridge.Provider.{a_day, utc_now}
use chatbridge.Channels.{AppError, bad_gateway, internal, not_found, of_sql}
use chatbridge.Channels.Manage.{Site, endpoint_for}

pub record ConnectionStatus : Type 0 where
  pub provider : String
  pub ok : Bool
  pub summary : String

-- `WebhookInfo`, by the fields that a status is made of.
pub record WebhookInfo : Type 0 where
  pub url : String
  pub pending_update_count : ℤ
  pub last_error_message : Option String

-- `matches_url`
unfoldable pub matches_url : (registered expected : String) → Bool
matches_url registered expected = not (str_eq registered "") && str_eq registered expected

-- The negative of a number.
abbrev pub minus : ℕ → ℤ
minus zero = pos 0
minus (suc n) = negsuc n

-- `a - b` in whole days: `num_days` truncates towards zero.
unfoldable pub num_days : (a b : Instant) → ℤ
num_days a b = if leb b a then pos ((a - b) / a_day) else minus ((b - a) / a_day)

abbrev is_positive : ℤ → Bool
is_positive (pos zero) = false
is_positive (pos (suc n)) = true
is_positive (negsuc n) = false

abbrev pub expired_phrase : String
expired_phrase = " Token has expired — reconnect the account."

module _ (print_int : ℤ → String) where
  -- `expiry_phrase`
  unfoldable pub expiry_phrase : Option ℤ → String
  expiry_phrase none = " Token expiry unknown; the refresher fills it in on its next pass."
  expiry_phrase (some (pos zero)) = " Token expires within a day."
  expiry_phrase (some (pos (suc n))) =
      append " Token expires in " (append (print_int (pos (suc n))) " day(s).")
  expiry_phrase (some (negsuc n)) = expired_phrase

  -- `instagram_summary`
  unfoldable pub instagram_summary : List String → Option ℤ → String
  unfolding expiry_phrase
  instagram_summary [] days = append "Not subscribed to any message events." (expiry_phrase days)
  instagram_summary (f ∷ fs) days =
      append (append "Subscribed to " (append (join_with ", " (f ∷ fs)) ".")) (expiry_phrase days)

  abbrev registered_summary : String → String → String
  registered_summary registered expected =
      if matches_url registered expected
      then append "Webhook registered at " (append expected ".")
      else if str_eq registered ""
      then "No webhook is registered for this bot."
      else append "Webhook points at "
          (append registered (append " instead of " (append expected ".")))

  -- `telegram_summary`
  unfoldable pub telegram_summary : String → String → ℤ → Option String → String
  unfolding matches_url
  telegram_summary registered expected pending last_error =
      let counted = append (registered_summary registered expected) (
        if is_positive pending
        then append " " (append (print_int pending) " update(s) pending.")
        else "") in
      elim last_error [
        | none ↦ counted
        | some error ↦ append counted (append " Last delivery error: " error)
      ]

  -- What the providers tell of a connection.
  pub record Probes : Type 0 where
    pub webhook_info : (bot_token : String) → Result String WebhookInfo
    pub subscribed_fields : (access_token : String) → Result String (List String)
    pub parse_instagram : Json → Result String InstagramConfig

  module _ (site : Site) (probes : Probes) where
    abbrev webhook_url : Channel → String
    webhook_url channel =
        endpoint_for site.print_uuid site.base "telegram" channel.id channel.external_key

    abbrev of_webhook : Channel → WebhookInfo → ConnectionStatus
    of_webhook channel info = record {
      provider = channel.provider;
      ok = matches_url info.url (webhook_url channel);
      summary =
          telegram_summary info.url (webhook_url channel) info.pending_update_count
            info.last_error_message;
    }

    -- `telegram_status`
    unfoldable pub telegram_status : Channel → Result AppError ConnectionStatus
    unfolding telegram_summary matches_url
    telegram_status channel = elim (site.parse_telegram channel.config) [
      | err e ↦ err (internal (append "bad telegram config: " e))
      | ok config ↦ elim (probes.webhook_info config.bot_token) [
        | err e ↦ err (bad_gateway (append "getWebhookInfo failed: " e))
        | ok info ↦ ok (of_webhook channel info)
      ]
    ]

    -- `config.token_expires_at.is_none_or(|at| at > now)`
    abbrev pub token_alive : InstagramConfig → Instant → Bool
    token_alive config now = elim config.token_expires_at [
      | none ↦ true
      | some expiry ↦ ltb now expiry
    ]

    abbrev pub days_left : InstagramConfig → Instant → Option ℤ
    days_left config now = map_option (λ expiry. num_days expiry now) config.token_expires_at

    abbrev pub has_messages : Result String (List String) → Bool
    has_messages (ok fields) = any (λ f. str_eq f "messages") fields
    has_messages (err _) = false

    abbrev fields_summary : Result String (List String) → Option ℤ → String
    fields_summary (ok fields) days = instagram_summary fields days
    fields_summary (err _) days =
        append "Could not read the subscription from Instagram." (expiry_phrase days)

    -- `instagram_status`
    unfoldable pub instagram_status : Instant → Channel → Result AppError ConnectionStatus
    unfolding instagram_summary num_days
    instagram_status now channel = elim (probes.parse_instagram channel.config) [
      | err e ↦ err (internal (append "bad instagram config: " e))
      | ok config ↦
          let fields = probes.subscribed_fields config.access_token in
          ok (record {
            provider = channel.provider;
            ok = has_messages fields && token_alive config now;
            summary = fields_summary fields (days_left config now);
          })
    ]

    -- `status_of`
    unfoldable pub status_of : Instant → Channel → Result AppError ConnectionStatus
    unfolding telegram_status instagram_status
    status_of now channel =
        if str_eq channel.provider "telegram"
        then telegram_status channel
        else if str_eq channel.provider "instagram"
        then instagram_status now channel
        else ok (record {
          provider = channel.provider;
          ok = true;
          summary = "Widget channels register nothing with a provider.";
        })

    -- What `register` asks of the provider.
    unfoldable pub arm_live : Channel → Result AppError (Unit {0})
    arm_live channel =
        if str_eq channel.provider "telegram"
        then elim (site.parse_telegram channel.config) [
          | err e ↦ err (internal (append "bad telegram config: " e))
          | ok config ↦
              elim (site.sets_webhook config.bot_token (webhook_url channel) config.bot_secret) [
                | err e ↦ err (bad_gateway (append "setWebhook failed: " e))
                | ok _ ↦ ok tt
              ]
        ]
        else if str_eq channel.provider "instagram"
        then elim (site.subscribes channel.config) [
          | err e ↦ err (bad_gateway (append "could not subscribe to events: " e))
          | ok _ ↦ ok tt
        ]
        else ok tt

    unfoldable pub registered : Instant → Channel → Result AppError ConnectionStatus
    unfolding status_of arm_live
    registered now channel = elim (arm_live channel) [
      | err e ↦ err e
      | ok _ ↦ status_of now channel
    ]

    module _ (env : Env) (clock : ℕ → Instant) where
      -- `live_channel`
      unfoldable pub live_channel : Uuid → Io (Result AppError Channel)
      live_channel id = do
        found ← read_db env (find_live_channel_by_id id)
        pure (elim found [
          | err e ↦ err (of_sql e)
          | ok none ↦ err (not_found "channel not found")
          | ok (some channel) ↦ ok channel
        ])

      abbrev over :
          (Channel → Result AppError ConnectionStatus)
          → Result AppError Channel
          → Result AppError ConnectionStatus
      over f (err e) = err e
      over f (ok channel) = f channel

      -- `status`
      unfoldable pub connection_status : Uuid → Io (Result AppError ConnectionStatus)
      unfolding live_channel status_of
      connection_status id = do
        channel ← live_channel id
        now ← utc_now clock
        pure (over (status_of now) channel)

      -- `register`
      unfoldable pub register_channel : Uuid → Io (Result AppError ConnectionStatus)
      unfolding live_channel registered
      register_channel id = do
        channel ← live_channel id
        now ← utc_now clock
        pure (over (registered now) channel)
