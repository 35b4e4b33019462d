-- ===== src/Channels.antt =====
-- handler/channels.rs: the validation of input and the creation of widget and Telegram channels, with
-- the errors of error.rs. The calls to Telegram are parameters that say what it answered; random
-- identifiers and secrets are arguments.
pub mod Validation
pub mod Rollback
pub mod Manage
pub mod Edit
use Prim.Native.Char.{Char, code}
use Prim.Native.String.{◌++◌ as append}
use chatbridge.Prelude.{
  ◌+◌, ℕ, String, Bool, true, false, Option, none, some, Uuid, Instant, str_eq, ◌&&◌, ◌||◌, ◌==◌,
  not, leb, ltb, is_some, unwrap_or, if◌then◌else◌,
}
use chatbridge.Prelude.Colons.{split_once_colon}
use chatbridge.Prelude.Json.{Json, text, object, end, member}
use chatbridge.Prelude.Results.{Result, ok, err}
use chatbridge.Model.{ProviderKind, telegram}
use chatbridge.Db.{SqlError, Channel, unique_violation}
use chatbridge.Db.Channels.{insert_channel, hard_delete_channel, find_channel_by_external_key}
use chatbridge.World.{Env, Io, pure, ◌>>=◌, ◌>>◌, read_db, write_db}

-- `AppError`. The body of a conflict is made of a code and the row that is in the way.
pub data AppError : Type 0 where
  forbidden bad_request not_found bad_gateway internal : String → AppError
  conflict :
      (code : String) (channel_id : Uuid) (name : String) (deleted_at : Option Instant) → AppError

-- `IntoResponse for AppError`, the status.
unfoldable pub status : AppError → ℕ
status (conflict _ _ _ _) = 409
status (forbidden _) = 403
status (bad_request _) = 400
status (not_found _) = 404
status (bad_gateway _) = 502
status (internal _) = 500

-- `From<sqlx::Error> for AppError`
abbrev pub of_sql : SqlError → AppError
of_sql e = internal "internal server error"

abbrev pub is_digit : ℕ → Bool
is_digit b = leb 48 b && leb b 57

abbrev is_letter : ℕ → Bool
is_letter b = leb 65 b && leb b 90 || leb 97 b && leb b 122

-- Whether every byte passes; a character beyond ASCII has none that does.
unfoldable pub all_bytes : (ℕ → Bool) → String → Bool
all_bytes p String.[] = true
all_bytes p (String.◌∷◌ c s) = p (code c) && all_bytes p s

-- How many bytes UTF-8 takes for the character of that code.
abbrev byte_width : ℕ → ℕ
byte_width c = if ltb c 128 then 1 else if ltb c 2048 then 2 else if ltb c 65536 then 3 else 4

-- `str::len`
unfoldable pub byte_len : String → ℕ
byte_len String.[] = 0
byte_len (String.◌∷◌ c s) = byte_width (code c) + byte_len s

-- `validate_widget_id`
unfoldable pub validate_widget_id : String → Result AppError (Unit {0})
unfolding all_bytes byte_len
validate_widget_id widget_id =
    if str_eq widget_id "" || ltb 64 (byte_len widget_id)
    then err (bad_request "widget_id must be 1-64 characters")
    else if not (all_bytes (λ b. is_letter b || is_digit b || b == b'-' || b == b'_') widget_id)
    then err (bad_request "widget_id may contain only letters, digits, '-' and '_'")
    else ok tt

abbrev pub malformed : AppError
malformed = bad_request "bot_token must look like <bot_id>:<secret>"

-- `validate_bot_token`
unfoldable pub validate_bot_token : String → Result AppError (Unit {0})
unfolding all_bytes
validate_bot_token bot_token = elim (split_once_colon bot_token) [
  | none ↦ err malformed
  | some parts ↦
      if str_eq parts.0 "" || str_eq parts.1 "" || not (all_bytes is_digit parts.0)
      then err malformed
      else ok tt
]

-- What Telegram's getMe tells of a bot.
pub record BotInfo : Type 0 where
  pub id : String
  pub username : Option String

abbrev pub bot_name : BotInfo → Option String → String
bot_name info (some name) = name
bot_name info none = elim info.username [
  | some username ↦ append "@" username
  | none ↦ append "telegram:" info.id
]

abbrev pub bot_config : String → String → Json
bot_config bot_token bot_secret =
    object (member "bot_token" (text bot_token) (member "bot_secret" (text bot_secret) end))

module _ (env : Env) where
  unfoldable pub conflict_body : Result SqlError (Option Channel) → AppError
  conflict_body (ok (some existing)) =
      conflict (if is_some existing.deleted_at then "channel_deleted" else "channel_exists")
        existing.id existing.name existing.deleted_at
  conflict_body (ok none) = internal "conflicting channel disappeared"
  conflict_body (err e) = of_sql e

  unfoldable pub or_conflict :
      ProviderKind → String → Result SqlError Channel → Io (Result AppError Channel)
  unfolding conflict_body
  or_conflict kind key (ok channel) = pure (ok channel)
  or_conflict kind key (err unique_violation) = do
    existing ← read_db env (find_channel_by_external_key kind key)
    pure (err (conflict_body existing))
  or_conflict kind key (err e) = pure (err (of_sql e))

  -- `insert_or_conflict`
  unfoldable pub insert_or_conflict :
      Uuid → ProviderKind → String → String → Json → Io (Result AppError Channel)
  insert_or_conflict id kind name key config =
      write_db env (λ _ now. insert_channel id now kind name key config) >>= or_conflict kind key

  module _ (get_me : String → Result String BotInfo)
      (set_webhook : (bot_token url bot_secret : String) → Result String (Unit {0}))
      (endpoint : Uuid → String) where
    -- After the INSERT: Telegram is told of the webhook, and the row goes again if it refuses.
    unfoldable pub arm : String → String → Result AppError Channel → Io (Result AppError Channel)
    arm bot_token bot_secret (err e) = pure (err e)
    arm bot_token bot_secret (ok channel) =
        elim (set_webhook bot_token (endpoint channel.id) bot_secret) [
          | ok _ ↦ pure (ok channel)
          | err reason ↦ do
            _ ← write_db env (λ _ _. hard_delete_channel channel.id)
            pure (err (bad_gateway (append "setWebhook failed: " reason)))
        ]

    -- `create_telegram`, over the channel id and the secret that it draws.
    unfoldable pub create_telegram :
        (channel_id : Uuid) (bot_secret : String)
        → Option String
        → String
        → Io (Result AppError Channel)
    create_telegram channel_id bot_secret name bot_token = elim (validate_bot_token bot_token) [
      | err e ↦ pure (err e)
      | ok _ ↦ elim (get_me bot_token) [
        | err reason ↦ pure (err (bad_request reason))
        | ok info ↦
            insert_or_conflict channel_id telegram (bot_name info name) info.id
              (bot_config bot_token bot_secret)
            >>= arm bot_token bot_secret
      ]
    ]
