-- ===== src/Tests/Settings.antt =====
-- Runs of the settings panel's API and of the sessions of widget clients.
use chatbridge.Prelude.{◌≡◌, ◌≢◌, refl, ap, ℕ, zero, suc, String, true, Option, none, some, Uuid}
use chatbridge.Prelude.Results.{Result, ok, err}
use chatbridge.Prelude.Colons.{split_once_colon}
use chatbridge.ExternalId.{join}
use chatbridge.Db.Channels.{insert_channel, find_channel_by_id, find_channel_by_external_key}
use chatbridge.Db.Clients.{create_client, find_client_by_uuid}
use chatbridge.World.{write_db}
use chatbridge.Channels.{
  bad_gateway, BotInfo, validate_bot_token, all_bytes, is_digit, create_telegram,
  insert_or_conflict, or_conflict, arm,
}
use chatbridge.Channels.Validation.{validate_bot_token_sound}
use chatbridge.Channels.Rollback.{create_telegram-restores}
use chatbridge.Session.{resolve_client, new_client, admitted}
use chatbridge.Session.Resumption.{resolve_client-again}
use chatbridge.Tests.Data.{tables}
use chatbridge.Tests.Flows.{alone, start}

token_example :
    (id : String) × (secret : String) × ("12:ab" ≡ join id secret)
    × (all_bytes is_digit id ≡ true)
    × (id ≢ "")
    × (secret ≢ "")
unfolding validate_bot_token split_once_colon all_bytes
token_example = validate_bot_token_sound "12:ab" refl

abbrev get_me : String → Result String BotInfo
get_me bot_token = ok (record { id = "12"; username = none })

abbrev set_webhook : String → String → String → Result String (Unit {0})
set_webhook bot_token url bot_secret = err "timeout"

abbrev endpoint : Uuid → String
endpoint id = "https://chat.example/webhook/telegram/50"

restored_example :
    (create_telegram alone get_me set_webhook endpoint 50 "s3cret" none "12:ab" start).1.db ≡ tables
unfolding create_telegram validate_bot_token split_once_colon all_bytes insert_or_conflict
    or_conflict arm write_db insert_channel find_channel_by_id find_channel_by_external_key
    chatbridge.Model.provider_name
restored_example =
    create_telegram-restores alone (λ n. refl) (λ n db. refl) get_me set_webhook endpoint 50
      "s3cret" none "12:ab" start (bad_gateway "setWebhook failed: timeout") refl refl refl

sign : Uuid → String
sign zero = String.[]
sign (suc n) = String.◌∷◌ "i" (sign n)

count : String → ℕ
count String.[] = 0
count (String.◌∷◌ c s) = suc (count s)

abbrev verify : String → Option Uuid
verify s = some (count s)

verify-sign : (x : Uuid) → verify (sign x) ≡ some x
unfolding sign count
verify-sign zero = refl
verify-sign (suc x) = ap some (ap suc (counted x))
  where
    counted : (y : ℕ) → count (sign y) ≡ y
    counted zero = refl
    counted (suc y) = ap suc (counted y)

resumed_example :
    (resolve_client alone verify sign
      (some (sign 100))
      (resolve_client alone verify sign none start).1).0
    ≡ ok (100, none)
unfolding resolve_client new_client admitted write_db create_client find_client_by_uuid
resumed_example =
    resolve_client-again alone verify sign none 100 (sign 100) start verify-sign (λ n. refl)
      (λ n db known. known) refl
