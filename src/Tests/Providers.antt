-- ===== src/Tests/Providers.antt =====
-- Runs of the webhooks of both providers and of what they parse.
use chatbridge.Prelude.{
  ◌≡◌, ◌⊎◌, refl, ℕ, String, true, Option, none, some, List, [], ◌∷◌, Uuid, Bool,
}
use chatbridge.Prelude.Ints.{ℤ, pos, negsuc}
use chatbridge.Prelude.Json.{Json, null}
use chatbridge.Prelude.Map.{get as lookup_in}
use chatbridge.Prelude.Results.{Result, ok, err}
use chatbridge.Model.{NewMessage, InstagramConfig, TelegramConfig, instagram, telegram}
use chatbridge.Db.{Channel}
use chatbridge.Db.Channels.{find_live_channel_by_external_key, find_live_channel_by_id}
use chatbridge.Db.Clients.{find_client_by_external_id, upsert_client, find_client_by_uuid}
use chatbridge.Cache.{cached_channel_by_key, cached_client_by_key}
use chatbridge.World.{World, Io, read_db, write_db, pure}
use chatbridge.Pipeline.Lookup.{
  get_channel_by_external_key, get_channel_by_id, get_client, read_through, fetch,
}
use chatbridge.Provider.{Headers, Parsed, WebhookProvider, ProfileTask, new_uuid, utc_now}
use chatbridge.Provider.Customers.{IsCustomer}
use chatbridge.Provider.Telegram.{
  TelegramUser, TelegramUpdate, TelegramChat, resolve_telegram_client, upsert_telegram_client,
  announce_client, load, telegram_provider, verify_secret_token, secret_header, build_display_name,
}
use chatbridge.Provider.Telegram.Resolved.{resolve_telegram_client-IsCustomer}
use chatbridge.Provider.Instagram.{
  MessagingEvent, Message, Participant, Entry, MetaWebhookPayload, verify, classify_event,
  events_of, resolve_instagram_client,
}
use chatbridge.Provider.Instagram.Parse.{
  parse, parse_entries, parse_events, parse_event, in_channel, sides, followed_by,
  instagram_message,
}
use chatbridge.Provider.Instagram.Parse.Routed.{Routed, all_events}
use chatbridge.Provider.Instagram.Parse.Sided.{Sided, parse-IsSided}
use chatbridge.Webhook.{instagram_ingest, ingest, telegram_ingest, verified}
use chatbridge.Webhook.Signed.{
  IsSigned, HasSecret, instagram_ingest-IsSigned, telegram_ingest-HasSecret,
}
use chatbridge.Tests.Data.{tables, shop}
use chatbridge.Tests.Flows.{alone, start}

abbrev print_int : ℤ → String
print_int (pos n) = "77"
print_int (negsuc n) = "-1"

abbrev clock : ℕ → ℕ
clock n = 1000

abbrev bob : TelegramUser
bob = record { id = pos 77; first_name = "Bob"; last_name = none; username = none }

bob_example :
    IsCustomer telegram "77" 101 (resolve_telegram_client alone print_int clock bob start).1.db
unfolding resolve_telegram_client chatbridge.Provider.Telegram.known_or_new new_uuid
    upsert_telegram_client write_db read_db get_client read_through fetch upsert_client
    announce_client find_client_by_external_id find_client_by_uuid cached_client_by_key lookup_in
    chatbridge.Model.provider_name
bob_example = resolve_telegram_client-IsCustomer alone print_int bob clock 101 start refl refl

-- An account with one channel, and the echo of a message that its owner sent to a customer.
abbrev studio : Channel
studio = record shop { id = 21; provider = "instagram"; external_key = "ig_9" }

abbrev studio_start : World
studio_start = record start { db = record tables { channels = studio ∷ [] } }

abbrev sent_by_owner : MessagingEvent
sent_by_owner = record {
  sender = some (record { id = "ig_9" });
  recipient = some (record { id = "8" });
  timestamp = none;
  message = some (record { mid = "m1"; text = some "hi"; attachments = none; is_echo = true });
  message_edit = none;
  read = none;
  reaction = none;
}

abbrev payload : MetaWebhookPayload
payload = record {
  object = "instagram";
  entry =
      record {
        id = "e1";
        time = pos 1;
        messaging = some (sent_by_owner ∷ []);
        changes = none;
        other = [];
      }
      ∷ [];
}

abbrev decode : String → Result String MetaWebhookPayload
decode body = ok payload

abbrev to_json : MessagingEvent → Json
to_json event = null

abbrev parse_config : Json → Result String InstagramConfig
parse_config json = ok (record { access_token = "t"; token_expires_at = none; username = none })

abbrev echoed : List NewMessage
echoed = instagram_message to_json "e1" sent_by_owner 21 (some 102) ∷ []

parsed_echo :
    (parse alone clock to_json parse_config decode "{}" studio_start).0.messages ≡ ok echoed
unfolding parse parse_entries parse_events parse_event in_channel sides followed_by
    instagram_message events_of classify_event resolve_instagram_client
    chatbridge.Provider.Instagram.known_or_new new_uuid write_db read_db get_client
    get_channel_by_external_key read_through fetch upsert_client find_client_by_external_id
    find_client_by_uuid cached_client_by_key cached_channel_by_key lookup_in
    find_live_channel_by_external_key chatbridge.Model.provider_name
parsed_echo = refl

owner_example : Sided alone clock to_json parse_config (all_events payload.entry) echoed
owner_example =
    parse-IsSided alone clock to_json parse_config decode "{}" payload studio_start echoed refl
      parsed_echo

abbrev mac_matches : String → String → List ℕ → Bool
mac_matches secret body digest = true

abbrev hex_decode : String → Option (List ℕ)
hex_decode digits = some (7 ∷ [])

abbrev signed : Headers
signed name = some "sha256=07"

abbrev nothing_parsed : String → Io Parsed
nothing_parsed body = pure (record { tasks = []; messages = ok [] })

ingest_example :
    let provider : WebhookProvider = record {
      verify = verify mac_matches hex_decode "secret";
      parse = nothing_parsed;
    } in
    (instagram_ingest alone provider signed "{}" ≡ (403, none))
    ⊎ (IsSigned mac_matches hex_decode "secret" signed "{}"
        × (instagram_ingest alone provider signed "{}" ≡ (200, some (ingest alone provider "{}"))))
ingest_example =
    instagram_ingest-IsSigned mac_matches hex_decode "secret" alone nothing_parsed signed "{}"

abbrev decode_update : String → Result String TelegramUpdate
decode_update body = err "no update"

abbrev decode_json : String → Option Json
decode_json body = none

abbrev telegram_config : Json → Result String TelegramConfig
telegram_config json = ok (record { bot_token = "1:a"; bot_secret = "s3cret" })

abbrev print_uuid : Uuid → String
print_uuid id = "1"

abbrev with_secret : Headers
with_secret name = some "s3cret"

abbrev bot_provider : WebhookProvider
bot_provider =
    telegram_provider alone print_int clock decode_update decode_json telegram_config print_uuid 1

secret_example :
    HasSecret alone print_int clock decode_update decode_json telegram_config print_uuid 1
      with_secret start
unfolding telegram_ingest load verified verify_secret_token get_channel_by_id read_through fetch
    read_db find_live_channel_by_id lookup_in
secret_example =
    telegram_ingest-HasSecret alone print_int clock decode_update decode_json telegram_config
      print_uuid 1 with_secret "{}" start (200, ingest alone bot_provider "{}") refl
