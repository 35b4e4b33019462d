-- ===== src/Provider/Telegram.antt =====
-- provider/telegram.rs: webhooks of Telegram bots. Reading and writing JSON is serde's and printing
-- an integer the standard library's.
pub mod Resolved
pub mod Api
use Prim.Native.String.{◌++◌ as append}
use chatbridge.Prelude.{
  String, ℕ, Option, none, some, List, [], ◌∷◌, Uuid, Instant, str_eq, not, and_then, map_option,
  if◌then◌else◌,
}
use chatbridge.Prelude.Ints.{ℤ}
use chatbridge.Prelude.Json.{Json, null}
use chatbridge.Prelude.Results.{Result, ok, err}
use chatbridge.Model.{
  EventKind, message, edit, read, reaction, unknown, NewMessage, TelegramConfig, telegram, customer,
}
use chatbridge.Db.{SqlError, Channel, Client}
use chatbridge.Db.Clients.{upsert_client}
use chatbridge.World.{Env, Io, pure, ◌>>=◌, ◌>>◌, write_db, publish_invalidation}
use chatbridge.Pipeline.Lookup.{get_channel_by_id, get_client}
use chatbridge.ExternalId.{telegram_id, telegram_update}
use chatbridge.Channels.{AppError, forbidden, bad_request, not_found, internal, of_sql}
use chatbridge.Provider.{
  Headers, ProfileTask, Parsed, WebhookProvider, refresh_if_stale, new_uuid, utc_now,
}

pub record TelegramUser : Type 0 where
  pub id : ℤ
  pub first_name : String
  pub last_name : Option String
  pub username : Option String

pub record TelegramChat : Type 0 where
  pub id : ℤ

pub record TelegramMessage : Type 0 where
  pub message_id : ℤ
  pub date : ℤ
  pub chat : TelegramChat
  pub from : Option TelegramUser
  pub text : Option String

pub record TelegramUpdate : Type 0 where
  pub update_id : ℤ
  pub message : Option TelegramMessage
  pub edited_message : Option TelegramMessage

-- `build_display_name`
unfoldable pub build_display_name : TelegramUser → String
build_display_name user = elim user.last_name [
  | some last ↦ append user.first_name (append " " last)
  | none ↦ user.first_name
]

abbrev pub secret_header : String
secret_header = "X-Telegram-Bot-Api-Secret-Token"

-- `verify_secret_token`
unfoldable pub verify_secret_token : Headers → String → Result AppError (Unit {0})
verify_secret_token headers expected = elim (headers secret_header) [
  | none ↦ err (forbidden "missing X-Telegram-Bot-Api-Secret-Token")
  | some token ↦
      if not (str_eq token expected) then err (forbidden "invalid secret token") else ok tt
]

-- The kind of an update, and the message that it carries.
unfoldable pub content : TelegramUpdate → EventKind × Option TelegramMessage
content update = elim update.message [
  | some msg ↦ (message, some msg)
  | none ↦ elim update.edited_message [ some msg ↦ (edit, some msg) | none ↦ (unknown, none) ]
]

module _ (env : Env) (print_int : ℤ → String) where
  unfoldable pub announce_client : Result SqlError Uuid → Io (Result SqlError Uuid)
  announce_client (err e) = pure (err e)
  announce_client (ok id) = do publish_invalidation env "client" id; pure (ok id)

  -- `upsert_telegram_client`
  unfoldable pub upsert_telegram_client : Uuid → TelegramUser → Io (Result SqlError Uuid)
  unfolding announce_client build_display_name
  upsert_telegram_client client_id from =
      write_db env (λ _ now.
        upsert_client client_id now telegram (print_int from.id) (some (build_display_name from))
          from.username)
      >>= announce_client

  -- The spawned body of `spawn_telegram_upsert`: an error is logged.
  unfoldable pub refresh_client : Uuid → TelegramUser → Io (Unit {0})
  refresh_client client_id from = do _ ← upsert_telegram_client client_id from; pure tt

  module _ (clock : ℕ → Instant) where
    -- `.ok()`, for a client that was stored.
    abbrev stored : Result SqlError Uuid → Option Uuid × List ProfileTask
    stored (ok id) = (some id, [])
    stored (err _) = (none, [])

    unfoldable pub known_or_new :
        TelegramUser → Result SqlError (Option Client) → Io (Option Uuid × List ProfileTask)
    known_or_new from (err _) = pure (none, [])
    known_or_new from (ok none) = do
      client_id ← new_uuid env
      result ← upsert_telegram_client client_id from
      pure (stored result)
    known_or_new from (ok (some client)) = do
      now ← utc_now clock
      pure (
          (
            some client.id,
            refresh_if_stale now client (record {
              client_id = client.id;
              external_id = print_int from.id;
              access_token = none;
            }),
          ))

    -- `resolve_telegram_client`
    unfoldable pub resolve_telegram_client : TelegramUser → Io (Option Uuid × List ProfileTask)
    unfolding known_or_new
    resolve_telegram_client from = get_client env telegram (print_int from.id) >>= known_or_new from

    unfoldable pub resolve_author : Option TelegramUser → Io (Option Uuid × List ProfileTask)
    resolve_author none = pure (none, [])
    resolve_author (some from) = resolve_telegram_client from

    module _ (decode : String → Result String TelegramUpdate)
        (decode_json : String → Option Json) where
      abbrev external_id_of : TelegramUpdate → Option TelegramMessage → String
      external_id_of update (some msg) = telegram_id print_int msg.chat.id msg.message_id
      external_id_of update none = telegram_update print_int update.update_id

      abbrev text_of : EventKind → Option TelegramMessage → Option String
      text_of message msg = and_then msg (λ m. m.text)
      text_of edit msg = and_then msg (λ m. m.text)
      text_of _ msg = none

      abbrev raw_of : Option Json → Json
      raw_of (some json) = json
      raw_of none = null

      -- The one message of an update.
      unfoldable pub telegram_message : Uuid → String → TelegramUpdate → Option Uuid → NewMessage
      unfolding content
      telegram_message channel_id body update client_id =
          let (kind, msg) = content update in
          record {
            external_message_id = external_id_of update msg;
            channel_id = channel_id;
            conversation = map_option customer client_id;
            sender_id = client_id;
            sender_type = "client";
            provider = telegram;
            event = kind;
            text = text_of kind msg;
            raw = raw_of (decode_json body);
          }

      -- `TelegramProvider::parse`
      unfoldable pub parse : Uuid → String → Io Parsed
      unfolding resolve_author telegram_message
      parse channel_id body = elim (decode body) [
        | err e ↦ pure (record { tasks = []; messages = err (bad_request e) })
        | ok update ↦ do
          author ← resolve_author (and_then (content update).1 (λ m. m.from))
          pure (record {
            tasks = author.1;
            messages = ok (telegram_message channel_id body update author.0 ∷ []);
          })
      ]

      module _ (parse_config : Json → Result String TelegramConfig)
          (print_uuid : Uuid → String) where
        -- `impl WebhookProvider for TelegramProvider`: the secret was checked before it was made.
        abbrev pub telegram_provider : Uuid → WebhookProvider
        telegram_provider channel_id = record {
          verify = λ headers body. ok tt;
          parse = parse channel_id;
        }

        abbrev loaded :
            Result SqlError (Option Channel) → Uuid → Result AppError (WebhookProvider × String)
        loaded (err e) channel_id = err (of_sql e)
        loaded (ok none) channel_id =
            err (not_found (append "channel " (append (print_uuid channel_id) " not found")))
        loaded (ok (some channel)) channel_id = elim (parse_config channel.config) [
          | err e ↦ err (internal (append "bad telegram config: " e))
          | ok config ↦ ok (telegram_provider channel_id, config.bot_secret)
        ]

        -- `TelegramProvider::load`: the provider, and the secret that its webhooks carry.
        unfoldable pub load : Uuid → Io (Result AppError (WebhookProvider × String))
        load channel_id = do
          channel ← get_channel_by_id env channel_id
          pure (loaded channel channel_id)
