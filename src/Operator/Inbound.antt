-- ===== src/Operator/Inbound.antt =====
-- `process_operator_message` of handler/operator_ws.rs. Reading the message and writing it as JSON is
-- serde's, and reading a UUID the `uuid` crate's. What it spawns and what it sends over the socket
-- are values.
use Prim.Native.String.{◌++◌ as append}
use chatbridge.Prelude.{
  String, Option, none, some, List, [], ◌∷◌, Uuid, str_eq, unwrap_or, nil_uuid, if◌then◌else◌,
}
use chatbridge.Prelude.Json.{Json}
use chatbridge.Prelude.Results.{Result, ok, err}
use chatbridge.Model.{
  EventKind, message, edit, read, reaction, unknown, chat, NewMessage, widget, WsOutbound, ack,
  error, OperatorInbound, event_of_action,
}
use chatbridge.Db.{SqlError}
use chatbridge.Db.Channels.{find_channel_provider}
use chatbridge.Db.Chats.{ChatInfo}
use chatbridge.Db.Messages.{DbRead, mark_messages_read_by_id}
use chatbridge.World.{Env, Io, pure, ◌>>=◌, ◌>>◌, read_db, write_db, total}
use chatbridge.Pipeline.Lookup.{get_chat_info}
use chatbridge.Pipeline.Persist.{persist_and_publish, publish_reads}
use chatbridge.ExternalId.{operator_id}

-- What the handler spawns: `spawn_seen_marker`, `spawn_instagram_delivery` and
-- `spawn_telegram_delivery`, with their arguments.
pub data Task : Type 0 where
  seen_marker : (channel_id client_id operator : Uuid) → Task
  instagram_delivery :
      (channel_id client_id operator : Uuid) (text : String) (message_id : Uuid) → Task
  telegram_delivery :
      (channel_id client_id operator : Uuid) (text : String) (message_id : Uuid) → Task

-- What one message of the panel leads to on the socket and in the background.
pub record Served : Type 0 where
  pub reply : Option WsOutbound
  pub tasks : List Task

abbrev pub refuse : String → Served
refuse reason = record { reply = some (error reason); tasks = [] }

-- `inbound.text.clone().filter(|t| !t.is_empty())`, with what is done with it.
unfoldable pub with_text : Option String → (String → List Task) → List Task
with_text none f = []
with_text (some t) f = if str_eq t "" then [] else f t

unfoldable pub seen_tasks : List DbRead → ChatInfo → Uuid → List Task
seen_tasks [] info operator = []
seen_tasks (_ ∷ _) info operator = seen_marker info.channel_id info.client_id operator ∷ []

-- The delivery of a stored message, by the provider of its channel.
unfoldable pub delivery :
    Result SqlError (Option String) → ChatInfo → Uuid → Option String → Uuid → List Task
unfolding with_text
delivery (err _) info operator text message_id = []
delivery (ok none) info operator text message_id = []
delivery (ok (some provider)) info operator text message_id =
    if str_eq provider "instagram"
    then with_text text
        (λ t. instagram_delivery info.channel_id info.client_id operator t message_id ∷ [])
    else if str_eq provider "telegram"
    then with_text text
        (λ t. telegram_delivery info.channel_id info.client_id operator t message_id ∷ [])
    else []

module _ (env : Env) (decode : String → Result String OperatorInbound)
    (parse_uuid : String → Option Uuid) (to_json : OperatorInbound → Json) where
  unfoldable pub after_reads : Result SqlError (List DbRead) → ChatInfo → Uuid → Io Served
  unfolding seen_tasks
  after_reads (err _) info operator = pure (refuse "read receipt failed")
  after_reads (ok reads) info operator = do
    publish_reads env reads
    pure (record { reply = none; tasks = seen_tasks reads info operator })

  -- A read receipt of the panel names a row by its id.
  unfoldable pub read_receipt : OperatorInbound → ChatInfo → Uuid → Io Served
  unfolding after_reads
  read_receipt inbound info operator = elim (parse_uuid inbound.mid) [
    | none ↦ pure (refuse "invalid mid for read")
    | some message_id ↦ do
      reads ← write_db env (λ id now. total (mark_messages_read_by_id message_id "operator"))
      after_reads reads info operator
  ]

  unfoldable pub operator_message : OperatorInbound → ChatInfo → Uuid → NewMessage
  operator_message inbound info operator = record {
    external_message_id = operator_id inbound.mid;
    channel_id = info.channel_id;
    conversation = some (chat inbound.chat_id);
    sender_id = some operator;
    sender_type = "operator";
    provider = widget;
    event = event_of_action inbound.action;
    text = inbound.text;
    raw = to_json inbound;
  }

  -- The deliveries of a message that was stored; a message that was not is not delivered.
  unfoldable pub deliveries : Option Uuid → OperatorInbound → ChatInfo → Uuid → Io (List Task)
  unfolding delivery
  deliveries none inbound info operator = pure []
  deliveries (some message_id) inbound info operator = do
    provider ← read_db env (find_channel_provider info.channel_id)
    pure (delivery provider info operator inbound.text message_id)

  -- Only a new message is delivered.
  unfoldable pub spawn_deliveries :
      EventKind → Option Uuid → OperatorInbound → ChatInfo → Uuid → Io (List Task)
  unfolding deliveries
  spawn_deliveries message persisted inbound info operator =
      deliveries persisted inbound info operator
  spawn_deliveries edit persisted inbound info operator = pure []
  spawn_deliveries read persisted inbound info operator = pure []
  spawn_deliveries reaction persisted inbound info operator = pure []
  spawn_deliveries unknown persisted inbound info operator = pure []

  unfoldable pub send_or_edit : OperatorInbound → ChatInfo → Uuid → Io Served
  unfolding spawn_deliveries operator_message
  send_or_edit inbound info operator = do
    persisted ← persist_and_publish env (operator_message inbound info operator)
    tasks ← spawn_deliveries (event_of_action inbound.action) persisted inbound info operator
    pure (record {
      reply = some (ack (unwrap_or (parse_uuid inbound.mid) nil_uuid) persisted);
      tasks = tasks;
    })

  unfoldable pub in_chat : Result SqlError (Option ChatInfo) → OperatorInbound → Uuid → Io Served
  unfolding read_receipt send_or_edit
  in_chat (err _) inbound operator = pure (refuse "internal error")
  in_chat (ok none) inbound operator = pure (refuse "chat not found")
  in_chat (ok (some info)) inbound operator = elim (event_of_action inbound.action) [
    | read ↦ read_receipt inbound info operator
    | message ↦ send_or_edit inbound info operator
    | edit ↦ send_or_edit inbound info operator
    | reaction ↦ send_or_edit inbound info operator
    | unknown ↦ send_or_edit inbound info operator
  ]

  -- `process_operator_message`
  unfoldable pub process_operator_message : String → Uuid → Io Served
  unfolding in_chat
  process_operator_message text operator = elim (decode text) [
    | err e ↦ pure (refuse (append "invalid message: " e))
    | ok inbound ↦ do info ← get_chat_info env inbound.chat_id; in_chat info inbound operator
  ]
