-- ===== src/Pipeline/Persist.antt =====
-- `persist_and_publish` of pipeline.rs: one arm of its match each.
use chatbridge.Prelude.{
  Bool, true, false, Option, none, some, List, [], ◌∷◌, Uuid, str_eq, ◌&&◌, not, is_some, unwrap_or,
  nil_uuid, if◌then◌else◌,
}
use chatbridge.Prelude.Results.{Result, ok, err}
use chatbridge.Model.{
  message, edit, read, reaction, unknown, Conversation, chat, customer, NewMessage, message_event,
  edit_event, read_event,
}
use chatbridge.Db.{SqlError, same_id}
use chatbridge.Db.Messages.{
  DbMessage, DbEdit, DbRead, insert_message, edit_message, mark_messages_read, mark_chat_read,
}
use chatbridge.World.{
  Env, Io, pure, ◌>>=◌, ◌>>◌, write_db, publish_event, publish_invalidation, total,
}
use chatbridge.Pipeline.Lookup.{get_client_by_uuid, find_or_create_chat, found, resolve_sender}

-- The customer that a provider named, if any.
abbrev pub customer_of : Option Conversation → Option Uuid
customer_of none = none
customer_of (some (chat _)) = none
customer_of (some (customer id)) = some id

-- Two optional ids are the same, absence included: Rust's `==`, and not SQL's.
abbrev pub same_option : Option Uuid → Option Uuid → Bool
same_option none none = true
same_option none (some b) = false
same_option (some a) b = same_id (some a) b

-- An author that is not the verified customer is no author of a client's message.
abbrev pub with_author : Option Uuid → NewMessage → NewMessage
with_author verified msg =
    if str_eq msg.sender_type "client" && not (same_option msg.sender_id verified)
    then record msg { sender_id = verified }
    else msg

module _ (env : Env) where
  -- `verified_client`
  unfoldable pub verify_customer : Option Uuid → Io (Option Uuid)
  verify_customer none = pure none
  verify_customer (some id) = do
    client ← get_client_by_uuid env id
    pure (if is_some (found env client) then some id else none)

  unfoldable pub announce_chat : Result SqlError Uuid → Io (Option Uuid)
  announce_chat (ok id) = do publish_invalidation env "chat" id; pure (some id)
  announce_chat (err _) = pure none

  -- The chat of a verified customer, found or created, and announced to the other replicas.
  unfoldable pub chat_of_customer : Option Uuid → Uuid → Io (Option Uuid)
  unfolding announce_chat
  chat_of_customer none channel_id = pure none
  chat_of_customer (some client_id) channel_id =
      find_or_create_chat env client_id channel_id >>= announce_chat

  -- Where a message goes, and what is stored of it.
  pub record Placed : Type 0 where
    pub chat_id : Option Uuid
    pub msg : NewMessage

  unfoldable pub place_with_customer : NewMessage → Io Placed
  unfolding verify_customer chat_of_customer
  place_with_customer msg = do
    verified ← verify_customer (customer_of msg.conversation)
    chat_id ← chat_of_customer verified msg.channel_id
    pure (record { chat_id = chat_id; msg = with_author verified msg })

  unfoldable pub place : NewMessage → Io Placed
  unfolding place_with_customer
  place msg = elim msg.conversation [
    | some (chat id) ↦ pure (record { chat_id = some id; msg = msg })
    | some (customer _) ↦ place_with_customer msg
    | none ↦ place_with_customer msg
  ]

  -- The event of a stored message, published with its author resolved.
  unfoldable pub announce_message : DbMessage → Io (Option Uuid)
  announce_message m = do
    sender ← resolve_sender env (unwrap_or m.sender_id nil_uuid) m.sender_type
    publish_event env (
        message_event (record {
          id = m.id;
          external_message_id = m.external_message_id;
          channel_id = m.channel_id;
          chat_id = m.chat_id;
          text = m.text;
          status = m.status;
          created_at = m.created_at;
          sender = sender;
        }))
    pure (some m.id)

  unfoldable pub after_insert : Result SqlError (Option DbMessage) → Io (Option Uuid)
  after_insert (ok (some m)) = announce_message m
  after_insert (ok none) = pure none
  after_insert (err _) = pure none

  unfoldable pub persist_message : NewMessage → Io (Option Uuid)
  unfolding after_insert
  persist_message msg = do
    placed ← place msg
    stored ← write_db env (λ id now. insert_message id now placed.msg placed.chat_id)
    after_insert stored

  unfoldable pub after_edit : Result SqlError (Option DbEdit) → Io (Option Uuid)
  after_edit (err _) = pure none
  after_edit (ok none) = pure none
  after_edit (ok (some e)) = do
    sender ← resolve_sender env (unwrap_or e.sender_id nil_uuid) e.sender_type
    publish_event env (
        edit_event (record {
          id = e.id;
          external_message_id = e.external_message_id;
          channel_id = e.channel_id;
          chat_id = e.chat_id;
          text = e.text;
          edited_at = e.edited_at;
          sender = sender;
        }))
    pure none

  unfoldable pub persist_edit : NewMessage → Io (Option Uuid)
  unfolding after_edit
  persist_edit msg = do
    edited ←
        write_db env
          (λ id now. total (edit_message now msg.channel_id msg.external_message_id msg.text))
    after_edit edited

  -- The loop over the rows that a receipt covered: one event each, to the author of the row.
  unfoldable pub publish_reads : List DbRead → Io (Unit {0})
  publish_reads [] = pure tt
  publish_reads (r ∷ rs) = do
    sender ← resolve_sender env (unwrap_or r.sender_id nil_uuid) r.sender_type
    publish_event env (
        read_event (record {
          id = r.id;
          external_message_id = r.external_message_id;
          channel_id = r.channel_id;
          chat_id = r.chat_id;
          sender = sender;
        }))
    publish_reads rs

  -- The rows of the fallback; an error leaves none.
  abbrev swept : Result SqlError (List DbRead) → List DbRead
  swept (ok rows) = rows
  swept (err _) = []

  -- The fallback for a receipt whose anchor is unknown: the customer's active chat.
  unfoldable pub sweep_chat : NewMessage → Io (List DbRead)
  sweep_chat msg = elim (customer_of msg.conversation) [
    | none ↦ pure []
    | some client_id ↦ do
      rows ←
          write_db env (λ id now. total (mark_chat_read msg.channel_id client_id msg.sender_type))
      pure (swept rows)
  ]

  -- What a receipt marked, by its anchor or by its chat. `none` is an error of the first query.
  unfoldable pub collect_reads : NewMessage → Io (Option (List DbRead))
  unfolding sweep_chat
  collect_reads msg = do
    marked ← write_db env (λ id now.
        total (mark_messages_read msg.channel_id msg.external_message_id msg.sender_type))
    elim marked [
      | err e ↦ pure none
      | ok [] ↦ do rows ← sweep_chat msg; pure (some rows)
      | ok (r ∷ rs) ↦ pure (some (r ∷ rs))
    ]

  unfoldable pub persist_read : NewMessage → Io (Option Uuid)
  unfolding collect_reads
  persist_read msg = do reads ← collect_reads msg; publish_reads (unwrap_or reads []); pure none

  -- `persist_and_publish`
  unfoldable pub persist_and_publish : NewMessage → Io (Option Uuid)
  persist_and_publish msg = elim msg.event [
    | message ↦ persist_message msg
    | edit ↦ persist_edit msg
    | read ↦ persist_read msg
    | reaction ↦ pure none
    | unknown ↦ pure none
  ]
