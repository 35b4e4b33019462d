-- ===== src/Db/Indexes.antt =====
-- The unique indexes of migrations/ on messages, chats and channels, and that the statements of db.rs keep them.
use chatbridge.Prelude.{
  ◌≡◌, refl, String, Bool, false, Option, some, arith, Uuid, Instant, eq_iff, ◌==◌, ◌&&◌, str_eq,
  update, NoClash, NoClash-update, NoClash-delete, any_of_find, NoClash-update_one, AtMostOne-key,
  only_one, find_sound, inl, inr, Option-cases,
}
use chatbridge.Prelude.Results.{ok}
use chatbridge.Prelude.Json.{Json}
use chatbridge.Model.{NewMessage, MessageStatus, ProviderKind, read, delivered, failed}
use chatbridge.Db.{Db, Message, Chat, Channel}
use chatbridge.Db.Channels.{
  insert_channel, update_channel, soft_delete_channel, hard_delete_channel, has_key,
  find_channel_by_id, edit, mark_deleted, is_taken,
}
use chatbridge.Db.Chats.{is_active_of, insert_chat}
use chatbridge.Db.Messages.{
  names, insert_message, edit_message, mark_read, mark_messages_read, mark_messages_read_by_id,
  mark_chat_read, mark_message_delivered, mark_message_failed, set_status, set_text, DbMessage,
}

abbrev pub same_row : Message → Message → Bool
same_row x y = y.id == x.id

-- `idx_messages_channel_external_id`
abbrev pub same_external : Message → Message → Bool
same_external x y = names x.channel_id x.external_message_id y

-- `idx_chats_active`, a partial index
abbrev pub both_active : Chat → Chat → Bool
both_active x y = str_eq x.status "new" && is_active_of x.client_id x.channel_id y

abbrev pub same_chat : Chat → Chat → Bool
same_chat x y = y.id == x.id

-- `idx_channels_provider_external_key`
abbrev pub same_identity : Channel → Channel → Bool
same_identity x y = str_eq y.provider x.provider && str_eq y.external_key x.external_key

abbrev pub same_channel : Channel → Channel → Bool
same_channel x y = y.id == x.id

-- The primary keys and unique indexes of messages, chats and channels hold. Those of clients and
-- operators are left out.
pub record IsIndexed (db : Db) : Type 0 where
  pub message_ids : NoClash same_row db.messages
  pub external_ids : NoClash same_external db.messages
  pub chat_ids : NoClash same_chat db.chats
  pub active_chats : NoClash both_active db.chats
  pub channel_ids : NoClash same_channel db.channels
  pub identities : NoClash same_identity db.channels

-- A message stored by `insert_message` breaks no index, whatever was there before.
pub insert_message-IsIndexed :
    (id : Uuid) (now : Instant) (msg : NewMessage) (chat_id : Option Uuid) (db db' : Db)
    (stored : Option DbMessage)
    → IsIndexed db
    → insert_message id now msg chat_id db ≡ ok (db', stored)
    → IsIndexed db'
unfolding insert_message
insert_message-IsIndexed id now msg chat_id db db' stored v h = ground (
  arith,
  any_of_find (names msg.channel_id msg.external_message_id) db.messages,
  any_of_find (λ (m : Message). m.id == id) db.messages,
)

-- So does a chat that `insert_chat` creates.
pub insert_chat-IsIndexed :
    (id : Uuid) (now : Instant) (client_id channel_id : Uuid) (db db' : Db) (chat : Uuid)
    → IsIndexed db
    → insert_chat id now client_id channel_id db ≡ ok (db', chat)
    → IsIndexed db'
unfolding insert_chat
insert_chat-IsIndexed id now client_id channel_id db db' chat v h =
    ground (arith, any_of_find (λ (c : Chat). c.id == id) db.chats)

module _ (db : Db) (v : IsIndexed db) where
  mark_read-IsIndexed : (covered : Message → Bool) → IsIndexed (mark_read covered db).0
  unfolding mark_read
  mark_read-IsIndexed covered = record {
    message_ids =
        NoClash-update same_row covered (set_status read) db.messages (λ x y. refl) (λ x y. refl)
          v.message_ids;
    external_ids =
        NoClash-update same_external covered (set_status read) db.messages (λ x y. refl)
          (λ x y. refl) v.external_ids;
    chat_ids = v.chat_ids;
    active_chats = v.active_chats;
    channel_ids = v.channel_ids;
    identities = v.identities;
  }

  -- A status changes no compared column.
  status-IsIndexed :
      (p : Message → Bool) (s : MessageStatus)
      → IsIndexed (record db { messages = update p (set_status s) db.messages })
  status-IsIndexed p s = record {
    message_ids =
        NoClash-update same_row p (set_status s) db.messages (λ x y. refl) (λ x y. refl)
          v.message_ids;
    external_ids =
        NoClash-update same_external p (set_status s) db.messages (λ x y. refl) (λ x y. refl)
          v.external_ids;
    chat_ids = v.chat_ids;
    active_chats = v.active_chats;
    channel_ids = v.channel_ids;
    identities = v.identities;
  }

  -- The statements that change a message's text or status keep every index.
  pub edit_message-IsIndexed :
      (now : Instant) (channel_id : Uuid) (external_id : String) (text : Option String)
      → IsIndexed (edit_message now channel_id external_id text db).0
  unfolding edit_message
  edit_message-IsIndexed now channel_id external_id text = record {
    message_ids =
        NoClash-update same_row (names channel_id external_id) (set_text now text) db.messages
          (λ x y. refl) (λ x y. refl) v.message_ids;
    external_ids =
        NoClash-update same_external (names channel_id external_id) (set_text now text) db.messages
          (λ x y. refl) (λ x y. refl) v.external_ids;
    chat_ids = v.chat_ids;
    active_chats = v.active_chats;
    channel_ids = v.channel_ids;
    identities = v.identities;
  }

  pub mark_messages_read-IsIndexed :
      (channel_id : Uuid) (external_id reader : String)
      → IsIndexed (mark_messages_read channel_id external_id reader db).0
  unfolding mark_messages_read
  mark_messages_read-IsIndexed channel_id external_id reader = status-IsIndexed _ read

  pub mark_messages_read_by_id-IsIndexed :
      (id : Uuid) (reader : String) → IsIndexed (mark_messages_read_by_id id reader db).0
  unfolding mark_messages_read_by_id
  mark_messages_read_by_id-IsIndexed id reader = status-IsIndexed _ read

  pub mark_chat_read-IsIndexed :
      (channel_id client_id : Uuid) (reader : String)
      → IsIndexed (mark_chat_read channel_id client_id reader db).0
  unfolding mark_chat_read
  mark_chat_read-IsIndexed channel_id client_id reader = status-IsIndexed _ read

  pub mark_message_delivered-IsIndexed : (id : Uuid) → IsIndexed (mark_message_delivered id db).0
  unfolding mark_message_delivered
  mark_message_delivered-IsIndexed id = status-IsIndexed _ delivered

  pub mark_message_failed-IsIndexed : (id : Uuid) → IsIndexed (mark_message_failed id db).0
  unfolding mark_message_failed
  mark_message_failed-IsIndexed id = status-IsIndexed _ failed

  pub soft_delete_channel-IsIndexed :
      (id : Uuid) (now : Instant) → IsIndexed (soft_delete_channel id now db).0
  unfolding soft_delete_channel
  soft_delete_channel-IsIndexed id now = record {
    message_ids = v.message_ids;
    external_ids = v.external_ids;
    chat_ids = v.chat_ids;
    active_chats = v.active_chats;
    channel_ids =
        NoClash-update same_channel _ (mark_deleted now) db.channels (λ x y. refl) (λ x y. refl)
          v.channel_ids;
    identities =
        NoClash-update same_identity _ (mark_deleted now) db.channels (λ x y. refl) (λ x y. refl)
          v.identities;
  }

  pub hard_delete_channel-IsIndexed :
      (id : Uuid) (db' : Db) → hard_delete_channel id db ≡ ok (db', tt) → IsIndexed db'
  unfolding hard_delete_channel
  hard_delete_channel-IsIndexed id db' h = ground (
    arith,
    v,
    NoClash-delete same_channel (λ (c : Channel). c.id == id) db.channels v.channel_ids,
    NoClash-delete same_identity (λ (c : Channel). c.id == id) db.channels v.identities,
  )

  pub insert_channel-IsIndexed :
      (id : Uuid) (now : Instant) (kind : ProviderKind) (name key : String) (config : Json)
      (db' : Db) (c : Channel)
      → insert_channel id now kind name key config db ≡ ok (db', c)
      → IsIndexed db'
  unfolding insert_channel
  insert_channel-IsIndexed id now kind name key config db' c h = ground (
    arith,
    v,
    any_of_find (λ (d : Channel). d.id == id) db.channels,
    any_of_find (has_key kind key) db.channels,
  )

  same_identity_comm : (x y : Channel) → same_identity x y ≡ same_identity y x
  same_identity_comm x y = ground (
    arith,
    eq_iff x.provider y.provider,
    eq_iff y.provider x.provider,
    eq_iff x.external_key y.external_key,
    eq_iff y.external_key x.external_key,
  )

  edited-identities :
      (id : Uuid) (f : Channel → Channel) (c : Channel)
      → find_channel_by_id id db ≡ some c
      → (f c).id ≡ id
      → is_taken (f c) db ≡ false
      → NoClash same_identity (update (λ d. d.id == id) f db.channels)
  unfolding find_channel_by_id
  edited-identities id f c found same free =
      let one = AtMostOne-key (λ (d : Channel). d.id) id db.channels v.channel_ids in
      NoClash-update_one same_identity (λ d. d.id == id) f (f c) db.channels same_identity_comm one
        (only_one (λ d. d.id == id) f db.channels c one found) (rw same at free) v.identities

  -- An edit of a channel that is accepted keeps these indexes: it takes no identity that another
  -- row holds, live or deleted.
  pub update_channel-IsIndexed :
      (id : Uuid) (name key : Option String) (config : Option Json) (restore : Bool) (db' : Db)
      (result : Option Channel)
      → update_channel id name key config restore db ≡ ok (db', result)
      → IsIndexed db'
  unfolding update_channel
  update_channel-IsIndexed id name key config restore db' result h =
      elim (Option-cases (find_channel_by_id id db)) [
        | inl e ↦ ground arith
        | inr (c, e) ↦ ground (
          arith,
          NoClash-update same_channel (λ d. d.id == id) (edit name key config restore) db.channels
              (λ x y. refl) (λ x y. refl) v.channel_ids,
          edited-identities id (edit name key config restore) c e
              (ground (arith, find_sound (λ (d : Channel). d.id == id) db.channels {a = c})),
        )
      ]
