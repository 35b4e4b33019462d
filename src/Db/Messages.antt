-- ===== src/Db/Messages.antt =====
-- The queries of db.rs on `messages`.
use chatbridge.Prelude.{
  String, Bool, true, false, Option, none, some, List, ◌∷◌, map, Uuid, Instant, str_eq, ◌==◌, ◌&&◌,
  ◌||◌, not, leb, is_some, any, find, select, update, delete, map_option, if◌then◌else◌,
}
use chatbridge.Prelude.Results.{ok, err}
use chatbridge.Model.{MessageStatus, new, delivered, read, failed, NewMessage}
use chatbridge.Db.{
  Db, Message, Write, unique_violation, foreign_key_violation, check_violation, same_id,
}
use chatbridge.Db.Chats.{is_active_of}

-- The row with that id.
unfoldable pub row : Uuid → Db → Option Message
row id db = find (λ m. m.id == id) db.messages

-- `WHERE channel_id = $1 AND external_message_id = $2`
abbrev pub names : Uuid → String → Message → Bool
names channel_id external_id m =
    m.channel_id == channel_id && str_eq m.external_message_id external_id

unfoldable pub anchor : Uuid → String → Db → Option Message
anchor channel_id external_id db = find (names channel_id external_id) db.messages

-- What `RETURNING` hands to `DbMessage`, `DbEdit` and `DbRead`.
pub record DbMessage : Type 0 where
  pub id : Uuid
  pub external_message_id : String
  pub channel_id : Uuid
  pub chat_id : Option Uuid
  pub sender_id : Option Uuid
  pub sender_type : String
  pub text : Option String
  pub status : MessageStatus
  pub created_at : Instant

pub record DbEdit : Type 0 where
  pub id : Uuid
  pub external_message_id : String
  pub channel_id : Uuid
  pub chat_id : Option Uuid
  pub sender_id : Option Uuid
  pub sender_type : String
  pub text : Option String
  pub edited_at : Instant

pub record DbRead : Type 0 where
  pub id : Uuid
  pub external_message_id : String
  pub channel_id : Uuid
  pub chat_id : Option Uuid
  pub sender_id : Option Uuid
  pub sender_type : String

abbrev pub db_message : Message → DbMessage
db_message m = record {
  id = m.id;
  external_message_id = m.external_message_id;
  channel_id = m.channel_id;
  chat_id = m.chat_id;
  sender_id = m.sender_id;
  sender_type = m.sender_type;
  text = m.text;
  status = m.status;
  created_at = m.created_at;
}

abbrev pub db_edit : Instant → Message → DbEdit
db_edit now m = record {
  id = m.id;
  external_message_id = m.external_message_id;
  channel_id = m.channel_id;
  chat_id = m.chat_id;
  sender_id = m.sender_id;
  sender_type = m.sender_type;
  text = m.text;
  edited_at = now;
}

abbrev pub db_read : Message → DbRead
db_read m = record {
  id = m.id;
  external_message_id = m.external_message_id;
  channel_id = m.channel_id;
  chat_id = m.chat_id;
  sender_id = m.sender_id;
  sender_type = m.sender_type;
}

-- The row that `insert_message` writes: `status` and `edited_at` have the columns' defaults.
abbrev pub new_row : Uuid → Instant → NewMessage → Option Uuid → Message
new_row id now msg chat_id = record {
  id = id;
  chat_id = chat_id;
  external_message_id = msg.external_message_id;
  channel_id = msg.channel_id;
  sender_id = msg.sender_id;
  sender_type = msg.sender_type;
  text = msg.text;
  raw = msg.raw;
  status = new;
  created_at = now;
  edited_at = none;
}

-- `messages_sender_type_check`
abbrev pub sender_type_allowed : String → Bool
sender_type_allowed t = str_eq t "client" || str_eq t "operator"

-- The foreign keys of `messages`: the channel, and the chat if there is one.
references_exist : Uuid → Option Uuid → Db → Bool
references_exist channel_id none db = any (λ c. c.id == channel_id) db.channels
references_exist channel_id (some chat) db =
    any (λ c. c.id == channel_id) db.channels && any (λ c. c.id == chat) db.chats

-- `insert_message`. `ON CONFLICT (channel_id, external_message_id) DO NOTHING` takes a second
-- delivery of a message; a primary key that is taken is an error.
unfoldable pub insert_message : Uuid → Instant → NewMessage → Option Uuid → Write (Option DbMessage)
unfolding row anchor references_exist
insert_message id now msg chat_id db =
    if not (sender_type_allowed msg.sender_type)
    then err check_violation
    else if is_some (anchor msg.channel_id msg.external_message_id db)
    then ok (db, none)
    else if is_some (row id db)
    then err unique_violation
    else if references_exist msg.channel_id chat_id db
    then ok (
      record db { messages = new_row id now msg chat_id ∷ db.messages },
      some (db_message (new_row id now msg chat_id)),
    )
    else err foreign_key_violation

abbrev pub set_text : Instant → Option String → Message → Message
set_text now text m = record m { text = text; edited_at = some now }

-- `edit_message`; at most one row is named, by the unique index.
unfoldable pub edit_message : Instant → Uuid → String → Option String → Db → Db × Option DbEdit
unfolding anchor
edit_message now channel_id external_id text db = (
  record db { messages = update (names channel_id external_id) (set_text now text) db.messages },
  map_option (λ m. db_edit now (set_text now text m)) (anchor channel_id external_id db),
)

-- `status IN ('new', 'delivered')`
abbrev pub is_unread : MessageStatus → Bool
is_unread new = true
is_unread delivered = true
is_unread read = false
is_unread failed = false

abbrev pub set_status : MessageStatus → Message → Message
set_status s m = record m { status = s }

-- The rows that one read receipt covers: those of the anchor's chat, up to the anchor, unread,
-- and not the reader's own. With no anchor, or an anchor in no chat, the comparison is NULL.
abbrev pub is_covered : Option Message → String → Message → Bool
is_covered none reader m = false
is_covered (some a) reader m =
    same_id m.chat_id a.chat_id
    && leb m.created_at a.created_at
    && is_unread m.status
    && not (str_eq m.sender_type reader)

unfoldable pub mark_read : (Message → Bool) → Db → Db × List DbRead
mark_read covered db = (
  record db { messages = update covered (set_status read) db.messages },
  map db_read (select covered db.messages),
)

-- `mark_messages_read`
unfoldable pub mark_messages_read : Uuid → String → String → Db → Db × List DbRead
unfolding mark_read anchor
mark_messages_read channel_id external_id reader db =
    mark_read (is_covered (anchor channel_id external_id db) reader) db

-- `mark_messages_read_by_id`
unfoldable pub mark_messages_read_by_id : Uuid → String → Db → Db × List DbRead
unfolding mark_read row
mark_messages_read_by_id message_id reader db = mark_read (is_covered (row message_id db) reader) db

abbrev pub is_unread_in : Option Uuid → Uuid → String → Message → Bool
is_unread_in chat channel_id reader m =
    same_id m.chat_id chat
    && m.channel_id == channel_id
    && is_unread m.status
    && not (str_eq m.sender_type reader)

-- The subquery of `mark_chat_read`: at most one row, by `idx_chats_active`.
abbrev pub active_chat : Uuid → Uuid → Db → Option Uuid
active_chat client_id channel_id db =
    map_option (λ c. c.id) (find (is_active_of client_id channel_id) db.chats)

-- `mark_chat_read`
unfoldable pub mark_chat_read : Uuid → Uuid → String → Db → Db × List DbRead
unfolding mark_read
mark_chat_read channel_id client_id reader db =
    mark_read (is_unread_in (active_chat client_id channel_id db) channel_id reader) db

abbrev pub set_external_id : String → Message → Message
set_external_id external_id m = record m { external_message_id = external_id }

-- `adopt_external_message_id`: one transaction, which removes the echo's row before it renames.
unfoldable pub adopt_external_message_id : Uuid → String → Db → Db × Bool
unfolding row
adopt_external_message_id message_id external_id db = elim (row message_id db) [
  | none ↦ (db, false)
  | some m ↦ (
    record db {
      messages =
          update (λ r. r.id == message_id) (set_external_id external_id)
            (delete (λ r. names m.channel_id external_id r && not (r.id == message_id))
              db.messages);
    },
    true,
  )
]

-- `WHERE id = $1 AND status = 'new'`
abbrev pub is_new : MessageStatus → Bool
is_new new = true
is_new delivered = false
is_new read = false
is_new failed = false

abbrev pub is_untouched : Uuid → Message → Bool
is_untouched message_id m = m.id == message_id && is_new m.status

-- `mark_message_delivered`
unfoldable pub mark_message_delivered : Uuid → Db → Db × Bool
mark_message_delivered message_id db = (
  record db { messages = update (is_untouched message_id) (set_status delivered) db.messages },
  any (is_untouched message_id) db.messages,
)

-- `mark_message_failed`
unfoldable pub mark_message_failed : Uuid → Db → Db × Bool
mark_message_failed message_id db = (
  record db { messages = update (is_untouched message_id) (set_status failed) db.messages },
  any (is_untouched message_id) db.messages,
)
