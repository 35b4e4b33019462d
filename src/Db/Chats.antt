-- ===== src/Db/Chats.antt =====
-- The queries of db.rs on `chats`.
use chatbridge.Prelude.{
  String, Bool, Option, none, some, List, [], ◌∷◌, Uuid, Instant, str_eq, ◌==◌, ◌&&◌, ◌||◌, leb,
  is_some, any, find, select, map_option, if◌then◌else◌,
}
use chatbridge.Prelude.Results.{ok, err}
use chatbridge.Db.{Db, Chat, Write, unique_violation, foreign_key_violation}

-- `WHERE client_id = $1 AND channel_id = $2 AND status = 'new'`
abbrev pub is_active_of : Uuid → Uuid → Chat → Bool
is_active_of client_id channel_id c =
    c.client_id == client_id && c.channel_id == channel_id && str_eq c.status "new"

-- The SELECT of `find_or_create_chat`.
unfoldable pub find_active_chat : Uuid → Uuid → Db → Option Uuid
find_active_chat client_id channel_id db =
    map_option (λ c. c.id) (find (is_active_of client_id channel_id) db.chats)

abbrev pub new_chat : Uuid → Instant → Uuid → Uuid → Chat
new_chat id now client_id channel_id = record {
  id = id;
  channel_id = channel_id;
  client_id = client_id;
  status = "new";
  created_at = now;
}

abbrev pub chat_row : Uuid → Db → Option Chat
chat_row id db = find (λ c. c.id == id) db.chats

-- The INSERT of `find_or_create_chat`, with the constraints that it can break: the primary key,
-- `idx_chats_active` and the foreign keys.
unfoldable pub insert_chat : Uuid → Instant → Uuid → Uuid → Write Uuid
insert_chat id now client_id channel_id db =
    if any (is_active_of client_id channel_id) db.chats || is_some (chat_row id db)
    then err unique_violation
    else if any (λ c. c.id == client_id) db.clients && any (λ c. c.id == channel_id) db.channels
    then ok (record db { chats = new_chat id now client_id channel_id ∷ db.chats }, id)
    else err foreign_key_violation

-- The newest of the rows, the first of those that are equally new.
newest : List Chat → Option Chat
newest [] = none
newest (c ∷ cs) = elim (newest cs) [
  | none ↦ some c
  | some d ↦ if leb d.created_at c.created_at then some c else some d
]

pub record LastChat : Type 0 where
  pub id : Uuid
  pub status : String

-- `find_last_chat`: `ORDER BY created_at DESC LIMIT 1`, whatever the status.
unfoldable pub find_last_chat : Uuid → Uuid → Db → Option LastChat
unfolding newest
find_last_chat client_id channel_id db =
    map_option (λ c. record { id = c.id; status = c.status })
      (newest (select (λ c. c.client_id == client_id && c.channel_id == channel_id) db.chats))

-- `chat_exists`
unfoldable pub chat_exists : Uuid → Db → Bool
chat_exists id db = is_some (chat_row id db)

pub record ChatInfo : Type 0 where
  pub client_id : Uuid
  pub channel_id : Uuid

-- `find_chat_info`
unfoldable pub find_chat_info : Uuid → Db → Option ChatInfo
find_chat_info id db =
    map_option (λ c. record { client_id = c.client_id; channel_id = c.channel_id }) (chat_row id db)
