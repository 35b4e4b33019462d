-- ===== src/Tests/Data.antt =====
-- A telegram shop with one customer, whose chat has two of their messages, an operator's reply and
-- the echo that the provider sent of it.
use chatbridge.Prelude.{String, none, some, [], ◌∷◌, Uuid, Instant, refl}
use chatbridge.Prelude.Json.{null}
use chatbridge.Model.{MessageStatus, new, delivered, NewMessage, telegram, message, customer}
use chatbridge.Db.{Db, Channel, Client, Chat, Message}
use chatbridge.Db.Indexes.{IsIndexed}

abbrev pub shop : Channel
shop = record {
  id = 1;
  provider = "telegram";
  name = "shop";
  external_key = "tg_1";
  config = null;
  deleted_at = none;
  created_at = 5;
}

abbrev pub anna : Client
anna = record {
  id = 2;
  provider = "telegram";
  external_id = some "42";
  name = some "Anna";
  username = none;
  updated_at = 6;
}

abbrev pub talk : Chat
talk = record { id = 3; channel_id = 1; client_id = 2; status = "new"; created_at = 7 }

abbrev pub stored : Uuid → String → Uuid → String → MessageStatus → Instant → Message
stored id external_id sender_id sender_type status created_at = record {
  id = id;
  chat_id = some 3;
  external_message_id = external_id;
  channel_id = 1;
  sender_id = some sender_id;
  sender_type = sender_type;
  text = some "hello";
  raw = null;
  status = status;
  created_at = created_at;
  edited_at = none;
}

abbrev pub question : Message
question = stored 10 "telegram:42:1" 2 "client" new 100

abbrev pub reply : Message
reply = stored 11 "operator:a" 9 "operator" new 110

abbrev pub echo : Message
echo = stored 12 "telegram:42:2" 9 "operator" new 111

abbrev pub thanks : Message
thanks = stored 13 "telegram:42:3" 2 "client" delivered 120

abbrev pub tables : Db
tables = record {
  channels = shop ∷ [];
  clients = anna ∷ [];
  operators = [];
  chats = talk ∷ [];
  messages = thanks ∷ echo ∷ reply ∷ question ∷ [];
}

pub tables-IsIndexed : IsIndexed tables
tables-IsIndexed = record {
  message_ids = (refl, (refl, (refl, (refl, tt))));
  external_ids = (refl, (refl, (refl, (refl, tt))));
  chat_ids = (refl, tt);
  active_chats = (refl, tt);
  channel_ids = (refl, tt);
  identities = (refl, tt);
}

-- What Anna's next message arrives as.
abbrev pub incoming : String → NewMessage
incoming external_id = record {
  external_message_id = external_id;
  channel_id = 1;
  conversation = some (customer 2);
  sender_id = some 2;
  sender_type = "client";
  provider = telegram;
  event = message;
  text = some "hi";
  raw = null;
}
