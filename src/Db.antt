-- ===== src/Db.antt =====
-- The tables that db.rs works on, as migrations/ leaves them, and the ways a statement fails.
-- A table is the list of its rows, newest first; no query of the program depends on that order
-- but through ORDER BY.
pub mod Channels
pub mod Clients
pub mod Chats
pub mod Messages
pub mod Indexes
pub mod Adoption
pub mod Forgotten
pub mod Ladder
pub mod Receipts
use chatbridge.Prelude.{
  String, Bool, true, false, Option, none, some, List, Uuid, Instant, str_eq, ◌==◌, ◌&&◌, is_none,
}
use chatbridge.Prelude.Json.{Json}
use chatbridge.Prelude.Results.{Result}
use chatbridge.Model.{MessageStatus}

-- `sqlx::Error`, by the cases that the program tells apart or that a constraint raises.
pub data SqlError : Type 0 where
  unique_violation foreign_key_violation check_violation row_not_found unavailable : SqlError

pub record Channel : Type 0 where
  pub id : Uuid
  pub provider : String
  pub name : String
  pub external_key : String
  pub config : Json
  pub deleted_at : Option Instant
  pub created_at : Instant

pub record Client : Type 0 where
  pub id : Uuid
  pub provider : String
  pub external_id : Option String
  pub name : Option String
  pub username : Option String
  pub updated_at : Instant

pub record Operator : Type 0 where
  pub id : Uuid
  pub name : String
  pub created_at : Instant

pub record Chat : Type 0 where
  pub id : Uuid
  pub channel_id : Uuid
  pub client_id : Uuid
  pub status : String
  pub created_at : Instant

pub record Message : Type 0 where
  pub id : Uuid
  pub chat_id : Option Uuid
  pub external_message_id : String
  pub channel_id : Uuid
  pub sender_id : Option Uuid
  pub sender_type : String
  pub text : Option String
  pub raw : Json
  pub status : MessageStatus
  pub created_at : Instant
  pub edited_at : Option Instant

pub record Db : Type 0 where
  pub channels : List Channel
  pub clients : List Client
  pub operators : List Operator
  pub chats : List Chat
  pub messages : List Message

-- A statement that writes: the new tables and its result, or an error that changes nothing.
abbrev pub Write : Type 0 → Type 0
Write A = Db → Result SqlError (Db × A)

-- SQL's `a = b` on nullable columns: not true if either is NULL.
abbrev pub same_id : Option Uuid → Option Uuid → Bool
same_id (some a) (some b) = a == b
same_id (some a) none = false
same_id none b = false

abbrev pub same_text : Option String → Option String → Bool
same_text (some a) (some b) = str_eq a b
same_text (some a) none = false
same_text none b = false
