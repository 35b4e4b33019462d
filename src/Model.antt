-- ===== src/Model.antt =====
-- model.rs: the types that the components exchange, with their conversions.
pub mod RoundTrip
use chatbridge.Prelude.{
  ℕ, String, Bool, true, false, Option, none, some, List, Uuid, Instant, str_eq, if◌then◌else◌,
}
use chatbridge.Prelude.Json.{Json}

pub data ProviderKind : Type 0 where
  instagram telegram widget : ProviderKind

pub record TelegramConfig : Type 0 where
  pub bot_token : String
  pub bot_secret : String

pub record InstagramConfig : Type 0 where
  pub access_token : String
  pub token_expires_at : Option Instant
  pub username : Option String

pub data ChannelSpec : Type 0 where
  widget_spec : (widget_id : String) → ChannelSpec
  telegram_spec : (bot_token : String) → ChannelSpec
  instagram_spec : (access_token : String) → ChannelSpec

-- `ChannelSpec::provider`
unfoldable pub provider : ChannelSpec → ProviderKind
provider (widget_spec _) = widget
provider (telegram_spec _) = telegram
provider (instagram_spec _) = instagram

pub data EventKind : Type 0 where
  message edit read reaction unknown : EventKind

pub data MessageStatus : Type 0 where
  new delivered read failed : MessageStatus

-- `MessageStatus::as_str`
unfoldable pub as_str : MessageStatus → String
as_str new = "new"
as_str delivered = "delivered"
as_str read = "read"
as_str failed = "failed"

pub record Sender : Type 0 where
  pub id : Uuid
  pub sender_type : String
  pub name : Option String
  pub username : Option String

pub record IncomingMessage : Type 0 where
  pub id : Uuid
  pub external_message_id : String
  pub channel_id : Uuid
  pub chat_id : Option Uuid
  pub text : Option String
  pub status : MessageStatus
  pub created_at : Instant
  pub sender : Sender

pub record IncomingEdit : Type 0 where
  pub id : Uuid
  pub external_message_id : String
  pub channel_id : Uuid
  pub chat_id : Option Uuid
  pub text : Option String
  pub edited_at : Instant
  pub sender : Sender

pub record IncomingRead : Type 0 where
  pub id : Uuid
  pub external_message_id : String
  pub channel_id : Uuid
  pub chat_id : Option Uuid
  pub sender : Sender

pub data IncomingEvent : Type 0 where
  message_event : IncomingMessage → IncomingEvent
  edit_event : IncomingEdit → IncomingEvent
  read_event : IncomingRead → IncomingEvent

-- `IncomingEvent::sender_id`
unfoldable pub sender_id : IncomingEvent → Uuid
sender_id (message_event m) = m.sender.id
sender_id (edit_event e) = e.sender.id
sender_id (read_event r) = r.sender.id

-- `IncomingEvent::chat_id`
unfoldable pub chat_id : IncomingEvent → Option Uuid
chat_id (message_event m) = m.chat_id
chat_id (edit_event e) = e.chat_id
chat_id (read_event r) = r.chat_id

pub data Conversation : Type 0 where
  chat : Uuid → Conversation
  customer : Uuid → Conversation

pub record NewMessage : Type 0 where
  pub external_message_id : String
  pub channel_id : Uuid
  pub conversation : Option Conversation
  pub sender_id : Option Uuid
  pub sender_type : String
  pub provider : ProviderKind
  pub event : EventKind
  pub text : Option String
  pub raw : Json

-- `ProviderKind::from_str`; `none` is the error.
unfoldable pub parse_provider : String → Option ProviderKind
parse_provider s =
    if str_eq s "instagram"
    then some instagram
    else if str_eq s "telegram"
    then some telegram
    else if str_eq s "widget"
    then some widget
    else none

-- `Display for ProviderKind`
unfoldable pub provider_name : ProviderKind → String
provider_name instagram = "instagram"
provider_name telegram = "telegram"
provider_name widget = "widget"

-- `Display for EventKind`
unfoldable pub event_name : EventKind → String
event_name message = "message"
event_name edit = "edit"
event_name read = "read"
event_name reaction = "reaction"
event_name unknown = "unknown"

pub data WsActionKind : Type 0 where
  send edit read : WsActionKind

-- `From<WsActionKind> for EventKind`
unfoldable pub event_of_action : WsActionKind → EventKind
event_of_action send = message
event_of_action edit = EventKind.edit
event_of_action read = EventKind.read

pub record WsInbound : Type 0 where
  pub action : WsActionKind
  pub mid : Uuid
  pub text : Option String
  pub attachments : List Uuid

pub data WsOutbound : Type 0 where
  auth : (token : String) (operator_id : Option Uuid) → WsOutbound
  ack : (message_id : Uuid) (id : Option Uuid) → WsOutbound
  chat_info : (chat_id : Uuid) (status : String) → WsOutbound
  error : (reason : String) → WsOutbound
  delivered_event : (message_id : Uuid) → WsOutbound
  delivery_failed : (message_id : Uuid) (reason : String) → WsOutbound

pub record OperatorInbound : Type 0 where
  pub action : WsActionKind
  pub chat_id : Uuid
  pub mid : String
  pub text : Option String
