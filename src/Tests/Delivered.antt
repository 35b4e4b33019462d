-- ===== src/Tests/Delivered.antt =====
-- Runs of the caches and of the listener.
use chatbridge.Prelude.{
  ◌≡◌, refl, String, Option, str_eq, none, some, List, [], ◌∷◌, ◌++◌, Uuid, ◌==◌, if◌then◌else◌,
  map_option,
}
use chatbridge.Prelude.Map.{get, uuid_same}
use chatbridge.Model.{telegram, new, IncomingEvent, message_event}
use chatbridge.Cache.{ChannelCache, ClientCache, Caches, on_invalidation, invalidation_payload}
use chatbridge.Cache.Keys.{key_same}
use chatbridge.Cache.Coherence.{LosesChannel, LosesClient, LosesChat, on_invalidation-Loses}
use chatbridge.Registry.{Registry, entry}
use chatbridge.Listener.{route}
use chatbridge.Listener.Delivery.{is_for, is_operator, get-route}
use chatbridge.Tests.Data.{shop, anna}

abbrev channels : ChannelCache
channels = record { by_id = (1, shop) ∷ []; ext_index = ((telegram, "tg_1"), 1) ∷ [] }

abbrev clients : ClientCache
clients = record { by_uuid = (2, anna) ∷ []; ext_index = ((telegram, "42"), 2) ∷ [] }

abbrev warm : Caches
warm = record { channels = channels; clients = clients; operators = []; chats = [] }

abbrev print_uuid : Uuid → String
print_uuid id = if id == 1 then "one" else "another"

abbrev parse_uuid : String → Option Uuid
parse_uuid s = if str_eq s "one" then some 1 else none

payload_example :
    LosesChannel 1 warm
      (on_invalidation parse_uuid (invalidation_payload print_uuid "channel" 1) warm)
    × LosesClient 1 warm
        (on_invalidation parse_uuid (invalidation_payload print_uuid "client" 1) warm)
    × LosesChat 1 warm (on_invalidation parse_uuid (invalidation_payload print_uuid "chat" 1) warm)
unfolding get
payload_example = on_invalidation-Loses print_uuid parse_uuid 1 warm refl (refl, tt) (refl, tt)

-- Anna on one connection, operator 9 on another.
abbrev online : Registry (List String)
online = record {
  next_id = 3;
  connections = (9, (2, []) ∷ []) ∷ (2, (1, []) ∷ []) ∷ [];
  operator_ids = (9, tt) ∷ [];
}

abbrev hello : IncomingEvent
hello = message_event (record {
  id = 10;
  external_message_id = "telegram:42:1";
  channel_id = 1;
  chat_id = some 3;
  text = some "hello";
  status = new;
  created_at = 100;
  sender = record { id = 2; sender_type = "client"; name = none; username = none };
})

abbrev try_send : List String → String → List String
try_send tx payload = tx ++ payload ∷ []

routed_example : get 2 (entry 9 (route try_send hello "hello" 2 online)) ≡ (
    if is_for hello 2 (is_operator online 9) 9
    then map_option (λ tx. try_send tx "hello") (get 2 (entry 9 online))
    else get 2 (entry 9 online))
unfolding get
routed_example = get-route try_send "hello" 9 2 hello 2 online (refl, tt) refl
