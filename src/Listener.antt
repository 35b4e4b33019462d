-- ===== src/Listener.antt =====
-- listener.rs: what one message of Redis becomes on the WebSocket connections of this replica.
-- Reading the payload is serde's, and handing a text to a connection is tokio's. The registry's
-- calls of one message are taken one after the other, with no other task between them.
pub mod Delivery
use chatbridge.Prelude.{
  String, Bool, true, false, Option, none, some, List, [], ◌∷◌, Uuid, ◌==◌, not, if◌then◌else◌,
}
use chatbridge.Prelude.Map.{Map}
use chatbridge.Prelude.Results.{Result, ok, err}
use chatbridge.Model.{IncomingEvent, message_event, edit_event, read_event, sender_id, chat_id}
use chatbridge.Db.{SqlError}
use chatbridge.Db.Chats.{ChatInfo}
use chatbridge.Registry.{Registry, send_to}
use chatbridge.World.{Env, World, Io, pure, ◌>>=◌}
use chatbridge.Pipeline.Lookup.{get_chat_info, found}

abbrev pub keys {ℓ} : {V : Type ℓ} → Map Uuid V → List Uuid
keys [] = []
keys ((k, _) ∷ m) = k ∷ keys m

abbrev pub is_read : IncomingEvent → Bool
is_read (message_event _) = false
is_read (edit_event _) = false
is_read (read_event _) = true

module _ {T : Type 0} (try_send : T → String → T) where
  -- `ClientRegistry::operator_ids`
  abbrev pub operator_ids : Registry T → List Uuid
  operator_ids r = keys r.operator_ids

  -- The loop over every operator.
  unfoldable pub send_all : String → List Uuid → Registry T → Registry T
  send_all payload [] r = r
  send_all payload (id ∷ ids) r = send_all payload ids (send_to try_send r id payload)

  -- The loop over every operator but the sender.
  unfoldable pub send_others : String → Uuid → List Uuid → Registry T → Registry T
  send_others payload sender [] r = r
  send_others payload sender (id ∷ ids) r =
      send_others payload sender ids
        (if not (sender == id) then send_to try_send r id payload else r)

  -- The routing of one event of a chat with that client.
  unfoldable pub route : IncomingEvent → String → Uuid → Registry T → Registry T
  unfolding send_all send_others
  route event payload client_id r =
      if is_read event
      then if sender_id event == client_id
        then send_to try_send r client_id payload
        else send_all payload (operator_ids r) r
      else let after_client =
          if not (sender_id event == client_id) then send_to try_send r client_id payload else r in
        send_others payload (sender_id event) (operator_ids after_client) after_client

  module _ (env : Env) (parse : String → Option IncomingEvent) where
    -- One turn of the loop of `spawn_message_listener`; a turn that `continue`s leaves the registry.
    unfoldable pub on_message : String → Registry T → Io (Registry T)
    on_message payload r = elim (parse payload) [
      | none ↦ pure r
      | some event ↦ elim (chat_id event) [
        | none ↦ pure r
        | some chat ↦ do
          info ← get_chat_info env chat
          elim (found env info) [
            | none ↦ pure r
            | some i ↦ pure (route event payload i.client_id r)
          ]
      ]
    ]
