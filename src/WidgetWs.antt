-- ===== src/WidgetWs.antt =====
-- handler/widget_ws.rs: the WebSocket of a widget. Reading and writing JSON is serde's and printing a
-- UUID the `uuid` crate's.
--
-- What `select!` yields is a list of turns, each of which has what the socket gave while the handler
-- waited for a pong. How a send ends is a function of how many the session has made.
pub mod Served
pub mod Released
use Prim.Native.String.{◌++◌ as append}
use chatbridge.Prelude.{
  ℕ, suc, String, Bool, true, false, Option, none, some, List, [], ◌∷◌, ◌++◌, length, Uuid,
  if◌then◌else◌,
}
use chatbridge.Prelude.Json.{Json}
use chatbridge.Prelude.Results.{Result, ok, err}
use chatbridge.Model.{
  EventKind, message, edit, read, reaction, unknown, customer, NewMessage, widget, WsInbound,
  WsOutbound, auth, ack, chat_info, error, event_of_action,
}
use chatbridge.Registry.{Registry, register, deregister}
use chatbridge.Db.{SqlError, Channel}
use chatbridge.Db.Chats.{LastChat, find_last_chat}
use chatbridge.Db.Messages.{DbRead, mark_messages_read_by_id}
use chatbridge.World.{Env, World, Io, read_db, write_db, total}
use chatbridge.Pipeline.Lookup.{get_channel_by_external_key}
use chatbridge.Pipeline.Persist.{persist_and_publish, publish_reads}
use chatbridge.ExternalId.{widget_id}
use chatbridge.Session.{Resolved}

-- `axum::extract::ws::Message`, by what the handler tells apart.
pub data Frame : Type 0 where
  text : String → Frame
  close pong other : Frame

-- What `socket.recv()` yields.
pub data Received : Type 0 where
  frame : Frame → Received
  recv_error ended : Received

-- What `select!` yields: a payload of the registry or its end, the socket's, five minutes without
-- either and what came until the deadline of the ping, or the shutdown.
pub data Turn : Type 0 where
  payload : String → Turn
  unregistered : Turn
  received : Received → Turn
  idle : List Received → Turn
  shutdown : Turn

-- What the handler sends.
pub data Sent : Type 0 where
  outbound : WsOutbound → Sent
  forwarded : String → Sent
  ping bye : Sent

-- `timeout(SEND_TIMEOUT, socket.send(…))`
pub data SendOutcome : Type 0 where
  sent failed timed_out : SendOutcome

abbrev pub is_sent : SendOutcome → Bool
is_sent sent = true
is_sent _ = false

abbrev pub is_timed_out : SendOutcome → Bool
is_timed_out timed_out = true
is_timed_out _ = false

pub record Conn : Type 0 where
  pub world : World
  pub sent : List Sent

abbrev pub Ws : Type 0 → Type 0
Ws A = Conn → A × Conn

abbrev pub pure : {A : Type 0} → A → Ws A
pure a c = (a, c)

infixl 5 ◌>>=◌ ◌>>◌
abbrev pub ◌>>=◌ : {A B : Type 0} → Ws A → (A → Ws B) → Ws B
◌>>=◌ m f c = let (a, c') = m c in f a c'

abbrev pub ◌>>◌ : {B : Type 0} → Ws (Unit {0}) → Ws B → Ws B
m >> k = m >>= λ _. k

abbrev pub lift : {A : Type 0} → Io A → Ws A
lift m c = let (a, w) = m c.world in (a, record c { world = w })

-- The end of a loop's turn.
unfoldable pub go_on : Bool → Ws Bool → Ws Bool
go_on true rest = rest
go_on false rest = pure false

module _ (env : Env) (print_uuid : Uuid → String) (decode : String → Result String WsInbound)
    (to_json : WsInbound → Json) where
  module _ (channel_id client_id : Uuid) where
    -- A success of a read receipt is not answered.
    unfoldable pub after_reads : Result SqlError (List DbRead) → Io (Option WsOutbound)
    after_reads (err _) w = (some (error "read receipt failed"), w)
    after_reads (ok reads) w = (none, (publish_reads env reads w).1)

    unfoldable pub read_receipt : WsInbound → Io (Option WsOutbound)
    unfolding after_reads
    read_receipt inbound w =
        let (marked, w') =
          write_db env (λ _ _. total (mark_messages_read_by_id inbound.mid "client")) w in
        after_reads marked w'

    unfoldable pub widget_message : WsInbound → NewMessage
    widget_message inbound = record {
      external_message_id = widget_id print_uuid client_id inbound.mid;
      channel_id = channel_id;
      conversation = some (customer client_id);
      sender_id = some client_id;
      sender_type = "client";
      provider = widget;
      event = event_of_action inbound.action;
      text = inbound.text;
      raw = to_json inbound;
    }

    unfoldable pub store : WsInbound → Io (Option WsOutbound)
    unfolding widget_message
    store inbound w =
        let (persisted, w') = persist_and_publish env (widget_message inbound) w in
        (some (ack inbound.mid persisted), w')

    unfoldable pub by_kind : EventKind → WsInbound → Io (Option WsOutbound)
    unfolding read_receipt store
    by_kind read inbound = read_receipt inbound
    by_kind message inbound = store inbound
    by_kind edit inbound = store inbound
    by_kind reaction inbound = store inbound
    by_kind unknown inbound = store inbound

    -- What a text frame is answered with, if with anything.
    unfoldable pub reply : String → Io (Option WsOutbound)
    unfolding by_kind
    reply body w = elim (decode body) [
      | err e ↦ (some (error (append "invalid message: " e)), w)
      | ok inbound ↦ by_kind (event_of_action inbound.action) inbound w
    ]

  module _ (sends : ℕ → SendOutcome) where
    -- A send that failed was not seen by the client, but is counted.
    unfoldable pub send : Sent → Ws SendOutcome
    send s c = (sends (length c.sent), record c { sent = c.sent ++ s ∷ [] })

    -- `send_outbound`
    unfoldable pub send_outbound : WsOutbound → Ws Bool
    unfolding send
    send_outbound msg = do outcome ← send (outbound msg); pure (is_sent outcome)

    unfoldable pub answer : Option WsOutbound → Ws Bool
    unfolding send_outbound
    answer none = pure true
    answer (some msg) = send_outbound msg

    module _ (channel_id client_id : Uuid) where
      -- `process_text_message`: whether the connection goes on.
      unfoldable pub process_text_message : String → Ws Bool
      unfolding answer reply
      process_text_message body = do r ← lift (reply channel_id client_id body); answer r

      -- `await_pong`, over what the socket gives before the deadline.
      unfoldable pub await_pong : List Received → Ws Bool
      unfolding process_text_message go_on
      await_pong [] = pure false
      await_pong (frame pong ∷ _) = pure true
      await_pong (frame (text body) ∷ rest) = do
        alive ← process_text_message body
        go_on alive (await_pong rest)
      await_pong (frame close ∷ _) = pure false
      await_pong (frame other ∷ rest) = await_pong rest
      await_pong (recv_error ∷ _) = pure false
      await_pong (ended ∷ _) = pure false

      unfoldable pub on_received : Received → Ws Bool
      unfolding process_text_message
      on_received (frame (text body)) = process_text_message body
      on_received (frame close) = pure false
      on_received (frame pong) = pure true
      on_received (frame other) = pure true
      on_received recv_error = pure false
      on_received ended = pure false

      -- One turn of the loop. A ping that fails at once is not the end, one that hangs is.
      unfoldable pub turn : Turn → Ws Bool
      unfolding send on_received await_pong
      turn (payload p) = do outcome ← send (forwarded p); pure (is_sent outcome)
      turn unregistered = pure false
      turn (received r) = on_received r
      turn (idle rest) = do
        outcome ← send ping
        if is_timed_out outcome then pure false else await_pong rest
      turn shutdown = do _ ← send bye; pure false

      -- The loop, as far as the turns go: whether it would go on.
      unfoldable pub loop : List Turn → Ws Bool
      unfolding turn go_on
      loop [] = pure true
      loop (t ∷ ts) = do alive ← turn t; go_on alive (loop ts)

      unfoldable pub greet : Option String → Ws Bool
      unfolding send_outbound
      greet none = pure true
      greet (some token) = send_outbound (auth token none)

      unfoldable pub tell_chat : Result SqlError (Option LastChat) → Ws Bool
      unfolding send_outbound
      tell_chat (ok (some chat)) = send_outbound (chat_info chat.id chat.status)
      tell_chat (ok none) = pure true
      tell_chat (err _) = pure true

      -- The body of `handle_widget_socket` between the registration and the guard's drop.
      unfoldable pub serve : Option String → List Turn → Ws Bool
      unfolding greet tell_chat loop
      serve new_token turns = do
        greeted ← greet new_token
        go_on greeted (do
          chat ← lift (read_db env (find_last_chat client_id channel_id))
          told ← tell_chat chat
          go_on told (loop turns))

      module _ {T : Type 0} (tx : T) (elsewhere : Registry T → Registry T) where
        -- `handle_widget_socket`, with what other sessions do to the registry in the meantime. Every
        -- way out of the body drops the guard.
        unfoldable pub handle_widget_socket :
            Option String → List Turn → Registry T → Ws (Registry T)
        unfolding serve
        handle_widget_socket new_token turns registry = do
          let (registered, conn_id) = register tx registry client_id false
          _ ← serve new_token turns
          pure (deregister (elsewhere registered) client_id conn_id)

-- `widget_ws`: the status that refuses the upgrade, or the arguments of the session.
module _ (env : Env) (resolve : Io Resolved) where
  abbrev admit : Uuid → Resolved → Result ℕ (Uuid × Uuid × Option String)
  admit channel_id (err _) = err 500
  admit channel_id (ok (client_id, new_token)) = ok (channel_id, client_id, new_token)

  unfoldable pub in_channel :
      Result SqlError (Option Channel) → Io (Result ℕ (Uuid × Uuid × Option String))
  in_channel (err _) w = (err 500, w)
  in_channel (ok none) w = (err 404, w)
  in_channel (ok (some channel)) w = let (r, w') = resolve w in (admit channel.id r, w')

  unfoldable pub widget_ws : String → Io (Result ℕ (Uuid × Uuid × Option String))
  unfolding in_channel
  widget_ws id w = let (r, w') = get_channel_by_external_key env widget id w in in_channel r w'
