-- ===== src/WidgetWs/Released.antt =====
-- The registry of registry.rs while a widget's session runs among others, and when its guard is
-- dropped: `handle_widget_socket` of widget_ws.rs and `ConnectionGuard` of handler/mod.rs.
use chatbridge.Prelude.{
  ℕ, String, ◌≡◌, ◌+◌, ◌<◌, ◌^◌, Bool, true, false, Option, none, arith, Uuid, ◌==◌, ◌&&◌, List,
  if◌then◌else◌,
}
use chatbridge.Prelude.Map.{get, uuid_same}
use chatbridge.Prelude.Results.{Result}
use chatbridge.Prelude.Json.{Json}
use chatbridge.Model.{WsInbound}
use chatbridge.World.{Env}
use chatbridge.Registry.{Registry, entry, register, deregister, send_to, connection_count}
use chatbridge.Registry.Invariant.{IsValid, register-IsValid, deregister-IsValid, send_to-IsValid}
use chatbridge.Registry.Counting.{
  is_live, connection_count-deregister, get-register, get-deregister, get-send_to,
}
use chatbridge.WidgetWs.{SendOutcome, Turn, Conn, handle_widget_socket}

module _ {T : Type 0} (try_send : T → String → T) where
  -- What the registry becomes while the session of one connection runs. Another session registers,
  -- with a counter that does not wrap, ends a connection of its own, or hands on a payload.
  pub data Reach (own : Uuid) (conn_id : ℕ) (r : Registry T) : Registry T → Type 0 where
    start : Reach own conn_id r r
    joined :
        {s : Registry T} (tx : T) (id : Uuid) (is_operator : Bool)
        → s.next_id + 1 < 2 ^ 64
        → Reach own conn_id r s
        → Reach own conn_id r (register tx s id is_operator).0
    left :
        {s : Registry T} (id : Uuid) (k : ℕ)
        → (id == own && k == conn_id) ≡ false
        → Reach own conn_id r s
        → Reach own conn_id r (deregister s id k)
    notified :
        {s : Registry T} (id : Uuid) (payload : String)
        → Reach own conn_id r s
        → Reach own conn_id r (send_to try_send s id payload)

  -- The registry stays valid, and the session's connection live.
  Reach-IsValid :
      {own : Uuid} {conn_id : ℕ} {r s : Registry T} → IsValid r → Reach own conn_id r s → IsValid s
  Reach-IsValid v start = v
  Reach-IsValid v (joined {s} tx id is_operator room before) =
      register-IsValid tx s id is_operator room (Reach-IsValid v before)
  Reach-IsValid v (left {s} id k other before) = deregister-IsValid s id k (Reach-IsValid v before)
  Reach-IsValid v (notified {s} id payload before) =
      send_to-IsValid try_send s id payload (Reach-IsValid v before)

  Reach-live :
      {own : Uuid} {conn_id : ℕ} {r s : Registry T}
      → is_live r own conn_id ≡ true
      → Reach own conn_id r s
      → is_live s own conn_id ≡ true
  Reach-live h start = h
  Reach-live {own} {conn_id} h (joined {s} tx id is_operator room before) =
      ground (arith, Reach-live h before, get-register tx s id is_operator own conn_id)
  Reach-live {own} {conn_id} h (left {s} id k other before) =
      ground (arith, Reach-live h before, get-deregister s id k own conn_id)
  Reach-live {own} {conn_id} h (notified {s} id payload before) =
      ground (arith, Reach-live h before, get-send_to try_send s id payload own conn_id)

  module _ (env : Env) (print_uuid : Uuid → String) (decode : String → Result String WsInbound)
      (to_json : WsInbound → Json) (sends : ℕ → SendOutcome) (channel_id client_id : Uuid) (tx : T)
      (elsewhere : Registry T → Registry T) where
    -- Whatever the socket, Postgres and Redis do, a widget's session that ends has taken exactly its
    -- own connection off the registry, which stays valid: the registry was valid, the counter does
    -- not wrap, and other sessions register, end connections of their own and send.
    pub handle_widget_socket-releases :
        (new_token : Option String) (turns : List Turn) (r : Registry T) (conn : Conn)
        → IsValid r
        → r.next_id + 1 < 2 ^ 64
        → Reach client_id r.next_id
            (register tx r client_id false).0
            (elsewhere (register tx r client_id false).0)
        → let before = elsewhere (register tx r client_id false).0 in
          let after =
            (handle_widget_socket env print_uuid decode to_json sends channel_id client_id tx
              elsewhere new_token turns r conn).0 in
          IsValid after
          × (connection_count after + 1 ≡ connection_count before)
          × ((id : Uuid) (k : ℕ)
              → get k (entry id after)
                ≡ (if client_id == id && r.next_id == k then none else get k (entry id before)))
    unfolding handle_widget_socket register
    handle_widget_socket-releases new_token turns r conn v room reach =
        let registered = (register tx r client_id false).0 in
        let during = elsewhere registered in
        let valid = Reach-IsValid (register-IsValid tx r client_id false room v) reach in
        let mine : is_live registered client_id r.next_id ≡ true =
          ground (arith, get-register tx r client_id false client_id r.next_id) in
        let live = Reach-live mine reach in
        (
          deregister-IsValid during client_id r.next_id valid,
          ground (arith, live, connection_count-deregister during client_id r.next_id valid),
          get-deregister during client_id r.next_id,
        )
