-- ===== src/Tests/Sessions.antt =====
-- Runs of a widget's connection.
use chatbridge.Prelude.{
  ◌+◌, ◌==◌, ◌&&◌, if◌then◌else◌, none, arith, false, ◌≡◌, refl, ℕ, String, true, some, List, [],
  ◌∷◌, Uuid,
}
use chatbridge.Prelude.Json.{Json, null}
use chatbridge.Prelude.Results.{Result, ok}
use chatbridge.Model.{WsInbound, WsActionKind}
use chatbridge.WidgetWs.{
  Turn, payload, received, idle, frame, text, pong, other, SendOutcome, sent, Conn, loop,
}
use chatbridge.WidgetWs.Served.{loop-Serves, forwards}
use chatbridge.Prelude.Map.{get, uuid_same}
use chatbridge.WidgetWs.{handle_widget_socket}
use chatbridge.WidgetWs.Released.{
  handle_widget_socket-releases, start as at_first, joined, notified,
}
use chatbridge.Registry.{Registry, new, register, send_to, entry, connection_count}
use chatbridge.Registry.Invariant.{IsValid, new-IsValid}
use chatbridge.Tests.Flows.{alone, start}

abbrev hello : WsInbound
hello = record { action = WsActionKind.send; mid = 70; text = some "hello"; attachments = [] }

abbrev decode : String → Result String WsInbound
decode body = ok hello

abbrev print_uuid : Uuid → String
print_uuid id = "1"

abbrev to_json : WsInbound → Json
to_json inbound = null

abbrev sends : ℕ → SendOutcome
sends n = sent

abbrev turns : List Turn
turns =
    payload "first"
    ∷ received (frame (text "{}"))
    ∷ idle (frame other ∷ frame (text "{}") ∷ frame pong ∷ [])
    ∷ payload "second"
    ∷ []

abbrev open_conn : Conn
open_conn = record { world = start; sent = [] }

loop_example :
    let after = loop alone print_uuid decode to_json sends 1 2 turns open_conn in
    (after.0 ≡ true) × (forwards after.1.sent ≡ "first" ∷ "second" ∷ [])
loop_example =
    loop-Serves alone print_uuid decode to_json sends (λ n. refl) 1 2 turns open_conn
      (tt, (tt, (tt, (tt, tt))))

-- An operator connects and answers the customer while the widget is open.
abbrev deliver : List String → String → List String
deliver inbox line = line ∷ inbox

abbrev operator_answers : Registry (List String) → Registry (List String)
operator_answers r = send_to deliver (register [] r 9 true).0 2 "hi"

abbrev greeted : Registry (List String)
greeted = operator_answers (register [] new 2 false).0

released_example :
    let after =
      (handle_widget_socket alone print_uuid decode to_json sends 1 2 [] operator_answers
        (some "token")
        turns
        new
        open_conn).0 in
    IsValid after
    × (connection_count after + 1 ≡ connection_count greeted)
    × ((id : Uuid) (k : ℕ)
        → get k (entry id after) ≡ (if 2 == id && 1 == k then none else get k (entry id greeted)))
unfolding register
released_example =
    handle_widget_socket-releases deliver alone print_uuid decode to_json sends 1 2 []
      operator_answers (some "token") turns new open_conn new-IsValid (omega arith)
      (notified 2 "hi" (joined [] 9 true (omega arith) at_first))
