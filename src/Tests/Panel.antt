-- ===== src/Tests/Panel.antt =====
-- Runs of the operator's socket.
use chatbridge.Prelude.{
  ◌≡◌, refl, String, none, some, [], ◌∷◌, Uuid, Option, nil_uuid, unwrap_or, arith, eq_iff,
}
use chatbridge.Prelude.Json.{Json, null}
use chatbridge.Prelude.Results.{Result, ok, err}
use chatbridge.Model.{
  OperatorInbound, event_of_action, WsActionKind, ack, delivered, failed, delivered_event,
  delivery_failed,
}
use chatbridge.Db.Chats.{ChatInfo, find_chat_info}
use chatbridge.Db.Messages.{row, anchor, insert_message, adopt_external_message_id, set_external_id}
use chatbridge.Db.Forgotten.{adopt_external_message_id-forgets}
use chatbridge.ExternalId.{operator_id}
use chatbridge.Operator.Inbound.{
  Served, telegram_delivery, send_or_edit, process_operator_message, in_chat, spawn_deliveries,
  operator_message, deliveries, delivery, with_text,
}
use chatbridge.Pipeline.Lookup.{get_chat_info, read_through, fetch, resolve_sender, get_operator}
use chatbridge.Pipeline.Persist.{
  persist_and_publish, persist_message, place, after_insert, announce_message,
}
use chatbridge.World.{read_db, write_db, publish_event}
use chatbridge.Db.Channels.{find_channel_provider}
use chatbridge.Db.Clients.{find_operator_by_id}
use chatbridge.Operator.Outbound.{settle}
use chatbridge.Operator.Acks.{IsAnswered, process_operator_message-IsAnswered, send_or_edit-Known}
use chatbridge.Operator.Ticks.{advance, settle-ok, settle-err}
use chatbridge.Tests.Data.{tables, tables-IsIndexed, reply}
use chatbridge.Tests.Flows.{alone, start}

abbrev again : OperatorInbound
again = record { action = WsActionKind.send; chat_id = 3; mid = "a"; text = some "hello" }

abbrev decode : String → Result String OperatorInbound
decode s = ok again

abbrev parse_uuid : String → Option Uuid
parse_uuid s = none

abbrev to_json : OperatorInbound → Json
to_json inbound = null

abbrev info : ChatInfo
info = record { client_id = 2; channel_id = 1 }

abbrev decode_new : String → Result String OperatorInbound
decode_new s = ok (record again { mid = "b" })

abbrev spawned_now : Served
spawned_now = record {
  reply = some (ack nil_uuid (some 101));
  tasks = telegram_delivery 1 2 9 "hello" 101 ∷ [];
}

spawned_example : IsAnswered spawned_now
unfolding process_operator_message in_chat send_or_edit spawn_deliveries operator_message deliveries
    delivery with_text get_chat_info read_through fetch read_db write_db find_chat_info
    find_channel_provider persist_and_publish persist_message place insert_message anchor
    operator_id event_of_action after_insert announce_message resolve_sender get_operator
    find_operator_by_id publish_event chatbridge.Prelude.Map.get
spawned_example =
    process_operator_message-IsAnswered alone decode_new parse_uuid to_json "{}" 9 start

resent_example :
    (send_or_edit alone decode parse_uuid to_json again info 9 start).0
    ≡ record { reply = some (ack (unwrap_or (parse_uuid again.mid) nil_uuid) none); tasks = [] }
unfolding anchor operator_id event_of_action
resent_example =
    send_or_edit-Known alone decode parse_uuid to_json again info 9 start (λ n db known. known) refl
      refl

settled_example :
    (row 11 (settle alone 9 11 (ok "telegram:42:2") start).1.db
      ≡ some (set_external_id "telegram:42:2" (advance delivered reply)))
    × ((settle alone 9 11 (ok "telegram:42:2") start).0 ≡ (9, delivered_event 11) ∷ [])
unfolding row
settled_example =
    settle-ok alone (λ n. refl) (λ n db. refl) 9 11 reply start tables-IsIndexed refl
      "telegram:42:2"

refused_example :
    (row 11 (settle alone 9 11 (err "window closed") start).1.db ≡ some (advance failed reply))
    × ((settle alone 9 11 (err "window closed") start).0
        ≡ (9, delivery_failed 11 "window closed") ∷ [])
unfolding row
refused_example =
    settle-err alone (λ n. refl) (λ n db. refl) 9 11 reply start tables-IsIndexed refl
      "window closed"

forgotten_example :
    anchor 1 "operator:a" (adopt_external_message_id 11 "telegram:42:2" tables).0 ≡ none
unfolding row
forgotten_example =
    adopt_external_message_id-forgets 11 "telegram:42:2" tables reply tables-IsIndexed refl
      (λ h. ground (arith, eq_iff "operator:a" "telegram:42:2"))
