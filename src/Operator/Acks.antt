-- ===== src/Operator/Acks.antt =====
-- What `process_operator_message` of handler/operator_ws.rs acknowledges and what it delivers.
use chatbridge.Prelude.{
  ◌≡◌, refl, ℕ, String, Option, none, some, List, [], ◌∷◌, arith, Uuid, ◌⊎◌, inl, inr, unwrap_or,
  nil_uuid, All, str_eq, Bool-cases, Option-cases,
}
use chatbridge.Prelude.Json.{Json}
use chatbridge.Prelude.Results.{Result, Result-cases, ok, err}
use chatbridge.Model.{
  EventKind, message, edit, read, reaction, unknown, WsOutbound, ack, OperatorInbound,
  event_of_action,
}
use chatbridge.Db.{Db, SqlError}
use chatbridge.Db.Chats.{ChatInfo}
use chatbridge.Db.Messages.{DbRead}
use chatbridge.Db.Channels.{find_channel_provider}
use chatbridge.World.{Env, World, Io, read_db}
use chatbridge.Pipeline.Lookup.{get_chat_info}
use chatbridge.Pipeline.Persist.{persist_and_publish}
use chatbridge.Pipeline.Duplicates.{Known, persist_and_publish-Known}
use chatbridge.ExternalId.{operator_id}
use chatbridge.Operator.Inbound.{
  Task, seen_marker, instagram_delivery, telegram_delivery, Served, with_text, seen_tasks, delivery,
  after_reads, read_receipt, deliveries, spawn_deliveries, operator_message, send_or_edit, in_chat,
  process_operator_message,
}

-- The row that a task delivers, if it delivers one.
abbrev pub delivers : Task → Option Uuid
delivers (seen_marker _ _ _) = none
delivers (instagram_delivery _ _ _ _ message_id) = some message_id
delivers (telegram_delivery _ _ _ _ message_id) = some message_id

-- The row that a reply acknowledges, if it does.
abbrev pub acked : Option WsOutbound → Option Uuid
acked (some (ack _ id)) = id
acked _ = none

-- Everything delivered is the row that is acknowledged.
abbrev pub IsAnswered : Served → Type 0
IsAnswered s = All (λ t. (delivers t ≡ none) ⊎ (delivers t ≡ acked s.reply)) s.tasks

module _ (env : Env) (decode : String → Result String OperatorInbound)
    (parse_uuid : String → Option Uuid) (to_json : OperatorInbound → Json) where
  Named : Uuid → List Task → Type 0
  Named id ts = All (λ t. (delivers t ≡ none) ⊎ (delivers t ≡ some id)) ts

  with_text-Named :
      (text : Option String) (f : String → List Task) (id : Uuid)
      → ((t : String) → Named id (f t))
      → Named id (with_text text f)
  unfolding with_text Named
  with_text-Named none f id h = tt
  with_text-Named (some t) f id h = elim (Bool-cases (str_eq t "")) [
    | inl e ↦ rw e tt
    | inr e ↦ rw e (h t)
  ]

  delivery-Named :
      (provider : Result SqlError (Option String)) (info : ChatInfo) (operator : Uuid)
      (text : Option String) (id : Uuid)
      → Named id (delivery provider info operator text id)
  unfolding delivery Named
  delivery-Named (err e) info operator text id = tt
  delivery-Named (ok none) info operator text id = tt
  delivery-Named (ok (some provider)) info operator text id =
      elim (Bool-cases (str_eq provider "instagram")) [
        | inl e ↦
            rw e (unfold Named in with_text-Named text _ id (unfold Named in λ t. (inr refl, tt)))
        | inr e ↦ elim (Bool-cases (str_eq provider "telegram")) [
          | inl e' ↦
              rw (e, e')
                (unfold Named in with_text-Named text _ id (unfold Named in λ t. (inr refl, tt)))
          | inr e' ↦ rw (e, e') tt
        ]
      ]

  spawn_deliveries-IsAnswered :
      (kind : EventKind) (persisted : Option Uuid) (inbound : OperatorInbound) (info : ChatInfo)
      (operator mid : Uuid) (w : World)
      → IsAnswered (record {
        reply = some (ack mid persisted);
        tasks =
            (spawn_deliveries env decode parse_uuid to_json kind persisted inbound info operator
              w).0;
      })
  unfolding spawn_deliveries deliveries
  spawn_deliveries-IsAnswered message none inbound info operator mid w = tt
  spawn_deliveries-IsAnswered message (some id) inbound info operator mid w =
      unfold Named in
      delivery-Named (read_db env (find_channel_provider info.channel_id) w).0 info operator
        inbound.text id
  spawn_deliveries-IsAnswered edit persisted inbound info operator mid w = tt
  spawn_deliveries-IsAnswered read persisted inbound info operator mid w = tt
  spawn_deliveries-IsAnswered reaction persisted inbound info operator mid w = tt
  spawn_deliveries-IsAnswered unknown persisted inbound info operator mid w = tt

  send_or_edit-IsAnswered :
      (inbound : OperatorInbound) (info : ChatInfo) (operator : Uuid) (w : World)
      → IsAnswered (send_or_edit env decode parse_uuid to_json inbound info operator w).0
  unfolding send_or_edit
  send_or_edit-IsAnswered inbound info operator w =
      let msg = operator_message env decode parse_uuid to_json inbound info operator in
      let stored = persist_and_publish env msg w in
      spawn_deliveries-IsAnswered (event_of_action inbound.action) stored.0 inbound info operator
        (unwrap_or (parse_uuid inbound.mid) nil_uuid) stored.1

  after_reads-IsAnswered :
      (reads : Result SqlError (List DbRead)) (info : ChatInfo) (operator : Uuid) (w : World)
      → IsAnswered (after_reads env decode parse_uuid to_json reads info operator w).0
  unfolding after_reads seen_tasks
  after_reads-IsAnswered (err e) info operator w = tt
  after_reads-IsAnswered (ok []) info operator w = tt
  after_reads-IsAnswered (ok (r ∷ rs)) info operator w = (inl refl, tt)

  read_receipt-IsAnswered :
      (inbound : OperatorInbound) (info : ChatInfo) (operator : Uuid) (w : World)
      → IsAnswered (read_receipt env decode parse_uuid to_json inbound info operator w).0
  unfolding read_receipt
  read_receipt-IsAnswered inbound info operator w = elim (Option-cases (parse_uuid inbound.mid)) [
    | inl e ↦ rw (e, read_receipt) tt
    | inr (id, e) ↦ rw (e, read_receipt) (after_reads-IsAnswered _ info operator _)
  ]

  in_chat-IsAnswered :
      (info : Result SqlError (Option ChatInfo)) (inbound : OperatorInbound) (operator : Uuid)
      (w : World)
      → IsAnswered (in_chat env decode parse_uuid to_json info inbound operator w).0
  unfolding in_chat
  in_chat-IsAnswered (err e) inbound operator w = tt
  in_chat-IsAnswered (ok none) inbound operator w = tt
  in_chat-IsAnswered (ok (some info)) inbound operator w = by_kind (event_of_action inbound.action)
    where
      by_kind :
          (kind : EventKind)
          → IsAnswered
              ((elim kind as (λ _. Io Served) [
                | read ↦ read_receipt env decode parse_uuid to_json inbound info operator
                | message ↦ send_or_edit env decode parse_uuid to_json inbound info operator
                | edit ↦ send_or_edit env decode parse_uuid to_json inbound info operator
                | reaction ↦ send_or_edit env decode parse_uuid to_json inbound info operator
                | unknown ↦ send_or_edit env decode parse_uuid to_json inbound info operator
              ])
                w).0
      by_kind read = read_receipt-IsAnswered inbound info operator w
      by_kind message = send_or_edit-IsAnswered inbound info operator w
      by_kind edit = send_or_edit-IsAnswered inbound info operator w
      by_kind reaction = send_or_edit-IsAnswered inbound info operator w
      by_kind unknown = send_or_edit-IsAnswered inbound info operator w

  -- Whatever the panel sends and whatever fails, every delivery that is spawned is of the row that
  -- the acknowledgement names.
  pub process_operator_message-IsAnswered :
      (text : String) (operator : Uuid) (w : World)
      → IsAnswered (process_operator_message env decode parse_uuid to_json text operator w).0
  unfolding process_operator_message
  process_operator_message-IsAnswered text operator w = elim (Result-cases (decode text)) [
    | inl (inbound, e) ↦
        rw (e, process_operator_message)
          (in_chat-IsAnswered (get_chat_info env inbound.chat_id w).0 inbound operator
            (get_chat_info env inbound.chat_id w).1)
    | inr (bad, e) ↦ rw (e, process_operator_message) tt
  ]

  -- A new message whose local id its channel has already, as when the panel sends it again, is
  -- acknowledged without a row and delivered to nobody, while no session takes that id away: it
  -- neither removes the row nor gives it another id, as a delivery does that has succeeded.
  pub send_or_edit-Known :
      (inbound : OperatorInbound) (info : ChatInfo) (operator : Uuid) (w : World)
      → ((n : ℕ) (db : Db)
          → Known info.channel_id (operator_id inbound.mid) db
          → Known info.channel_id (operator_id inbound.mid) (env.others n db))
      → event_of_action inbound.action ≡ message
      → Known info.channel_id (operator_id inbound.mid) w.db
      → (send_or_edit env decode parse_uuid to_json inbound info operator w).0 ≡ record {
        reply = some (ack (unwrap_or (parse_uuid inbound.mid) nil_uuid) none);
        tasks = [];
      }
  unfolding send_or_edit operator_message spawn_deliveries deliveries
  send_or_edit-Known inbound info operator w rely kind known =
      let msg = operator_message env decode parse_uuid to_json inbound info operator in
      let (nothing, _) = persist_and_publish-Known env msg rely w kind known in
      ground (arith, nothing, kind)
