-- ===== src/Tests/Storage.antt =====
-- Runs of the statements of db.rs.
use chatbridge.Prelude.{◌⊎◌, ◌≡◌, refl, none, some, [], ◌∷◌, if◌then◌else◌, and_then, ◌==◌}
use chatbridge.Model.{read}
use chatbridge.Db.{Db, Channel}
use chatbridge.Db.Messages.{
  row, anchor, names, mark_read, mark_messages_read_by_id, mark_chat_read,
  adopt_external_message_id, set_external_id, set_status, is_covered,
}
use chatbridge.Db.Adoption.{row-adopt_external_message_id}
use chatbridge.Db.Ladder.{Follows, run, execute, deliver, read_to, adopt, run-Follows}
use chatbridge.Db.Receipts.{IsRead, mark_messages_read_by_id-IsRead}
use chatbridge.Tests.Data.{tables, tables-IsIndexed, reply, question}

run-Follows_example : Follows reply (set_status read (set_external_id "telegram:42:2" reply))
unfolding row run execute adopt_external_message_id mark_read
    chatbridge.Db.Messages.mark_message_delivered chatbridge.Db.Messages.mark_messages_read
run-Follows_example =
    run-Follows (deliver 11 ∷ adopt 11 "telegram:42:2" ∷ read_to 1 "telegram:42:3" "client" ∷ [])
      tables 11 reply (set_status read (set_external_id "telegram:42:2" reply)) tables-IsIndexed
      (refl, (refl, (refl, tt))) refl refl

row-adopt_example : row 12 (adopt_external_message_id 11 "telegram:42:2" tables).0 ≡ (
    if 12 == 11
    then some (set_external_id "telegram:42:2" reply)
    else and_then (row 12 tables) (λ r. if names 1 "telegram:42:2" r then none else some r))
unfolding row
row-adopt_example =
    row-adopt_external_message_id 11 "telegram:42:2" tables reply 12 tables-IsIndexed refl

mark_messages_read_by_id_example :
    let after = row 10 (mark_messages_read_by_id 13 "operator" tables).0 in
    (IsRead (row 13 tables) "operator" question
      × (after ≡ some (record question { status = read })))
    ⊎ ((¬ IsRead (row 13 tables) "operator" question) × (after ≡ some question))
unfolding row
mark_messages_read_by_id_example =
    mark_messages_read_by_id-IsRead 13 "operator" tables 10 question refl
