-- ===== src/Db/Receipts.antt =====
-- Read receipts: what `mark_messages_read`, `mark_messages_read_by_id` and `mark_chat_read` of db.rs
-- cover.
use chatbridge.Prelude.{
  ◌≡◌, ◌≢◌, refl, String, Bool, true, false, Option, none, some, List, [], ◌∷◌, map, arith, Uuid,
  ◌==◌, ◌≤◌, find, update, select, find-update, map_option, if◌then◌else◌, eq_iff, inl, inr,
  Bool-cases, ap, ◌∙◌, ◌⊎◌,
}
use chatbridge.Model.{MessageStatus, new, delivered, read, failed}
use chatbridge.Db.{Db, Message, same_id}
use chatbridge.Db.Messages.{
  row, mark_messages_read_by_id, mark_chat_read, active_chat, db_read, is_unread, is_covered,
  is_unread_in, set_status,
}

-- The row after a receipt, as the query's WHERE clause has it.
pub row-mark_messages_read_by_id :
    (message_id : Uuid) (reader : String) (db : Db) (id : Uuid)
    → row id (mark_messages_read_by_id message_id reader db).0
      ≡ map_option
          (λ m. if is_covered (row message_id db) reader m then set_status read m else m)
          (row id db)
unfolding mark_messages_read_by_id row
row-mark_messages_read_by_id message_id reader db id =
    find-update (λ (m : Message). m.id == id)
      (is_covered (find (λ (m : Message). m.id == message_id) db.messages) reader) (set_status read)
      db.messages (λ x. refl)

same_id_sound : (x y : Option Uuid) → same_id x y ≡ true → x ≡ y
same_id_sound none y h = cc
same_id_sound (some a) none h = cc
same_id_sound (some a) (some b) h = ground arith

shared_chat : (x y : Option Uuid) → same_id x y ≡ true → (c : Uuid) × (x ≡ some c) × (y ≡ some c)
shared_chat none y h = absurd (ground arith)
shared_chat (some a) none h = absurd (ground arith)
shared_chat (some a) (some b) h = (a, refl, ground arith)

-- An unread row of the anchor's chat, no later than the anchor, that the reader did not write.
abbrev pub IsRead : Option Message → String → Message → Type 0
IsRead none reader m = ⊥
IsRead (some a) reader m =
    ((chat : Uuid) × (m.chat_id ≡ some chat) × (a.chat_id ≡ some chat))
    × (m.created_at ≤ a.created_at)
    × ((m.status ≡ new) ⊎ (m.status ≡ delivered))
    × (m.sender_type ≢ reader)

unread_status : (s : MessageStatus) → is_unread s ≡ true → (s ≡ new) ⊎ (s ≡ delivered)
unread_status new h = inl refl
unread_status delivered h = inr refl
unread_status read h = absurd (ground arith)
unread_status failed h = absurd (ground arith)

covered-IsRead :
    (a : Option Message) (reader : String) (m : Message)
    → is_covered a reader m ≡ true
    → IsRead a reader m
covered-IsRead none reader m h = absurd (ground arith)
covered-IsRead (some a) reader m h = (
  shared_chat m.chat_id a.chat_id (ground arith),
  ground arith,
  unread_status m.status (ground arith),
  λ wrote. ground (arith, eq_iff m.sender_type reader, wrote, h),
)

IsRead-covered :
    (a : Option Message) (reader : String) (m : Message)
    → IsRead a reader m
    → is_covered a reader m ≡ true
IsRead-covered none reader m h = absurd h
IsRead-covered (some a) reader m ((chat, here, there), time, unread, foreign) =
    let fresh : is_unread m.status ≡ true = elim unread [ inl e ↦ rw e refl | inr e ↦ rw e refl ] in
    ground (arith, here, there, time, fresh, foreign, eq_iff m.sender_type reader)

-- Marking covers exactly the rows of the anchor's chat, up to the anchor, unread, that the reader
-- did not write: such a row is read afterwards, and any other, or any at all if there is no anchor, is
-- as it was.
pub mark_messages_read_by_id-IsRead :
    (message_id : Uuid) (reader : String) (db : Db) (id : Uuid) (m : Message)
    → row id db ≡ some m
    → let after = row id (mark_messages_read_by_id message_id reader db).0 in
      (IsRead (row message_id db) reader m × (after ≡ some (record m { status = read })))
      ⊎ ((¬ IsRead (row message_id db) reader m) × (after ≡ some m))
mark_messages_read_by_id-IsRead message_id reader db id m there =
    let law = row-mark_messages_read_by_id message_id reader db id in
    elim (Bool-cases (is_covered (row message_id db) reader m)) [
      | inl e ↦
          inl (covered-IsRead (row message_id db) reader m e, law ∙ rw there (ap some (rw e refl)))
      | inr e ↦ inr (
        (λ h. ground (arith, e, IsRead-covered (row message_id db) reader m h)),
        law ∙ rw there (ap some (rw e refl)),
      )
    ]

-- No row that a receipt covers is left after it.
select_none_after :
    (covered : Message → Bool) (later : Message → Bool) (rows : List Message)
    → ((m : Message) → covered m ≡ true → later (set_status read m) ≡ false)
    → ((m : Message) → covered m ≡ false → later m ≡ false)
    → select later (update covered (set_status read) rows) ≡ []
select_none_after covered later [] hit miss = refl
select_none_after covered later (m ∷ ms) hit miss = elim (Bool-cases (covered m)) [
  | inl e ↦ rw (e, hit m e) (select_none_after covered later ms hit miss)
  | inr e ↦ rw (e, miss m e) (select_none_after covered later ms hit miss)
]

module _ (newer older : Uuid) (reader : String) (db : Db) (a b : Message) where
  covers_older :
      (m : Message)
      → b.chat_id ≡ a.chat_id
      → b.created_at ≤ a.created_at
      → is_covered (some a) reader m ≡ false
      → is_covered (some b) reader m ≡ false
  covers_older m chat time h = rw chat (ground arith)

  older_after :
      (b' : Message)
      → b'.chat_id ≡ b.chat_id
      → b'.created_at ≡ b.created_at
      → row newer db ≡ some a
      → b.chat_id ≡ a.chat_id
      → b.created_at ≤ a.created_at
      → row older (mark_messages_read_by_id newer reader db).0 ≡ some b'
      → (mark_messages_read_by_id older reader (mark_messages_read_by_id newer reader db).0).1 ≡ []
  unfolding mark_messages_read_by_id
  older_after b' same_chat same_time ha chat time e =
      ap
        (λ o. map db_read (
          select (is_covered o reader)
            (update (is_covered (row newer db) reader) (set_status read) db.messages)))
        e
      ∙ ap (map db_read) (
          select_none_after (is_covered (row newer db) reader) (is_covered (some b') reader)
            db.messages (λ m h. ground arith)
            (λ m h. rw (same_chat, same_time) (covers_older m chat time (rw ha at h))))

  -- After a receipt, another one by the same reader on the same anchor, or on an older message of
  -- its chat, finds nothing unread and returns no row.
  pub mark_messages_read_by_id-older :
      row newer db ≡ some a
      → row older db ≡ some b
      → b.chat_id ≡ a.chat_id
      → b.created_at ≤ a.created_at
      → (mark_messages_read_by_id older reader (mark_messages_read_by_id newer reader db).0).1 ≡ []
  mark_messages_read_by_id-older ha hb chat time =
      let law = row-mark_messages_read_by_id newer reader db older in
      elim (Bool-cases (is_covered (row newer db) reader b)) [
        | inl e ↦
            older_after (set_status read b) refl refl ha chat time
              (law ∙ (rw hb (ap some (rw e refl))))
        | inr e ↦ older_after b refl refl ha chat time (law ∙ (rw hb (ap some (rw e refl))))
      ]

-- `mark_chat_read` leaves nothing unread by that reader in the customer's active chat: a second
-- one returns no row.
pub mark_chat_read-again :
    (channel_id client_id : Uuid) (reader : String) (db : Db)
    → let once = (mark_chat_read channel_id client_id reader db).0 in
      (mark_chat_read channel_id client_id reader once).1 ≡ []
unfolding mark_chat_read
mark_chat_read-again channel_id client_id reader db =
    let unread = is_unread_in (active_chat client_id channel_id db) channel_id reader in
    ap (map db_read) (select_none_after unread unread db.messages (λ m h. ground arith) (λ m h. h))

not_covered :
    (a m : Message) (reader : String)
    → (m.sender_type ≡ reader) ⊎ (m.chat_id ≢ a.chat_id)
    → is_covered (some a) reader m ≡ false
not_covered a m reader other =
    ground (arith, eq_iff m.sender_type reader, same_id_sound m.chat_id a.chat_id)

-- A receipt never touches what its reader wrote, nor a message of another chat.
pub mark_read_foreign :
    (message_id : Uuid) (reader : String) (db : Db) (id : Uuid) (a m : Message)
    → row message_id db ≡ some a
    → row id db ≡ some m
    → (m.sender_type ≡ reader) ⊎ (m.chat_id ≢ a.chat_id)
    → row id (mark_messages_read_by_id message_id reader db).0 ≡ some m
mark_read_foreign message_id reader db id a m ha hm other =
    row-mark_messages_read_by_id message_id reader db id
    ∙ rw (hm, ha) (ap some (rw (not_covered a m reader other) refl))
