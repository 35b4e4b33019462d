-- ===== src/Db/Adoption.antt =====
-- `adopt_external_message_id` of db.rs: the provider's id for a row stored under a local one.
use chatbridge.Prelude.{
  ◌≡◌, refl, String, Bool, false, none, some, List, [], ◌∷◌, arith, Uuid, eq_iff, ◌==◌, ◌&&◌, not,
  any, update, delete, NoClash, NoClash-update, NoClash-delete, NoClash-update_one, AtMostOne-key,
  AtMostOne-delete, only_one, find_sound, find-delete, inl, inr, Option-cases, map_option,
  if◌then◌else◌, and_then, eq_refl, find-update, find-update_one, find-delete_one, ◌∙◌, ap,
  Bool-cases,
}
use chatbridge.Db.{Db, Message}
use chatbridge.Db.Messages.{row, names, anchor, set_external_id, adopt_external_message_id}
use chatbridge.Db.Indexes.{IsIndexed, same_row, same_external}

same_external_comm : (x y : Message) → same_external x y ≡ same_external y x
same_external_comm x y = ground (
  arith,
  eq_iff x.external_message_id y.external_message_id,
  eq_iff y.external_message_id x.external_message_id,
)

row_id : (id : Uuid) (db : Db) (m : Message) → row id db ≡ some m → m.id ≡ id
unfolding row
row_id id db m h = ground (arith, find_sound (λ (r : Message). r.id == id) db.messages {a = m})

module _ (message_id : Uuid) (external_id : String) (db : Db) where
  -- The echo's row: another row that holds the provider's id already.
  abbrev pub is_duplicate : Uuid → Message → Bool
  is_duplicate channel_id r = names channel_id external_id r && not (r.id == message_id)

  any_after_delete :
      (channel_id : Uuid) (t : Message) (xs : List Message)
      → t.channel_id ≡ channel_id
      → t.external_message_id ≡ external_id
      → any
          (λ y. not (y.id == message_id) && same_external t y)
          (delete (is_duplicate channel_id) xs)
        ≡ false
  any_after_delete channel_id t [] c e = refl
  any_after_delete channel_id t (x ∷ xs) c e = ground (arith, any_after_delete channel_id t xs c e)

  -- The rows after an adoption of an existing row.
  abbrev pub adopted_rows : Message → List Message
  adopted_rows m =
      update (λ r. r.id == message_id) (set_external_id external_id)
        (delete (is_duplicate m.channel_id) db.messages)

  adopted_external_ids :
      (m : Message)
      → IsIndexed db
      → row message_id db ≡ some m
      → NoClash same_external (adopted_rows m)
  unfolding row
  adopted_external_ids m v found =
      let kept =
        find-delete (λ (r : Message). r.id == message_id) (is_duplicate m.channel_id) db.messages
          (λ x e. ground arith) in
      let one =
        AtMostOne-delete (λ (r : Message). r.id == message_id) (is_duplicate m.channel_id)
          db.messages
          (AtMostOne-key (λ (r : Message). r.id) message_id db.messages v.message_ids) in
      NoClash-update_one same_external (λ r. r.id == message_id) (set_external_id external_id)
        (set_external_id external_id m) (delete (is_duplicate m.channel_id) db.messages)
        same_external_comm one
        (only_one (λ r. r.id == message_id) (set_external_id external_id)
          (delete (is_duplicate m.channel_id) db.messages) m one (rw kept found))
        (any_after_delete m.channel_id (set_external_id external_id m) db.messages refl refl)
        (NoClash-delete same_external (is_duplicate m.channel_id) db.messages v.external_ids)

  -- Adoption keeps every index, also when an echo took the provider's id first.
  pub adopt_external_message_id-IsIndexed :
      IsIndexed db → IsIndexed (adopt_external_message_id message_id external_id db).0
  unfolding adopt_external_message_id
  adopt_external_message_id-IsIndexed v = elim (Option-cases (row message_id db)) [
    | inl e ↦ rw (e, adopt_external_message_id) v
    | inr (m, e) ↦
        rw (e, adopt_external_message_id)
          (record {
            message_ids =
                NoClash-update same_row (λ r. r.id == message_id) (set_external_id external_id)
                  (delete (is_duplicate m.channel_id) db.messages) (λ x y. refl) (λ x y. refl)
                  (NoClash-delete same_row (is_duplicate m.channel_id) db.messages v.message_ids);
            external_ids = adopted_external_ids m v e;
            chat_ids = v.chat_ids;
            active_chats = v.active_chats;
            channel_ids = v.channel_ids;
            identities = v.identities;
          })
  ]

  -- After an adoption the row is found under the provider's id, with everything else that it had:
  -- its text, its author, its chat and its status.
  pub anchor-adopt_external_message_id :
      (m : Message)
      → IsIndexed db
      → row message_id db ≡ some m
      → anchor m.channel_id external_id (adopt_external_message_id message_id external_id db).0
        ≡ some (set_external_id external_id m)
  unfolding adopt_external_message_id anchor row
  anchor-adopt_external_message_id m v found =
      let kept =
        find-delete (λ (r : Message). r.id == message_id) (is_duplicate m.channel_id) db.messages
          (λ x e. ground arith) in
      let one =
        AtMostOne-delete (λ (r : Message). r.id == message_id) (is_duplicate m.channel_id)
          db.messages
          (AtMostOne-key (λ (r : Message). r.id) message_id db.messages v.message_ids) in
      rw (found, adopt_external_message_id)
        (find-update_one (names m.channel_id external_id) (λ r. r.id == message_id)
          (set_external_id external_id) m (delete (is_duplicate m.channel_id) db.messages)
          (rw kept found) (ground (arith, eq_refl external_id))
          (only_one (λ r. r.id == message_id) (set_external_id external_id)
            (delete (is_duplicate m.channel_id) db.messages) m one (rw kept found))
          (any_after_delete m.channel_id (set_external_id external_id m) db.messages refl refl))

  adopted_row :
      (m : Message) (id : Uuid)
      → row message_id db ≡ some m
      → map_option
          (λ (r : Message). if r.id == message_id then set_external_id external_id r else r)
          (and_then (row id db) (λ r. if is_duplicate m.channel_id r then none else some r))
        ≡ (if id == message_id
            then some (set_external_id external_id m)
            else and_then
                (row id db)
                (λ r. if names m.channel_id external_id r then none else some r))
  adopted_row m id found = elim (Bool-cases (id == message_id)) [
    | inl e ↦
        let same : id ≡ message_id = ground arith in
        rw (same, found) (ground (arith, row_id message_id db m found))
    | inr e ↦ elim (Option-cases (row id db)) [
      | inl missing ↦ rw (missing, e) refl
      | inr (r, there) ↦ rw (there, e) (ground (arith, row_id id db r there))
    ]
  ]

  -- What an adoption does to each row of the table: the adopting row takes the provider's id and
  -- keeps the rest, the echo of it in the same channel goes, and every other row stays as it is.
  pub row-adopt_external_message_id :
      (m : Message) (id : Uuid)
      → IsIndexed db
      → row message_id db ≡ some m
      → row id (adopt_external_message_id message_id external_id db).0 ≡ (
          if id == message_id
          then some (set_external_id external_id m)
          else and_then
              (row id db)
              (λ r. if names m.channel_id external_id r then none else some r))
  unfolding adopt_external_message_id row
  row-adopt_external_message_id m id v found =
      rw (found, adopt_external_message_id)
        (find-update (λ (r : Message). r.id == id) (λ r. r.id == message_id)
            (set_external_id external_id) (delete (is_duplicate m.channel_id) db.messages)
            (λ x. refl)
          ∙ (ap
                (map_option (λ (r : Message).
                  if r.id == message_id then set_external_id external_id r else r))
                (find-delete_one (λ (r : Message). r.id == id) (is_duplicate m.channel_id)
                  db.messages (AtMostOne-key (λ (r : Message). r.id) id db.messages v.message_ids))
              ∙ adopted_row m id found))
