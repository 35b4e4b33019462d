-- ===== src/Db/Forgotten.antt =====
-- What `adopt_external_message_id` of db.rs does to the local id that a row had before.
use chatbridge.Prelude.{
  ◌≡◌, ◌≢◌, refl, String, Bool, false, none, some, List, [], ◌∷◌, arith, Uuid, eq_iff, ◌==◌, find,
  any, update, delete, NoClash, Bool-cases, inl, inr,
}
use chatbridge.Db.{Db, Message}
use chatbridge.Db.Messages.{row, names, anchor, set_external_id, adopt_external_message_id}
use chatbridge.Db.Indexes.{IsIndexed, same_external}
use chatbridge.Db.Adoption.{is_duplicate}

module _ (message_id : Uuid) (external_id : String) (db : Db) (m : Message) where
  adopted : List Message → List Message
  adopted xs =
      update (λ r. r.id == message_id) (set_external_id external_id)
        (delete (is_duplicate message_id external_id db m.channel_id) xs)

  none_named :
      (xs : List Message)
      → m.external_message_id ≢ external_id
      → any (names m.channel_id m.external_message_id) xs ≡ false
      → find (names m.channel_id m.external_message_id) (adopted xs) ≡ none
  unfolding adopted
  none_named [] other h = refl
  none_named (x ∷ xs) other h =
      ground (arith, none_named xs other, eq_iff external_id m.external_message_id)

  unlike :
      (q : Message → Bool) (xs : List Message)
      → any q xs ≡ false
      → find (λ r. r.id == message_id) xs ≡ some m
      → q m ≡ false
  unlike q [] h found = ground arith
  unlike q (x ∷ xs) h found = ground (arith, unlike q xs)

  forgotten :
      (xs : List Message)
      → m.external_message_id ≢ external_id
      → NoClash same_external xs
      → find (λ r. r.id == message_id) xs ≡ some m
      → find (names m.channel_id m.external_message_id) (adopted xs) ≡ none
  unfolding adopted
  forgotten [] other clash found = refl
  forgotten (x ∷ xs) other (here, later) found = elim (Bool-cases (x.id == message_id)) [
    | inl e ↦
        let same : x ≡ m = ground arith in
        ground (arith, none_named xs other, eq_iff external_id m.external_message_id)
    | inr e ↦ ground (
      arith,
      forgotten xs other later,
      unlike (same_external x) xs here,
      eq_iff x.external_message_id m.external_message_id,
      eq_iff m.external_message_id x.external_message_id,
    )
  ]

  -- Once a row has taken another id from the provider, the id that it was stored under names no row
  -- of its channel. The unique indexes hold before.
  pub adopt_external_message_id-forgets :
      IsIndexed db
      → row message_id db ≡ some m
      → m.external_message_id ≢ external_id
      → anchor m.channel_id m.external_message_id
          (adopt_external_message_id message_id external_id db).0
        ≡ none
  unfolding adopt_external_message_id anchor row
  adopt_external_message_id-forgets v found other =
      rw (found, adopt_external_message_id)
        (unfold adopted in forgotten db.messages other v.external_ids found)
