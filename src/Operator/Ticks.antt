-- ===== src/Operator/Ticks.antt =====
-- What a delivery of handler/operator_ws.rs leaves of the row, with Postgres at work and no other
-- session between its statements.
use chatbridge.Prelude.{
  ◌≡◌, ◌∙◌, refl, ℕ, suc, String, Bool, false, some, List, [], ◌∷◌, arith, Uuid, ◌==◌,
  if◌then◌else◌, ◌&&◌, AtMostOne, AtMostOne-key, any, update, find, find-update, find_sound,
}
use chatbridge.Prelude.Results.{ok, err}
use chatbridge.Model.{MessageStatus, delivered, failed, delivered_event, delivery_failed}
use chatbridge.Db.{Db, Message}
use chatbridge.Db.Messages.{
  row, mark_message_delivered, mark_message_failed, adopt_external_message_id, set_status,
  set_external_id, is_new, is_untouched,
}
use chatbridge.Db.Indexes.{IsIndexed, mark_message_delivered-IsIndexed}
use chatbridge.Db.Adoption.{row-adopt_external_message_id}
use chatbridge.World.{Env, World, write_db, total}
use chatbridge.Operator.Outbound.{mark_delivered, mark_undelivered, settle, ticked}

-- A provider's answer moves only a row that nothing has moved yet.
abbrev pub advance : MessageStatus → Message → Message
advance s m = if is_new m.status then set_status s m else m

row_id : (id : Uuid) (db : Db) (m : Message) → row id db ≡ some m → m.id ≡ id
unfolding row
row_id id db m h = ground (arith, find_sound (λ (r : Message). r.id == id) db.messages {a = m})

row-update :
    (message_id : Uuid) (s : MessageStatus) (db : Db) (m : Message)
    → row message_id db ≡ some m
    → row message_id
        (record db { messages = update (is_untouched message_id) (set_status s) db.messages })
      ≡ some (advance s m)
unfolding row
row-update message_id s db m h =
    find-update (λ (r : Message). r.id == message_id) (is_untouched message_id) (set_status s)
      db.messages (λ x. refl)
    ∙ ground (arith, row_id message_id db m)

any_none :
    (p q : Message → Bool) (xs : List Message) → any p xs ≡ false → any (λ x. p x && q x) xs ≡ false
any_none p q [] h = refl
any_none p q (x ∷ xs) h = ground (arith, any_none p q xs)

-- A condition on the row of a key is met by some row exactly if it is met by that one.
any_untouched :
    (p q : Message → Bool) (xs : List Message) (m : Message)
    → AtMostOne p xs
    → find p xs ≡ some m
    → any (λ x. p x && q x) xs ≡ q m
any_untouched p q [] m one h = ground arith
any_untouched p q (x ∷ xs) m (here, later) h =
    ground (arith, any_untouched p q xs m later, any_none p q xs, here)

module _ (env : Env) (calm : (n : ℕ) → env.fails n ≡ false)
    (alone : (n : ℕ) (db : Db) → env.others n db ≡ db) (operator message_id : Uuid) (m : Message)
    (w : World) (v : IsIndexed w.db) (found : row message_id w.db ≡ some m) where
  calm_write :
      {A : Type 0} (f : Db → Db × A) (w' : World)
      → write_db env (λ id now. total f) w'
        ≡ (ok (f w'.db).1, record w' { db = (f w'.db).0; queries = suc w'.queries })
  unfolding write_db
  calm_write f w' = rw (calm w'.queries, alone w'.queries w'.db) refl

  is_news : any (is_untouched message_id) w.db.messages ≡ is_new m.status
  is_news =
      any_untouched (λ r. r.id == message_id) (λ r. is_new r.status) w.db.messages m
        (AtMostOne-key (λ (r : Message). r.id) message_id w.db.messages v.message_ids)
        (unfold row in found)

  told :
      ticked env operator message_id (ok (mark_message_delivered message_id w.db).1)
      ≡ (if is_new m.status then (operator, delivered_event message_id) ∷ [] else [])
  unfolding mark_message_delivered
  told = rw is_news (ground arith)

  -- With Postgres at work, no other session and the indexes held: when the provider took a stored
  -- message, its row has the provider's id and, if it was new, is delivered; the operator gets one
  -- tick exactly if it was new.
  pub settle-ok :
      (external_id : String)
      → (row message_id (settle env operator message_id (ok external_id) w).1.db
          ≡ some (set_external_id external_id (advance delivered m)))
        × ((settle env operator message_id (ok external_id) w).0
            ≡ (if is_new m.status then (operator, delivered_event message_id) ∷ [] else []))
  unfolding settle mark_delivered
  settle-ok external_id =
      let marked : World = record w {
        db = (mark_message_delivered message_id w.db).0;
        queries = suc w.queries;
      } in
      let ticked_row : row message_id marked.db ≡ some (advance delivered m) =
        unfold mark_message_delivered in row-update message_id delivered w.db m found in
      rw
        (
          calm_write (mark_message_delivered message_id) w,
          calm_write (adopt_external_message_id message_id external_id) marked,
        )
        (
          row-adopt_external_message_id message_id external_id marked.db (advance delivered m)
                message_id (mark_message_delivered-IsIndexed w.db v message_id) ticked_row
              ∙ ground arith,
          told,
        )

  -- With Postgres at work and no other session: when the provider refused a stored message, its row is
  -- failed if it was new, and the operator is told which message it was.
  pub settle-err :
      (reason : String)
      → (row message_id (settle env operator message_id (err reason) w).1.db
          ≡ some (advance failed m))
        × ((settle env operator message_id (err reason) w).0
            ≡ (operator, delivery_failed message_id reason) ∷ [])
  unfolding settle mark_undelivered write_db mark_message_failed
  settle-err reason =
      (rw (calm w.queries, alone w.queries w.db) (row-update message_id failed w.db m found), refl)
