-- ===== src/Pipeline/Duplicates.antt =====
-- A second delivery of a message to pipeline.rs, under `ON CONFLICT DO NOTHING`.
use chatbridge.Prelude.{
  ◌≡◌, ◌≢◌, refl, ℕ, true, Option, none, some, arith, Uuid, Instant, Bool-cases, inl, inr, is_some,
  eq_refl, String,
}
use chatbridge.Prelude.Results.{Result, ok, err, Result-cases}
use chatbridge.Model.{NewMessage, message}
use chatbridge.Db.{Db, SqlError}
use chatbridge.Db.Chats.{insert_chat}
use chatbridge.Db.Messages.{DbMessage, insert_message, anchor}
use chatbridge.World.{Env, World, write_db, current, publish_event}
use chatbridge.Pipeline.Persist.{
  place, announce_message, after_insert, persist_message, persist_and_publish,
}
use chatbridge.Pipeline.Keeps.{Keeps-place, Keeps-resolve_sender}
use chatbridge.Pipeline.Events.{as_message, same_placed, persist_and_publish-Outcome}

-- The channel has a message of that id already.
abbrev pub Known : Uuid → String → Db → Type 0
Known channel_id external_id db = is_some (anchor channel_id external_id db) ≡ true

insert_chat-Known :
    (channel_id : Uuid) (external_id : String) (id : Uuid) (now : Instant) (c ch : Uuid)
    (db db' : Db) (a : Uuid)
    → Known channel_id external_id db
    → insert_chat id now c ch db ≡ ok (db', a)
    → Known channel_id external_id db'
unfolding insert_chat anchor
insert_chat-Known channel_id external_id id now c ch db db' a known h = ground arith

inserted-Known :
    (id : Uuid) (now : Instant) (msg : NewMessage) (chat_id : Option Uuid) (db db' : Db)
    (m : DbMessage)
    → insert_message id now msg chat_id db ≡ ok (db', some m)
    → Known msg.channel_id msg.external_message_id db'
unfolding insert_message anchor
inserted-Known id now msg chat_id db db' m h = ground (arith, eq_refl msg.external_message_id)

refused :
    (id : Uuid) (now : Instant) (msg : NewMessage) (chat_id : Option Uuid) (db db' : Db)
    (m : DbMessage)
    → Known msg.channel_id msg.external_message_id db
    → insert_message id now msg chat_id db ≢ ok (db', some m)
unfolding insert_message
refused id now msg chat_id db db' m known h = ground arith

module _ (env : Env) (msg : NewMessage)
    (rely : (n : ℕ) (db : Db)
      → Known msg.channel_id msg.external_message_id db
      → Known msg.channel_id msg.external_message_id (env.others n db)) where
  K : Db → Type 0
  K = Known msg.channel_id msg.external_message_id

  none_inserted :
      (r : Result SqlError (Option DbMessage)) (w : World)
      → ((m : DbMessage) → r ≢ ok (some m))
      → (after_insert env r w).0 ≡ none
  unfolding after_insert
  none_inserted (ok (some m)) w never = absurd (never m refl)
  none_inserted (ok none) w never = refl
  none_inserted (err e) w never = refl

  write_refused :
      (m' : NewMessage) (chat_id : Option Uuid) (w : World) (m : DbMessage)
      → m'.channel_id ≡ msg.channel_id
      → m'.external_message_id ≡ msg.external_message_id
      → K w.db
      → (write_db env (λ id now. insert_message id now m' chat_id) w).0 ≢ ok (some m)
  unfolding write_db K
  write_refused m' chat_id w m ch ext known h =
      let known' : Known m'.channel_id m'.external_message_id (current env w) =
        rw (ch, ext) (rely w.queries w.db known) in
      elim (Bool-cases (env.fails w.queries)) [
        | inl e ↦ ground arith
        | inr e ↦
            elim (Result-cases (
              insert_message (env.fresh w.queries) (env.now w.queries) m' chat_id
                (current env w))) [
                  | inl ((db', some n), k) ↦
                      refused (env.fresh w.queries) (env.now w.queries) m' chat_id (current env w)
                        db' n known' k
                  | inl ((db', none), k) ↦ ground arith
                  | inr (e', k) ↦ ground arith
                ]
      ]

  persist_message-known : (w : World) → K w.db → (persist_message env msg w).0 ≡ none
  unfolding persist_message K
  persist_message-known w known =
      let placed = place env msg w in
      let (ext, ch, _) = same_placed env msg w in
      let known' =
        Keeps-place K env rely (insert_chat-Known msg.channel_id msg.external_message_id) msg w
          known in
      none_inserted
        (write_db env (λ id now. insert_message id now placed.0.msg placed.0.chat_id) placed.1).0
        (write_db env (λ id now. insert_message id now placed.0.msg placed.0.chat_id) placed.1).1
        (λ m h. write_refused placed.0.msg placed.0.chat_id placed.1 m ch ext known' h)

  -- While no session takes the message away, a delivery of a message that the channel has already
  -- returns no id and puts nothing on Redis, whatever else happens.
  pub persist_and_publish-Known :
      (w : World)
      → msg.event ≡ message
      → Known msg.channel_id msg.external_message_id w.db
      → ((persist_and_publish env msg w).0 ≡ none)
        × ((persist_and_publish env msg w).1.published ≡ w.published)
  persist_and_publish-Known w h known =
      let nothing : (persist_and_publish env msg w).0 ≡ none =
        rw (as_message env msg w h) (unfold K in persist_message-known w known) in
      (nothing, rw nothing at (persist_and_publish-Outcome env msg w h))

  kept_after :
      (r : Result SqlError (Option DbMessage)) (w : World) {id : Uuid}
      → ((m : DbMessage) → r ≡ ok (some m) → K w.db)
      → (after_insert env r w).0 ≡ some id
      → K (after_insert env r w).1.db
  unfolding after_insert announce_message publish_event K
  kept_after (ok (some m)) w stored h =
      Keeps-resolve_sender K env rely
        (unfold K in insert_chat-Known msg.channel_id msg.external_message_id) _ m.sender_type w
        (stored m refl)
  kept_after (ok none) w stored h = cc
  kept_after (err e) w stored h = cc

  write_known :
      (m' : NewMessage) (chat_id : Option Uuid) (w : World) (m : DbMessage)
      → m'.channel_id ≡ msg.channel_id
      → m'.external_message_id ≡ msg.external_message_id
      → (write_db env (λ id now. insert_message id now m' chat_id) w).0 ≡ ok (some m)
      → K (write_db env (λ id now. insert_message id now m' chat_id) w).1.db
  unfolding write_db K
  write_known m' chat_id w m ch ext h = elim (Bool-cases (env.fails w.queries)) [
    | inl e ↦ absurd (ground arith)
    | inr e ↦
        elim (Result-cases
          (insert_message (env.fresh w.queries) (env.now w.queries) m' chat_id (current env w))) [
            | inl ((db', some n), k) ↦
                rw (e, k, ← ch, ← ext)
                  (inserted-Known (env.fresh w.queries) (env.now w.queries) m' chat_id
                    (current env w) db' n k)
            | inl ((db', none), k) ↦ absurd (ground arith)
            | inr (e', k) ↦ absurd (ground arith)
          ]
  ]

  -- A message that was stored is known to its channel when its persisting ends.
  persist_message-Known :
      (w : World) {id : Uuid}
      → (persist_message env msg w).0 ≡ some id
      → K (persist_message env msg w).1.db
  unfolding persist_message
  persist_message-Known w {id} h =
      let placed = place env msg w in
      let (ext, ch, _) = same_placed env msg w in
      kept_after
        (write_db env (λ id now. insert_message id now placed.0.msg placed.0.chat_id) placed.1).0
        (write_db env (λ id now. insert_message id now placed.0.msg placed.0.chat_id) placed.1).1
        {id = id} (λ m e. write_known placed.0.msg placed.0.chat_id placed.1 m ch ext e) h

  -- A message whose first delivery was stored is stored once: a second delivery returns no id and
  -- puts nothing on Redis, whatever failed and whatever other sessions did in between that keeps it.
  pub persist_and_publish-twice :
      (w : World) (id : Uuid)
      → msg.event ≡ message
      → (persist_and_publish env msg w).0 ≡ some id
      → let again = persist_and_publish env msg (persist_and_publish env msg w).1 in
        (again.0 ≡ none) × (again.1.published ≡ (persist_and_publish env msg w).1.published)
  persist_and_publish-twice w id h first =
      let same = as_message env msg w h in
      persist_and_publish-Known (persist_and_publish env msg w).1 h
        (rw same (unfold K in persist_message-Known w {id = id} (rw same at first)))
