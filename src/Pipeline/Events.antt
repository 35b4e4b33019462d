-- ===== src/Pipeline/Events.antt =====
-- What `persist_and_publish` of pipeline.rs puts on Redis, and what it stores of a message.
use chatbridge.Prelude.{
  ◌≡◌, ◌∙◌, refl, ℕ, suc, true, Option, none, some, [], ◌∷◌, ◌++◌, arith, Uuid, Instant, Bool-cases,
  Option-cases, inl, inr, if◌then◌else◌, unwrap_or, nil_uuid, map_option, eq_iff, ◌⊎◌,
}
use chatbridge.Prelude.Results.{Result, ok, err, Result-cases}
use chatbridge.Model.{
  NewMessage, message, reaction, unknown, chat, customer, IncomingMessage, message_event,
  MessageStatus, Conversation,
}
use chatbridge.Db.{Db, SqlError}
use chatbridge.Db.Messages.{DbMessage, insert_message}
use chatbridge.World.{Env, World, write_db, current, publish_event}
use chatbridge.Pipeline.Lookup.{get_client_by_uuid, found, resolve_sender}
use chatbridge.Pipeline.Customers.{IsKnown, get_client_by_uuid-IsKnown}
use chatbridge.Pipeline.Persist.{
  verify_customer, place_with_customer, place, announce_message, after_insert, persist_message,
  persist_and_publish, customer_of, with_author, same_option,
}
use chatbridge.Pipeline.Silence.{write_db-Silent, place-Silent, resolve_sender-Silent}

same_option_sound : (a b : Option Uuid) → same_option a b ≡ true → a ≡ b
same_option_sound none none h = refl
same_option_sound none (some b) h = cc
same_option_sound (some a) none h = cc
same_option_sound (some a) (some b) h = ground arith

with_author-author :
    (verified : Option Uuid) (msg : NewMessage)
    → msg.sender_type ≡ "client"
    → (with_author verified msg).sender_id ≡ verified
with_author-author verified msg h =
    ground (arith, eq_iff msg.sender_type "client", same_option_sound msg.sender_id verified)

pub as_message :
    (env : Env) (msg : NewMessage) (w : World)
    → msg.event ≡ message
    → persist_and_publish env msg w ≡ persist_message env msg w
unfolding persist_and_publish
as_message env msg w h = ground arith

module _ (env : Env) where
  -- One event more was handed to Redis, which kept it or lost it.
  pub record Announced (before after : World) (event : IncomingMessage) : Type 0 where
    pub attempt : ℕ
    pub last : after.publishes ≡ suc attempt
    pub published : after.published ≡ (
        if env.redis_fails attempt
        then before.published
        else before.published ++ message_event event ∷ [])

  -- The event tells of that message, newly stored in that channel.
  pub record Tells (event : IncomingMessage) (msg : NewMessage) : Type 0 where
    pub external_message_id : event.external_message_id ≡ msg.external_message_id
    pub channel_id : event.channel_id ≡ msg.channel_id
    pub text : event.text ≡ msg.text
    pub status : event.status ≡ MessageStatus.new

  -- What a message left on Redis: nothing if no row was inserted, and one event, of the row's id, if
  -- one was.
  abbrev pub Outcome : NewMessage → World → Option Uuid → World → Type 0
  Outcome msg before none after = after.published ≡ before.published
  Outcome msg before (some id) after =
      (event : IncomingMessage) × (event.id ≡ id) × Tells event msg × Announced before after event

  -- What `insert_message` stored of the message.
  stored_as :
      (id : Uuid) (now : Instant) (msg : NewMessage) (chat_id : Option Uuid) (db db' : Db)
      (m : DbMessage)
      → insert_message id now msg chat_id db ≡ ok (db', some m)
      → (m.external_message_id ≡ msg.external_message_id)
        × (m.channel_id ≡ msg.channel_id)
        × (m.text ≡ msg.text)
        × (m.status ≡ MessageStatus.new)
  unfolding insert_message
  stored_as id now msg chat_id db db' m h = ground arith

  Stored : NewMessage → Result SqlError (Option DbMessage) → Type 0
  Stored msg (ok (some m)) =
      (m.external_message_id ≡ msg.external_message_id)
      × (m.channel_id ≡ msg.channel_id)
      × (m.text ≡ msg.text)
      × (m.status ≡ MessageStatus.new)
  Stored msg (ok none) = Unit
  Stored msg (err e) = Unit

  Stored-insert :
      (msg : NewMessage) (chat_id : Option Uuid) (w : World)
      → Stored msg (write_db env (λ id now. insert_message id now msg chat_id) w).0
  unfolding write_db Stored
  Stored-insert msg chat_id w = elim (Bool-cases (env.fails w.queries)) [
    | inl e ↦ rw e tt
    | inr e ↦
        elim (Result-cases
          (insert_message (env.fresh w.queries) (env.now w.queries) msg chat_id (current env w))) [
            | inl ((db', some m), k) ↦
                rw (e, k)
                  (stored_as (env.fresh w.queries) (env.now w.queries) msg chat_id (current env w)
                    db' m k)
            | inl ((db', none), k) ↦ rw (e, k) tt
            | inr (e', k) ↦ rw (e, k) tt
          ]
  ]

  after_insert-Outcome :
      (msg : NewMessage) (before : World) (r : Result SqlError (Option DbMessage)) (w : World)
      → Stored msg r
      → w.published ≡ before.published
      → Outcome msg before (after_insert env r w).0 (after_insert env r w).1
  unfolding after_insert announce_message publish_event Stored
  after_insert-Outcome msg before (ok none) w kept same = same
  after_insert-Outcome msg before (err e) w kept same = same
  after_insert-Outcome msg before (ok (some m)) w (ext, ch, text, status) same =
      let sender = resolve_sender env (unwrap_or m.sender_id nil_uuid) m.sender_type w in
      (
        record {
          id = m.id;
          external_message_id = m.external_message_id;
          channel_id = m.channel_id;
          chat_id = m.chat_id;
          text = m.text;
          status = m.status;
          created_at = m.created_at;
          sender = sender.0;
        },
        refl,
        record { external_message_id = ext; channel_id = ch; text = text; status = status },
        record {
          attempt = sender.1.publishes;
          last = refl;
          published =
              rw (resolve_sender-Silent env (unwrap_or m.sender_id nil_uuid) m.sender_type w, same)
                refl;
        },
      )

  pub same_placed :
      (msg : NewMessage) (w : World)
      → ((place env msg w).0.msg.external_message_id ≡ msg.external_message_id)
        × ((place env msg w).0.msg.channel_id ≡ msg.channel_id)
        × ((place env msg w).0.msg.text ≡ msg.text)
  unfolding place place_with_customer
  same_placed msg w = ground arith

  Outcome-same :
      (placed msg : NewMessage) (before after : World) (r : Option Uuid)
      → placed.external_message_id ≡ msg.external_message_id
      → placed.channel_id ≡ msg.channel_id
      → placed.text ≡ msg.text
      → Outcome placed before r after
      → Outcome msg before r after
  Outcome-same placed msg before after none ext ch text o = o
  Outcome-same placed msg before after (some id) ext ch text (event, named, told, heard) = (
    event,
    named,
    record {
      external_message_id = told.external_message_id ∙ ext;
      channel_id = told.channel_id ∙ ch;
      text = told.text ∙ text;
      status = told.status;
    },
    heard,
  )

  persist_message-Outcome :
      (msg : NewMessage) (w : World)
      → Outcome msg w (persist_message env msg w).0 (persist_message env msg w).1
  unfolding persist_message
  persist_message-Outcome msg w =
      let placed = place env msg w in
      let store =
        write_db env (λ id now. insert_message id now placed.0.msg placed.0.chat_id) placed.1 in
      let (ext, ch, text) = same_placed msg w in
      Outcome-same placed.0.msg msg w _ _ ext ch text (
        after_insert-Outcome placed.0.msg w store.0 store.1
          (Stored-insert placed.0.msg placed.0.chat_id placed.1)
          (write_db-Silent env (λ id now. insert_message id now placed.0.msg placed.0.chat_id)
              placed.1
            ∙ place-Silent env msg w))

  -- Whatever fails and whatever else runs, persisting a message returns an id exactly when it handed
  -- Redis one event: the event of that id, with the message's text and identity and the status
  -- `new`. With no id returned, for a duplicate or a failure, nothing reached Redis.
  pub persist_and_publish-Outcome :
      (msg : NewMessage) (w : World)
      → msg.event ≡ message
      → Outcome msg w (persist_and_publish env msg w).0 (persist_and_publish env msg w).1
  persist_and_publish-Outcome msg w h = rw (as_message env msg w h) (persist_message-Outcome msg w)

  -- Reactions and unknown events change nothing at all.
  pub persist_and_publish-ignored :
      (msg : NewMessage) (w : World)
      → (msg.event ≡ reaction) ⊎ (msg.event ≡ unknown)
      → persist_and_publish env msg w ≡ (none, w)
  unfolding persist_and_publish
  persist_and_publish-ignored msg w h = ground arith

  found_ok :
      {A : Type 0} (r : Result SqlError (Option A)) (a : A) → found env r ≡ some a → r ≡ ok (some a)
  found_ok (ok o) a h = ground arith
  found_ok (err e) a h = absurd (ground arith)

  verified_is :
      (c : Option Uuid) (conversation : Option Conversation) (w : World)
      → conversation ≡ map_option customer c
      → ((verify_customer env (customer_of conversation) w).0 ≡ none)
        ⊎ ((id : Uuid) × (c ≡ some id)
            × IsKnown env id w
            × ((verify_customer env (customer_of conversation) w).0 ≡ some id))
  unfolding verify_customer
  verified_is c none w h = inl refl
  verified_is c (some (chat id)) w h = absurd (ground arith)
  verified_is c (some (customer id)) w h =
      elim (Option-cases (found env (get_client_by_uuid env id w).0)) [
        | inl e ↦ inl (rw e refl)
        | inr (cl, e) ↦ inr (
          id,
          ground arith,
          get_client_by_uuid-IsKnown env id cl w (found_ok (get_client_by_uuid env id w).0 cl e),
          rw e refl,
        )
      ]

  -- A client's message that is placed by its customer has no author, or it has that customer, whom the
  -- replica has cached or the tables have.
  pub place-author :
      (msg : NewMessage) (c : Option Uuid) (w : World)
      → msg.sender_type ≡ "client"
      → msg.conversation ≡ map_option customer c
      → ((place env msg w).0.msg.sender_id ≡ none)
        ⊎ ((id : Uuid) × (c ≡ some id)
            × IsKnown env id w
            × ((place env msg w).0.msg.sender_id ≡ some id))
  unfolding place place_with_customer
  place-author msg c w client conv =
      let id = customer_of msg.conversation in
      let v = verify_customer env id w in
      elim (verified_is c msg.conversation w conv) [
        | inl e ↦ inl (ground (arith, with_author-author v.0 msg client))
        | inr (known_id, same, known, e) ↦
            inr (known_id, same, known, ground (arith, e, with_author-author v.0 msg client))
      ]
