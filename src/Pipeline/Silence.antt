-- ===== src/Pipeline/Silence.antt =====
-- The lookups of pipeline.rs, and where it places a message, put no event on Redis.
use chatbridge.Prelude.{
  ◌≡◌, ◌∙◌, refl, String, Option, none, some, arith, Uuid, Instant, Bool-cases, Option-cases, inl,
  inr, str_eq,
}
use chatbridge.Prelude.Results.{Result, ok, err}
use chatbridge.Model.{NewMessage}
use chatbridge.Db.{Db, SqlError, Write}
use chatbridge.Db.Chats.{insert_chat, find_active_chat}
use chatbridge.World.{Env, World, Io, read_db, write_db, publish_invalidation}
use chatbridge.Cache.{Caches}
use chatbridge.Pipeline.Lookup.{
  read_through, fetch, get_client_by_uuid, get_operator, find_or_create_chat, create_chat,
  resolve_sender,
}
use chatbridge.Pipeline.Persist.{
  verify_customer, announce_chat, chat_of_customer, place_with_customer, place, customer_of,
}

-- The action puts no event on Redis.
abbrev pub Silent : {A : Type 0} → Io A → Type 0
Silent m = (w : World) → (m w).1.published ≡ w.published

pub fetch-Silent :
    {A : Type 0} (remember : A → Io (Unit {0})) (r : Result SqlError (Option A))
    → ((a : A) → Silent (remember a))
    → Silent (fetch remember r)
unfolding fetch
fetch-Silent remember (err e) same w = refl
fetch-Silent remember (ok none) same w = refl
fetch-Silent remember (ok (some a)) same w = same a w

module _ (env : Env) where
  pub read_db-Silent : {A : Type 0} (f : Db → A) → Silent (read_db env f)
  unfolding read_db
  read_db-Silent f w = refl

  pub write_db-Silent : {A : Type 0} (f : Uuid → Instant → Write A) → Silent (write_db env f)
  unfolding write_db
  write_db-Silent f w = ground arith

  pub read_through-Silent :
      {A : Type 0} (cached : Caches → Option A) (query : Db → Option A)
      (remember : A → Io (Unit {0}))
      → ((a : A) → Silent (remember a))
      → Silent (read_through env cached query remember)
  unfolding read_through
  read_through-Silent {A} cached query remember same w = elim (Option-cases (cached w.caches)) [
    | inl e ↦
        rw (e, read_through)
          (fetch-Silent remember (read_db env query w).0 same (read_db env query w).1
            ∙ read_db-Silent query w)
    | inr (a, e) ↦ rw (e, read_through) refl
  ]

  pub get_client_by_uuid-Silent : (id : Uuid) → Silent (get_client_by_uuid env id)
  unfolding get_client_by_uuid
  get_client_by_uuid-Silent id = read_through-Silent _ _ _ (λ a w. refl)

  pub get_operator-Silent : (id : Uuid) → Silent (get_operator env id)
  unfolding get_operator
  get_operator-Silent id = read_through-Silent _ _ _ (λ a w. refl)

  pub resolve_sender-Silent : (id : Uuid) (kind : String) → Silent (resolve_sender env id kind)
  unfolding resolve_sender
  resolve_sender-Silent id kind w = elim (Bool-cases (str_eq kind "operator")) [
    | inl e ↦ rw (e, resolve_sender) (get_operator-Silent id w)
    | inr e ↦ rw (e, resolve_sender) (get_client_by_uuid-Silent id w)
  ]

  pub create_chat-Silent : (c ch : Uuid) → Silent (create_chat env c ch)
  unfolding create_chat
  create_chat-Silent c ch w =
      let w' = (write_db env (λ id now. insert_chat id now c ch) w).1 in
      ground (
        arith,
        write_db-Silent (λ id now. insert_chat id now c ch) w,
        read_db-Silent (find_active_chat c ch) w',
      )

  pub find_or_create_chat-Silent : (c ch : Uuid) → Silent (find_or_create_chat env c ch)
  unfolding find_or_create_chat
  find_or_create_chat-Silent c ch w =
      let w' = (read_db env (find_active_chat c ch) w).1 in
      ground (arith, read_db-Silent (find_active_chat c ch) w, create_chat-Silent c ch w')

  pub verify_customer-Silent : (id : Option Uuid) → Silent (verify_customer env id)
  unfolding verify_customer
  verify_customer-Silent none w = refl
  verify_customer-Silent (some id) w = get_client_by_uuid-Silent id w

  pub announce_chat-Silent : (r : Result SqlError Uuid) → Silent (announce_chat env r)
  unfolding announce_chat publish_invalidation
  announce_chat-Silent (ok id) w = refl
  announce_chat-Silent (err e) w = refl

  pub chat_of_customer-Silent : (c : Option Uuid) (ch : Uuid) → Silent (chat_of_customer env c ch)
  unfolding chat_of_customer
  chat_of_customer-Silent none ch w = refl
  chat_of_customer-Silent (some c) ch w =
      announce_chat-Silent (find_or_create_chat env c ch w).0 (find_or_create_chat env c ch w).1
      ∙ find_or_create_chat-Silent c ch w

  pub place_with_customer-Silent : (msg : NewMessage) → Silent (place_with_customer env msg)
  unfolding place_with_customer
  place_with_customer-Silent msg w =
      let first = verify_customer env (customer_of msg.conversation) w in
      chat_of_customer-Silent first.0 msg.channel_id first.1
      ∙ verify_customer-Silent (customer_of msg.conversation) w

  pub place-Silent : (msg : NewMessage) → Silent (place env msg)
  unfolding place
  place-Silent msg w = ground (arith, place_with_customer-Silent msg w)
