-- ===== src/Pipeline/Keeps.antt =====
-- A property of the tables that new chats and other sessions keep is kept by the lookups of
-- pipeline.rs and by where it places a message.
use chatbridge.Prelude.{
  ◌≡◌, refl, ℕ, String, Option, none, some, arith, Uuid, Instant, Bool-cases, Option-cases, inl,
  inr, str_eq,
}
use chatbridge.Prelude.Results.{Result, ok, err}
use chatbridge.Model.{NewMessage}
use chatbridge.Db.{Db, SqlError}
use chatbridge.Db.Chats.{insert_chat, find_active_chat}
use chatbridge.World.{Env, World, Io, read_db, write_db, publish_invalidation}
use chatbridge.World.Invariants.{Keeps, Keeps-read_db, Keeps-write_db}
use chatbridge.Cache.{Caches}
use chatbridge.Pipeline.Lookup.{
  read_through, fetch, get_client_by_uuid, get_operator, find_or_create_chat, create_chat,
  resolve_sender,
}
use chatbridge.Pipeline.Persist.{
  verify_customer, announce_chat, chat_of_customer, place_with_customer, place, customer_of,
}

-- Remembering a row changes no table.
fetch-db :
    {A : Type 0} (remember : A → Io (Unit {0})) (r : Result SqlError (Option A)) (w : World)
    → ((a : A) (w' : World) → (remember a w').1.db ≡ w'.db)
    → (fetch remember r w).1.db ≡ w.db
unfolding fetch
fetch-db remember (err e) w same = refl
fetch-db remember (ok none) w same = refl
fetch-db remember (ok (some a)) w same = same a w

module _ (P : Db → Type 0) (env : Env) (rely : (n : ℕ) (db : Db) → P db → P (env.others n db))
    (chats : (id : Uuid) (now : Instant) (c ch : Uuid) (db db' : Db) (a : Uuid)
      → P db
      → insert_chat id now c ch db ≡ ok (db', a)
      → P db') where
  pub Keeps-inserted_chat :
      (c ch : Uuid) → Keeps P (write_db env (λ id now. insert_chat id now c ch))
  Keeps-inserted_chat c ch =
      Keeps-write_db P env rely (λ id now. insert_chat id now c ch)
        (λ id now db db' a v h. chats id now c ch db db' a v h)

  pub Keeps-create_chat : (c ch : Uuid) → Keeps P (create_chat env c ch)
  unfolding create_chat
  Keeps-create_chat c ch w v =
      let w' = (write_db env (λ id now. insert_chat id now c ch) w).1 in
      let v' = Keeps-inserted_chat c ch w v in
      ground (arith, Keeps-read_db P env rely (find_active_chat c ch) w' v', v')

  pub Keeps-find_or_create_chat : (c ch : Uuid) → Keeps P (find_or_create_chat env c ch)
  unfolding find_or_create_chat
  Keeps-find_or_create_chat c ch w v =
      let w' = (read_db env (find_active_chat c ch) w).1 in
      let v' = Keeps-read_db P env rely (find_active_chat c ch) w v in
      ground (arith, v', Keeps-create_chat c ch w' v')

  pub Keeps-read_through :
      {A : Type 0} (cached : Caches → Option A) (query : Db → Option A)
      (remember : A → Io (Unit {0}))
      → ((a : A) (w : World) → (remember a w).1.db ≡ w.db)
      → Keeps P (read_through env cached query remember)
  unfolding read_through fetch
  Keeps-read_through {A} cached query remember same w v = elim (Option-cases (cached w.caches)) [
    | inl e ↦
        rw (e, read_through)
          (rw (fetch-db remember (read_db env query w).0 (read_db env query w).1 same)
            (Keeps-read_db P env rely query w v))
    | inr (a, e) ↦ rw (e, read_through) v
  ]

  pub Keeps-get_client_by_uuid : (id : Uuid) → Keeps P (get_client_by_uuid env id)
  unfolding get_client_by_uuid
  Keeps-get_client_by_uuid id = Keeps-read_through _ _ _ (λ a w. refl)

  pub Keeps-get_operator : (id : Uuid) → Keeps P (get_operator env id)
  unfolding get_operator
  Keeps-get_operator id = Keeps-read_through _ _ _ (λ a w. refl)

  pub Keeps-resolve_sender : (id : Uuid) (kind : String) → Keeps P (resolve_sender env id kind)
  unfolding resolve_sender
  Keeps-resolve_sender id kind w v = elim (Bool-cases (str_eq kind "operator")) [
    | inl e ↦ rw e (Keeps-get_operator id w v)
    | inr e ↦ rw e (Keeps-get_client_by_uuid id w v)
  ]

  pub Keeps-verify_customer : (id : Option Uuid) → Keeps P (verify_customer env id)
  unfolding verify_customer
  Keeps-verify_customer none w v = v
  Keeps-verify_customer (some id) w v = Keeps-get_client_by_uuid id w v

  pub Keeps-announce_chat : (r : Result SqlError Uuid) → Keeps P (announce_chat env r)
  unfolding announce_chat publish_invalidation
  Keeps-announce_chat (ok id) w v = v
  Keeps-announce_chat (err e) w v = v

  pub Keeps-chat_of_customer : (c : Option Uuid) (ch : Uuid) → Keeps P (chat_of_customer env c ch)
  unfolding chat_of_customer
  Keeps-chat_of_customer none ch w v = v
  Keeps-chat_of_customer (some c) ch w v =
      Keeps-announce_chat (find_or_create_chat env c ch w).0 (find_or_create_chat env c ch w).1
        (Keeps-find_or_create_chat c ch w v)

  pub Keeps-place_with_customer : (msg : NewMessage) → Keeps P (place_with_customer env msg)
  unfolding place_with_customer
  Keeps-place_with_customer msg w v =
      let first = verify_customer env (customer_of msg.conversation) w in
      Keeps-chat_of_customer first.0 msg.channel_id first.1
        (Keeps-verify_customer (customer_of msg.conversation) w v)

  pub Keeps-place : (msg : NewMessage) → Keeps P (place env msg)
  unfolding place
  Keeps-place msg w v = ground (arith, Keeps-place_with_customer msg w v)
