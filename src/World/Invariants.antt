-- ===== src/World/Invariants.antt =====
-- A property of the tables that every statement and every other session keep is kept by an action,
-- whatever it interleaves with.
use chatbridge.Prelude.{◌≡◌, ℕ, Uuid, Instant, Bool-cases, inl, inr}
use chatbridge.Prelude.Results.{ok, Result-cases}
use chatbridge.Db.{Db, Write}
use chatbridge.Model.{IncomingEvent}
use chatbridge.World.{Env, World, Io, ◌>>=◌, read_db, write_db, current, publish_event}

module _ (P : Db → Type 0) where
  -- The action keeps the property.
  abbrev pub Keeps : {A : Type 0} → Io A → Type 0
  Keeps m = (w : World) → P w.db → P (m w).1.db

  pub Keeps-bind :
      {A B : Type 0} (m : Io A) (f : A → Io B) → Keeps m → ((a : A) → Keeps (f a)) → Keeps (m >>= f)
  Keeps-bind m f first next w h = next (m w).0 (m w).1 (first w h)

  module _ (env : Env) where
    pub Keeps-publish_event : (event : IncomingEvent) → Keeps (publish_event env event)
    unfolding publish_event
    Keeps-publish_event event w h = h

    module _ (rely : (n : ℕ) (db : Db) → P db → P (env.others n db)) where
      pub Keeps-read_db : {A : Type 0} (f : Db → A) → Keeps (read_db env f)
      unfolding read_db
      Keeps-read_db f w h = rely w.queries w.db h

      pub Keeps-write_db :
          {A : Type 0} (f : Uuid → Instant → Write A)
          → ((id : Uuid) (now : Instant) (db db' : Db) (a : A)
              → P db
              → f id now db ≡ ok (db', a)
              → P db')
          → Keeps (write_db env f)
      unfolding write_db
      Keeps-write_db {A} f step w h = elim (Bool-cases (env.fails w.queries)) [
        | inl e ↦ rw e (rely w.queries w.db h)
        | inr e ↦
            elim (Result-cases (f (env.fresh w.queries) (env.now w.queries) (current env w))) [
              | inl ((db', a), k) ↦
                  rw (e, k)
                    (step (env.fresh w.queries) (env.now w.queries) (current env w) db' a
                      (rely w.queries w.db h) k)
              | inr (e', k) ↦ rw (e, k) (rely w.queries w.db h)
            ]
      ]
