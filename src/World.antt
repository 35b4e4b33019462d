-- ===== src/World.antt =====
-- The state that a handler works on and the actions that it is made of: Postgres, Redis, the caches.
--
-- A query is numbered by how many this process has made. The environment decides, for each query,
-- whether it fails, which identifier and time the database would give a new row, and what other
-- sessions have committed since the query before it. So a statement that holds for every
-- environment holds for every interleaving of statements with other sessions. The caches change only
-- by what the handler itself does: what other tasks of the same process put into them, or take out,
-- while a handler runs is left out.
pub mod Invariants
use chatbridge.Prelude.{
  ℕ, suc, String, Bool, Option, none, some, List, [], ◌∷◌, ◌++◌, Uuid, Instant, if◌then◌else◌,
}
use chatbridge.Prelude.Results.{Result, ok, err}
use chatbridge.Model.{IncomingEvent}
use chatbridge.Db.{Db, Write, SqlError, unavailable}
use chatbridge.Cache.{Caches}

pub record Env : Type 0 where
  pub fails : ℕ → Bool
  pub fresh : ℕ → Uuid
  pub now : ℕ → Instant
  pub others : ℕ → Db → Db
  pub redis_fails : ℕ → Bool

pub record World : Type 0 where
  pub db : Db
  pub caches : Caches
  pub queries : ℕ
  pub publishes : ℕ
  -- What Redis took on `incoming_messages` and on `cache_invalidation`, oldest first.
  pub published : List IncomingEvent
  pub invalidations : List (String × Uuid)

abbrev pub Io : Type 0 → Type 0
Io A = World → A × World

abbrev pub pure : {A : Type 0} → A → Io A
pure a w = (a, w)

infixl 5 ◌>>=◌ ◌>>◌
abbrev pub ◌>>=◌ : {A B : Type 0} → Io A → (A → Io B) → Io B
◌>>=◌ m f w = let (a, w') = m w in f a w'

abbrev pub ◌>>◌ : {B : Type 0} → Io (Unit {0}) → Io B → Io B
m >> k = m >>= λ _. k

module _ (env : Env) where
  -- The tables when the next query runs.
  abbrev pub current : World → Db
  current w = env.others w.queries w.db

  -- A SELECT.
  unfoldable pub read_db : {A : Type 0} → (Db → A) → Io (Result SqlError A)
  read_db f w = (
    if env.fails w.queries then err unavailable else ok (f (current w)),
    record w { db = current w; queries = suc w.queries },
  )

  -- The new tables of a statement that may be refused.
  abbrev pub commit : {A : Type 0} → Db → Result SqlError (Db × A) → Db
  commit db (ok (db', _)) = db'
  commit db (err _) = db

  abbrev pub outcome : {A : Type 0} → Result SqlError (Db × A) → Result SqlError A
  outcome (ok (_, a)) = ok a
  outcome (err e) = err e

  -- A statement that writes, over the identifier and the time that it may use.
  unfoldable pub write_db : {A : Type 0} → (Uuid → Instant → Write A) → Io (Result SqlError A)
  write_db f w =
      let result = f (env.fresh w.queries) (env.now w.queries) (current w) in
      if env.fails w.queries
      then (err unavailable, record w { db = current w; queries = suc w.queries })
      else (outcome result, record w { db = commit (current w) result; queries = suc w.queries })

  -- `publish_event` of pipeline.rs: a failure is logged, and the event is gone.
  unfoldable pub publish_event : IncomingEvent → Io (Unit {0})
  publish_event event w = (
    tt,
    record w {
      published = if env.redis_fails w.publishes then w.published else w.published ++ event ∷ [];
      publishes = suc w.publishes;
    },
  )

  -- `publish_invalidation` of cache.rs
  unfoldable pub publish_invalidation : String → Uuid → Io (Unit {0})
  publish_invalidation entity_type id w = (
    tt,
    record w {
      invalidations =
          if env.redis_fails w.publishes
          then w.invalidations
          else w.invalidations ++ (entity_type, id) ∷ [];
      publishes = suc w.publishes;
    },
  )

-- A statement that no constraint can refuse.
abbrev pub total : {A : Type 0} → (Db → Db × A) → Write A
total f db = ok (f db)
