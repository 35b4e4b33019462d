-- ===== src/Pipeline/Customers.antt =====
-- When the read-through lookup of cache.rs finds a client.
use chatbridge.Prelude.{
  ◌≡◌, refl, true, some, arith, Uuid, is_some, Option-cases, Bool-cases, inl, inr, ◌⊎◌,
}
use chatbridge.Prelude.Map.{get, uuid_same}
use chatbridge.Prelude.Results.{ok}
use chatbridge.Db.{Db, Client}
use chatbridge.Db.Clients.{find_client_by_uuid}
use chatbridge.World.{Env, World, read_db, current}
use chatbridge.Pipeline.Lookup.{get_client_by_uuid, read_through, fetch}

-- The tables have that client.
abbrev pub IsClient : Uuid → Db → Type 0
IsClient id db = is_some (find_client_by_uuid id db) ≡ true

module _ (env : Env) where
  -- The replica has cached that client, or the tables have it when the next query runs.
  abbrev pub IsKnown : Uuid → World → Type 0
  IsKnown id w = (is_some (get id w.caches.clients.by_uuid) ≡ true) ⊎ IsClient id (current env w)

  pub get_client_by_uuid-IsKnown :
      (id : Uuid) (c : Client) (w : World)
      → (get_client_by_uuid env id w).0 ≡ ok (some c)
      → IsKnown id w
  unfolding get_client_by_uuid read_through fetch read_db
  get_client_by_uuid-IsKnown id c w h = elim (Option-cases (get id w.caches.clients.by_uuid)) [
    | inr (cached, e) ↦ inl (rw e refl)
    | inl e ↦ elim (Bool-cases (env.fails w.queries)) [
      | inl failed ↦ absurd (ground (arith, h, e, failed))
      | inr calm ↦ elim (Option-cases (find_client_by_uuid id (current env w))) [
        | inl gone ↦ absurd (ground (arith, h, e, calm, gone))
        | inr (row, there) ↦ inr (rw there refl)
      ]
    ]
  ]
