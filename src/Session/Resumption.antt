-- ===== src/Session/Resumption.antt =====
-- Sessions of widget clients, from handler/mod.rs.
use chatbridge.Prelude.{
  ◌≡◌, refl, ℕ, String, false, Option, none, some, arith, Uuid, Instant, and_then, Option-cases,
  Bool-cases, inl, inr,
}
use chatbridge.Prelude.Map.{get, uuid_same}
use chatbridge.Prelude.Results.{Result, Result-cases, ok, err}
use chatbridge.Db.{Db, Client, SqlError}
use chatbridge.Db.Clients.{create_client, find_client_by_uuid}
use chatbridge.World.{Env, World, read_db, write_db, current}
use chatbridge.Pipeline.Lookup.{get_client_by_uuid, read_through, fetch}
use chatbridge.Pipeline.Customers.{IsClient, IsKnown, get_client_by_uuid-IsKnown}
use chatbridge.Session.{Resolved, admitted, new_client, recognise, resolve_client}

-- `create_client` gives an id that no client had.
created-IsClient :
    (id : Uuid) (now : Instant) (db db' : Db) (c : Uuid)
    → create_client id now db ≡ ok (db', c)
    → (find_client_by_uuid c db ≡ none) × IsClient c db'
unfolding create_client find_client_by_uuid
created-IsClient id now db db' c h = ground arith

module _ (env : Env) (verify : String → Option Uuid) (sign : Uuid → String) where
  -- A client that was stored just now, and its token.
  abbrev pub IsNew : World → Resolved → World → Type 0
  IsNew before (err e) after = Unit
  IsNew before (ok (id, none)) after = ⊥
  IsNew before (ok (id, some t)) after =
      (t ≡ sign id) × (find_client_by_uuid id (current env before) ≡ none) × IsClient id after.db

  -- The state after the lookup of the token's identity, if the token has one.
  abbrev pub looked_up : Option String → World → World
  looked_up token w = elim (and_then token verify) [
    | none ↦ w
    | some id ↦ (get_client_by_uuid env id w).1
  ]

  -- A session that was given a token is that of a client that the tables did not have and have now, and
  -- the token is of that client; one that was given none is that of the token it came with, whose
  -- client the replica has cached or the tables have.
  abbrev pub IsSession : Option String → World → Resolved → World → Type 0
  IsSession token w (err e) after = Unit
  IsSession token w (ok (id, none)) after = (and_then token verify ≡ some id) × IsKnown env id w
  IsSession token w (ok (id, some t)) after = IsNew (looked_up token w) (ok (id, some t)) after

  new_client-IsNew :
      (w : World) → IsNew w (new_client env verify sign w).0 (new_client env verify sign w).1
  unfolding new_client admitted write_db
  new_client-IsNew w = elim (Bool-cases (env.fails w.queries)) [
    | inl e ↦ rw e tt
    | inr e ↦
        elim (Result-cases
          (create_client (env.fresh w.queries) (env.now w.queries) (current env w))) [
            | inl ((db', c), k) ↦
                let (unused, stored) =
                  created-IsClient (env.fresh w.queries) (env.now w.queries) (current env w) db' c
                    k in
                rw (e, k) (refl, unused, stored)
            | inr (e', k) ↦ rw (e, k) tt
          ]
  ]

  of_new :
      (token : Option String) (w v : World) (r : Resolved) (after : World)
      → looked_up token w ≡ v
      → IsNew v r after
      → IsSession token w r after
  of_new token w v (err e) after same new = tt
  of_new token w v (ok (id, none)) after same new = absurd new
  of_new token w v (ok (id, some t)) after same new = rw same new

  recognise-IsSession :
      (token : Option String) (id : Uuid) (r : Result SqlError (Option Client)) (w : World)
      → and_then token verify ≡ some id
      → (get_client_by_uuid env id w).0 ≡ r
      → let v = (get_client_by_uuid env id w).1 in
        IsSession token w
          (recognise env verify sign id (new_client env verify sign) r v).0
          (recognise env verify sign id (new_client env verify sign) r v).1
  unfolding recognise
  recognise-IsSession token id (err e) w h looked = tt
  recognise-IsSession token id (ok none) w h looked =
      let v = (get_client_by_uuid env id w).1 in
      of_new token w v (new_client env verify sign v).0 (new_client env verify sign v).1
        (rw (h, looked_up) refl) (new_client-IsNew v)
  recognise-IsSession token id (ok (some c)) w h looked =
      (h, get_client_by_uuid-IsKnown env id c w looked)

  pub resolve_client-IsSession :
      (token : Option String) (w : World)
      → IsSession token w
          (resolve_client env verify sign token w).0
          (resolve_client env verify sign token w).1
  unfolding resolve_client
  resolve_client-IsSession token w = elim (Option-cases (and_then token verify)) [
    | inl e ↦
        rw (e, resolve_client)
          (of_new token w w (new_client env verify sign w).0 (new_client env verify sign w).1
            (rw (e, looked_up) refl) (new_client-IsNew w))
    | inr (id, e) ↦
        rw (e, resolve_client)
          (recognise-IsSession token id (get_client_by_uuid env id w).0 w e refl)
  ]

  -- A client that the tables keep is found, in the cache or by a query that does not fail.
  found_again :
      (id : Uuid) (w : World)
      → ((n : ℕ) → env.fails n ≡ false)
      → ((n : ℕ) (db : Db) → IsClient id db → IsClient id (env.others n db))
      → IsClient id w.db
      → (c : Client) × ((get_client_by_uuid env id w).0 ≡ ok (some c))
  unfolding get_client_by_uuid read_through fetch read_db
  found_again id w calm rely known = elim (Option-cases (get id w.caches.clients.by_uuid)) [
    | inr (c, e) ↦ (c, rw (e, get_client_by_uuid, read_through) refl)
    | inl e ↦ elim (Option-cases (find_client_by_uuid id (current env w))) [
      | inl gone ↦ absurd (ground (arith, rely w.queries w.db known))
      | inr (c, there) ↦
          (c, rw (e, get_client_by_uuid, read_through) (rw (calm w.queries, there) refl))
    ]
  ]

  resumed :
      (token : Option String) (id : Uuid) (c : Client) (w : World)
      → and_then token verify ≡ some id
      → (get_client_by_uuid env id w).0 ≡ ok (some c)
      → (resolve_client env verify sign token w).0 ≡ ok (id, none)
  unfolding resolve_client recognise
  resumed token id c w named found = rw (named, resolve_client) (rw (found, recognise) refl)

  -- A client that comes back with the token it was given is the same client, and gets no new token,
  -- while its row is kept and Postgres answers.
  pub resolve_client-again :
      (token : Option String) (id : Uuid) (t : String) (w : World)
      → ((x : Uuid) → verify (sign x) ≡ some x)
      → ((n : ℕ) → env.fails n ≡ false)
      → ((n : ℕ) (db : Db) → IsClient id db → IsClient id (env.others n db))
      → (resolve_client env verify sign token w).0 ≡ ok (id, some t)
      → (resolve_client env verify sign (some t) (resolve_client env verify sign token w).1).0
        ≡ ok (id, none)
  resolve_client-again token id t w round calm rely first =
      let (signed, _, known) = rw first at (resolve_client-IsSession token w) in
      let after = (resolve_client env verify sign token w).1 in
      let (c, found) = found_again id after calm rely known in
      resumed (some t) id c after (rw signed (round id)) found
