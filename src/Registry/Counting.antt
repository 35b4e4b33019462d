-- ===== src/Registry/Counting.antt =====
-- How `register`, `deregister` and `send_to` of registry.rs change what is connected.
use chatbridge.Prelude.{
  ℕ, String, ◌≡◌, refl, ◌+◌, ◌<◌, Bool, true, none, some, [], ◌∷◌, arith, Uuid, is_some, ◌==◌,
  Option-cases, inl, inr, All, length, unwrap_or, if◌then◌else◌, map_option, ◌&&◌,
}
use chatbridge.Prelude.Map.{
  Map, get, insert, remove, map_values, uuid_same, get-remove, get-insert, get-map_values,
  HasDistinctKeys, remove_absent,
}
use chatbridge.Registry.{
  Registry, Connections, entry, register, deregister, close, send_to, is_empty, count_all,
  connection_count,
}
use chatbridge.Registry.Invariant.{IsValid}

module _ {T : Type 0} where
  length-remove :
      (k : ℕ) (conns : Connections T)
      → HasDistinctKeys conns
      → length (remove k conns) + (if is_some (get k conns) then 1 else 0) ≡ length conns
  unfolding remove get
  length-remove k [] h = refl
  length-remove k ((j, t) ∷ cs) (fresh, h) =
      ground (arith, length-remove k cs h, remove_absent k cs)

  count_all-remove :
      (id : Uuid) (m : Map Uuid (Connections T))
      → HasDistinctKeys m
      → count_all (remove id m) + length (unwrap_or (get id m) []) ≡ count_all m
  unfolding count_all remove get
  count_all-remove id [] h = refl
  count_all-remove id ((j, cs) ∷ m) (fresh, h) =
      ground (arith, count_all-remove id m h, remove_absent id m)

  count_all-insert :
      (id : Uuid) (cs : Connections T) (m : Map Uuid (Connections T))
      → HasDistinctKeys m
      → count_all (insert id cs m) + length (unwrap_or (get id m) []) ≡ count_all m + length cs
  unfolding count_all insert
  count_all-insert id cs m h = omega (arith, count_all-remove id m h)

  -- No connection of the identity has the counter's value yet.
  unissued : (n : ℕ) (conns : Connections T) → All (λ c. c.0 < n) conns → get n conns ≡ none
  unfolding get
  unissued n [] h = refl
  unissued n ((j, t) ∷ cs) (here, later) = ground (arith, unissued n cs later)

  entry_unissued : (r : Registry T) (id : Uuid) → IsValid r → get r.next_id (entry id r) ≡ none
  unfolding get
  entry_unissued r id v = elim (Option-cases (get id r.connections)) [
    | inl e ↦ rw e refl
    | inr (conns, e) ↦ rw e (unissued r.next_id conns (v.groups id conns e).issued)
  ]

  -- Registering adds exactly one connection to a valid registry.
  pub connection_count-register :
      (tx : T) (r : Registry T) (id : Uuid) (is_operator : Bool)
      → IsValid r
      → connection_count (register tx r id is_operator).0 ≡ connection_count r + 1
  unfolding register connection_count insert
  connection_count-register tx r id is_operator v = ground (
    arith,
    count_all-remove id r.connections v.identities,
    remove_absent r.next_id (entry id r) (entry_unissued r id v),
  )

  length_of_empty : (cs : Connections T) → is_empty cs ≡ true → length cs ≡ 0
  length_of_empty [] h = refl
  length_of_empty (c ∷ cs) h = ground arith

  -- The connection is live: a later `send_to` reaches it.
  abbrev pub is_live : Registry T → Uuid → ℕ → Bool
  is_live r id conn_id = is_some (get conn_id (entry id r))

  -- Deregistering lowers the number of connections by one if the named one is live, and leaves it
  -- otherwise. The registry is valid.
  pub connection_count-deregister :
      (r : Registry T) (id : Uuid) (conn_id : ℕ)
      → IsValid r
      → connection_count (deregister r id conn_id) + (if is_live r id conn_id then 1 else 0)
        ≡ connection_count r
  unfolding deregister connection_count insert get
  connection_count-deregister r id conn_id v = elim (Option-cases (get id r.connections)) [
    | inl e ↦ ground arith
    | inr (conns, e) ↦ ground (
      arith,
      length-remove conn_id conns (v.groups id conns e).distinct,
      count_all-remove id r.connections v.identities,
      length_of_empty (remove conn_id conns),
    )
  ]

  entry-insert :
      (r : Registry T) (id j : Uuid) (cs : Connections T)
      → unwrap_or (get j (insert id cs r.connections)) [] ≡ (if id == j then cs else entry j r)
  entry-insert r id j cs = ground (arith, get-insert id j cs r.connections)

  -- What `register` makes live: its own connection.
  pub get-register :
      (tx : T) (r : Registry T) (id : Uuid) (is_operator : Bool) (j : Uuid) (k : ℕ)
      → get k (entry j (register tx r id is_operator).0)
        ≡ (if id == j && r.next_id == k then some tx else get k (entry j r))
  unfolding register
  get-register tx r id is_operator j k = ground (
    arith,
    entry-insert r id j (insert r.next_id tx (entry id r)),
    get-insert r.next_id k tx (entry id r),
  )

  get_of_empty : (k : ℕ) (cs : Connections T) → is_empty cs ≡ true → get k cs ≡ none
  unfolding get
  get_of_empty k [] h = refl
  get_of_empty k (c ∷ cs) h = ground arith

  get_nil : (k : ℕ) → get k (let cs : Connections T = [] in cs) ≡ none
  unfolding get
  get_nil k = refl

  get-close :
      (r : Registry T) (id : Uuid) (rest : Connections T) (j : Uuid) (k : ℕ)
      → get k (entry j (close r id rest)) ≡ (if id == j then get k rest else get k (entry j r))
  unfolding close
  get-close r id rest j k = ground (
    arith,
    entry-insert r id j rest,
    get-remove id j r.connections,
    get_of_empty k rest,
    get_nil k,
  )

  -- What `deregister` ends: the connection that it names, and no other.
  pub get-deregister :
      (r : Registry T) (id : Uuid) (conn_id : ℕ) (j : Uuid) (k : ℕ)
      → get k (entry j (deregister r id conn_id))
        ≡ (if id == j && conn_id == k then none else get k (entry j r))
  unfolding deregister
  get-deregister r id conn_id j k = elim (Option-cases (get id r.connections)) [
    | inl e ↦ rw (e, deregister) (ground (arith, get_nil k))
    | inr (conns, e) ↦
        rw (e, deregister)
          (ground (arith, get-close r id (remove conn_id conns) j k, get-remove conn_id k conns))
  ]

  -- Sending to an identity hands the payload to each of its connections, and leaves those of every
  -- other identity alone.
  pub get-send_to :
      (try_send : T → String → T) (r : Registry T) (id : Uuid) (payload : String) (j : Uuid)
      (conn_id : ℕ)
      → get conn_id (entry j (send_to try_send r id payload)) ≡ (
          if id == j
          then map_option (λ tx. try_send tx payload) (get conn_id (entry j r))
          else get conn_id (entry j r))
  unfolding send_to
  get-send_to try_send r id payload j conn_id = elim (Option-cases (get id r.connections)) [
    | inl e ↦ rw (e, send_to) (ground (arith, get_nil conn_id))
    | inr (conns, e) ↦
        rw (e, send_to)
          (ground (
            arith,
            entry-insert r id j (map_values (λ tx. try_send tx payload) conns),
            get-map_values (λ tx. try_send tx payload) conn_id conns,
          ))
  ]
