-- ===== src/Registry/Invariant.antt =====
-- What holds of the registry after any calls, from registry.rs.
use chatbridge.Prelude.{
  ℕ, String, ◌≡◌, refl, ◌+◌, ◌<◌, ◌^◌, Bool, true, false, some, [], ◌∷◌, arith, Uuid, is_some, ◌==◌,
  Option-cases, Bool-cases, inl, inr, All, ◌≤◌, ◌%◌, ◌∙◌,
}
use chatbridge.Prelude.Map.{
  Map, get, insert, remove, map_values, uuid_same, get-remove, get-insert, HasDistinctKeys,
  remove-HasDistinctKeys, insert-HasDistinctKeys, map_values-HasDistinctKeys,
}
use chatbridge.Registry.{Registry, Connections, new, entry, register, deregister, send_to, is_empty}

next_id_fits : (n : ℕ) → n + 1 < 2 ^ 64 → (n + 1) % 2 ^ 64 ≡ n + 1
next_id_fits n h = omega arith

module _ {T : Type 0} where
  -- One identity's connections: not empty, each id once, and each below the counter.
  pub record IsGroup (next_id : ℕ) (conns : Connections T) : Type 0 where
    pub live : is_empty conns ≡ false
    pub distinct : HasDistinctKeys conns
    pub issued : All (λ c. c.0 < next_id) conns

  -- Every group is one, identities are listed once, and only an identity with a connection is in
  -- the operator set.
  pub record IsValid (r : Registry T) : Type 0 where
    pub identities : HasDistinctKeys r.connections
    pub groups :
        (id : Uuid) (conns : Connections T)
        → get id r.connections ≡ some conns
        → IsGroup r.next_id conns
    pub operators :
        (id : Uuid) → is_some (get id r.operator_ids) ≡ true → is_some (get id r.connections) ≡ true

  pub new-IsValid : IsValid (new {T = T})
  unfolding get
  new-IsValid = record {
    identities = tt;
    groups = λ id conns h. ground arith;
    operators = λ id h. ground arith;
  }

  issued_mono :
      (m n : ℕ) (conns : Connections T)
      → m ≤ n
      → All (λ c. c.0 < m) conns
      → All (λ c. c.0 < n) conns
  issued_mono m n [] le h = tt
  issued_mono m n (c ∷ cs) le (here, later) = (omega arith, issued_mono m n cs le later)

  issued-remove :
      (n k : ℕ) (conns : Connections T)
      → All (λ c. c.0 < n) conns
      → All (λ c. c.0 < n) (remove k conns)
  unfolding remove
  issued-remove n k [] h = tt
  issued-remove n k (c ∷ cs) (here, later) = ground (arith, issued-remove n k cs later)

  issued-map_values :
      (n : ℕ) (f : T → T) (conns : Connections T)
      → All (λ c. c.0 < n) conns
      → All (λ c. c.0 < n) (map_values f conns)
  unfolding map_values
  issued-map_values n f [] h = tt
  issued-map_values n f (c ∷ cs) (here, later) = (here, issued-map_values n f cs later)

  is_empty-map_values :
      (f : T → T) (conns : Connections T) → is_empty (map_values f conns) ≡ is_empty conns
  unfolding map_values
  is_empty-map_values f [] = refl
  is_empty-map_values f (c ∷ cs) = refl

  IsGroup-mono : {m n : ℕ} {conns : Connections T} → m ≤ n → IsGroup m conns → IsGroup n conns
  IsGroup-mono {m} {n} {conns} le g = record {
    live = g.live;
    distinct = g.distinct;
    issued = issued_mono m n conns le g.issued;
  }

  -- What `entry` gives may be empty, and is otherwise a group.
  entry-distinct : (r : Registry T) (id : Uuid) → IsValid r → HasDistinctKeys (entry id r)
  entry-distinct r id v = elim (Option-cases (get id r.connections)) [
    | inl e ↦ rw e tt
    | inr (conns, e) ↦ rw e ((v.groups id conns e).distinct)
  ]

  entry-issued : (r : Registry T) (id : Uuid) → IsValid r → All (λ c. c.0 < r.next_id) (entry id r)
  entry-issued r id v = elim (Option-cases (get id r.connections)) [
    | inl e ↦ rw e tt
    | inr (conns, e) ↦ rw e ((v.groups id conns e).issued)
  ]

  -- Groups in a map that is changed at one identity.
  groups-insert :
      (n : ℕ) (id : Uuid) (group : Connections T) (m : Map Uuid (Connections T))
      → IsGroup n group
      → ((j : Uuid) (conns : Connections T) → get j m ≡ some conns → IsGroup n conns)
      → (j : Uuid) (conns : Connections T) → get j (insert id group m) ≡ some conns
      → IsGroup n conns
  groups-insert n id group m g old j conns h = elim (Bool-cases (id == j)) [
    | inl same ↦ let e : group ≡ conns = ground (arith, get-insert id j group m) in rw (← e) g
    | inr other ↦ old j conns (ground (arith, get-insert id j group m))
  ]

  registered-IsGroup :
      (tx : T) (r : Registry T) (id : Uuid)
      → r.next_id + 1 < 2 ^ 64
      → IsValid r
      → IsGroup ((r.next_id + 1) % 2 ^ 64) (insert r.next_id tx (entry id r))
  unfolding insert
  registered-IsGroup tx r id room v = rw (next_id_fits r.next_id room) (record {
    live = refl;
    distinct =
        unfold insert in insert-HasDistinctKeys r.next_id tx (entry id r) (entry-distinct r id v);
    issued = (
      omega arith,
      issued_mono r.next_id (r.next_id + 1) (remove r.next_id (entry id r)) (omega arith)
          (issued-remove r.next_id r.next_id (entry id r) (entry-issued r id v)),
    );
  })

  -- Registering keeps the registry valid, while the 64-bit counter does not wrap.
  pub register-IsValid :
      (tx : T) (r : Registry T) (id : Uuid) (is_operator : Bool)
      → r.next_id + 1 < 2 ^ 64
      → IsValid r
      → IsValid (register tx r id is_operator).0
  unfolding register
  register-IsValid tx r id is_operator room v =
      let grown : r.next_id ≤ (r.next_id + 1) % 2 ^ 64 = omega arith in
      record {
        identities = insert-HasDistinctKeys id _ r.connections v.identities;
        groups =
            groups-insert _ id _ r.connections (registered-IsGroup tx r id room v)
              (λ j conns h. IsGroup-mono grown (v.groups j conns h));
        operators = λ j h. ground (
          arith,
          v.operators j,
          get-insert id j (insert r.next_id tx (entry id r)) r.connections,
          get-insert id j tt r.operator_ids,
        );
      }

  -- Deregistering keeps the registry valid, whatever identity and connection it names.
  pub deregister-IsValid :
      (r : Registry T) (id : Uuid) (conn_id : ℕ) → IsValid r → IsValid (deregister r id conn_id)
  unfolding deregister
  deregister-IsValid r id conn_id v = elim (Option-cases (get id r.connections)) [
    | inl e ↦ rw (e, deregister) v
    | inr (conns, e) ↦ elim (Bool-cases (is_empty (remove conn_id conns))) [
      | inl last ↦
          rw (e, deregister)
            (rw (last, deregister)
              (record {
                identities = remove-HasDistinctKeys id r.connections v.identities;
                groups = λ j cs h. v.groups j cs (ground (arith, get-remove id j r.connections));
                operators = λ j h. ground (
                  arith,
                  v.operators j,
                  get-remove id j r.connections,
                  get-remove id j r.operator_ids,
                );
              }))
      | inr more ↦
          rw (e, deregister)
            (rw (more, deregister)
              (record {
                identities = insert-HasDistinctKeys id _ r.connections v.identities;
                groups =
                    groups-insert r.next_id id _ r.connections
                      (record {
                        live = more;
                        distinct =
                            remove-HasDistinctKeys conn_id conns (v.groups id conns e).distinct;
                        issued = issued-remove r.next_id conn_id conns (v.groups id conns e).issued;
                      })
                      v.groups;
                operators = λ j h.
                    ground
                      (arith, v.operators j, get-insert id j (remove conn_id conns) r.connections);
              }))
    ]
  ]

  -- Sending keeps the registry valid.
  pub send_to-IsValid :
      (try_send : T → String → T) (r : Registry T) (id : Uuid) (payload : String)
      → IsValid r
      → IsValid (send_to try_send r id payload)
  unfolding send_to
  send_to-IsValid try_send r id payload v = elim (Option-cases (get id r.connections)) [
    | inl e ↦ rw (e, send_to) v
    | inr (conns, e) ↦
        rw (e, send_to)
          (record {
            identities = insert-HasDistinctKeys id _ r.connections v.identities;
            groups =
                groups-insert r.next_id id _ r.connections
                  (record {
                    live = (is_empty-map_values _ conns) ∙ (v.groups id conns e).live;
                    distinct = map_values-HasDistinctKeys _ conns (v.groups id conns e).distinct;
                    issued = issued-map_values r.next_id _ conns (v.groups id conns e).issued;
                  })
                  v.groups;
            operators = λ j h. ground (
              arith,
              v.operators j,
              get-insert id j (map_values (λ tx. try_send tx payload) conns) r.connections,
            );
          })
  ]
