-- ===== src/Pipeline/Fresh.antt =====
-- The read-through channel cache of cache.rs against the table that it caches.
pub mod Edited
use chatbridge.Prelude.{
  ◌≡◌, refl, String, Bool, true, false, Option, none, some, List, [], ◌∷◌, arith, eq_iff, Uuid,
  str_eq, ◌==◌, ◌&&◌, any, find, find_sound, NoClash, Option-cases, Bool-cases, inl, inr,
}
use chatbridge.Prelude.Map.{
  get, insert, uuid_same, get-insert, ==_iff, HasDistinctKeys, insert-HasDistinctKeys,
}
use chatbridge.Prelude.Results.{Result, ok, err}
use chatbridge.Model.{ProviderKind, parse_provider, provider_name}
use chatbridge.Model.RoundTrip.{parse_provider-provider_name, provider_name-parse_provider}
use chatbridge.Db.{Db, Channel, SqlError}
use chatbridge.Db.Channels.{
  find_live_channel_by_id, find_live_channel_by_external_key, is_live, has_key,
}
use chatbridge.Db.Indexes.{IsIndexed, same_channel, same_identity}
use chatbridge.Cache.{ChannelCache, Caches, cached_channel_by_key, insert_channel}
use chatbridge.Cache.Keys.{Key, key_same, same_key_iff}
use chatbridge.World.{Env, World, Io, read_db}
use chatbridge.Pipeline.Lookup.{
  get_channel_by_id, get_channel_by_external_key, read_through, fetch, remember_channel,
}

-- What a lookup of the cache answers, the table would answer. The index lists each key once.
pub record IsFresh (db : Db) (cache : ChannelCache) : Type 0 where
  pub by_id :
      (id : Uuid) (ch : Channel)
      → get id cache.by_id ≡ some ch
      → find_live_channel_by_id id db ≡ some ch
  pub by_key :
      (kind : ProviderKind) (key : String) (id : Uuid)
      → get (kind, key) cache.ext_index ≡ some id
      → (ch : Channel) × (find_live_channel_by_external_key kind key db ≡ some ch) × (ch.id ≡ id)
  pub distinct : HasDistinctKeys cache.ext_index

module _ {A : Type 0} where
  passes :
      (p r : A → Bool) (xs : List A) (a : A) → find p xs ≡ some a → any r xs ≡ false → r a ≡ false
  passes p r [] a h none_of = ground arith
  passes p r (x ∷ xs) a h none_of = ground (arith, passes p r xs a)

  -- A row that one selection finds is what another finds, where no two rows of the index meet that.
  found_again :
      (clash : A → A → Bool) (p q : A → Bool) (xs : List A) (a : A)
      → ((x y : A) → q x ≡ true → q y ≡ true → clash x y ≡ true)
      → NoClash clash xs
      → find p xs ≡ some a
      → q a ≡ true
      → find q xs ≡ some a
  found_again clash p q [] a both index h qa = h
  found_again clash p q (x ∷ xs) a both (here, later) h qa = elim (Bool-cases (p x)) [
    | inl e ↦ ground arith
    | inr e ↦ elim (Bool-cases (q x)) [
      | inl f ↦ ground (arith, passes p (clash x) xs a, both x a)
      | inr f ↦ ground (arith, found_again clash p q xs a both later)
    ]
  ]

module _ (db : Db) (indexed : IsIndexed db) where
  -- The channel that its identity finds is the one that its id finds.
  pub by_key_by_id :
      (kind : ProviderKind) (key : String) (ch : Channel)
      → find_live_channel_by_external_key kind key db ≡ some ch
      → find_live_channel_by_id ch.id db ≡ some ch
  unfolding find_live_channel_by_id find_live_channel_by_external_key
  by_key_by_id kind key ch h =
      let live = find_sound (λ c. has_key kind key c && is_live c) db.channels h in
      found_again same_channel (λ c. has_key kind key c && is_live c)
        (λ c. c.id == ch.id && is_live c) db.channels ch (λ x y hx hy. ground arith)
        indexed.channel_ids h (ground arith)

  -- And the other way round.
  pub by_id_by_key :
      (id : Uuid) (kind : ProviderKind) (ch : Channel)
      → parse_provider ch.provider ≡ some kind
      → find_live_channel_by_id id db ≡ some ch
      → find_live_channel_by_external_key kind ch.external_key db ≡ some ch
  unfolding find_live_channel_by_id find_live_channel_by_external_key
  by_id_by_key id kind ch parsed h =
      let live = find_sound (λ c. c.id == id && is_live c) db.channels h in
      let name = provider_name-parse_provider ch.provider kind parsed in
      found_again same_identity (λ c. c.id == id && is_live c)
        (λ c. has_key kind ch.external_key c && is_live c) db.channels ch
        (λ x y hx hy. ground (
          arith,
          eq_iff x.provider (provider_name kind),
          eq_iff y.provider (provider_name kind),
          eq_iff x.external_key ch.external_key,
          eq_iff y.external_key ch.external_key,
          eq_iff y.provider x.provider,
          eq_iff y.external_key x.external_key,
        ))
        indexed.identities h
        (ground
          (arith, eq_iff ch.provider (provider_name kind), eq_iff ch.external_key ch.external_key))

  module _ (cache : ChannelCache) (fresh : IsFresh db cache) where
    -- A cached identity gives the row of the table.
    pub cached_channel_by_key-row :
        (kind : ProviderKind) (key : String) (ch : Channel)
        → cached_channel_by_key (kind, key) cache ≡ some ch
        → find_live_channel_by_external_key kind key db ≡ some ch
    unfolding cached_channel_by_key
    cached_channel_by_key-row kind key ch h =
        elim (Option-cases (get (kind, key) cache.ext_index)) [
          | inl e ↦ ground arith
          | inr (id, e) ↦
              let (row, found, same) = fresh.by_key kind key id e in
              let again : get row.id cache.by_id ≡ some ch = ground arith in
              ground (arith, found, by_key_by_id kind key row found, fresh.by_id row.id ch again)
        ]

    -- Remembering a row of the table keeps the cache fresh.
    pub insert_channel-IsFresh :
        (ch : Channel)
        → find_live_channel_by_id ch.id db ≡ some ch
        → IsFresh db (insert_channel ch cache)
    unfolding insert_channel
    insert_channel-IsFresh ch row = record {
      by_id = λ id c h.
          ground (arith, get-insert ch.id id ch cache.by_id, ==_iff ch.id id, fresh.by_id id c);
      by_key = λ kind key id h. elim (Option-cases (parse_provider ch.provider)) [
        | inl e ↦ fresh.by_key kind key id (ground (arith, h, e))
        | inr (k, e) ↦ elim (Bool-cases (key_same.same (k, ch.external_key) (kind, key))) [
          | inl same ↦
              let entry = get-insert (k, ch.external_key) (kind, key) ch.id cache.ext_index in
              let pair = (same_key_iff (k, ch.external_key) (kind, key)).0 same in
              let stored = by_id_by_key ch.id k ch e row in
              (ch, ground (arith, pair, stored), ground (arith, h, e, entry, same))
          | inr other ↦
              let entry = get-insert (k, ch.external_key) (kind, key) ch.id cache.ext_index in
              fresh.by_key kind key id (ground (arith, h, e, entry, other))
        ]
      ];
      distinct = elim (Option-cases (parse_provider ch.provider)) [
        | inl e ↦ rw (e, insert_channel) fresh.distinct
        | inr (k, e) ↦
            rw (e, insert_channel)
              (insert-HasDistinctKeys (k, ch.external_key) ch.id cache.ext_index fresh.distinct)
      ];
    }

-- A lookup answers what the table would, changes no table and leaves the cache fresh.
abbrev pub Refines :
    {A : Type 0} → (Db → Option A) → Io (Result SqlError (Option A)) → World → Type 0
Refines query lookup w =
    ((lookup w).0 ≡ ok (query w.db))
    × ((lookup w).1.db ≡ w.db)
    × IsFresh w.db (lookup w).1.caches.channels

module _ (env : Env) (w : World) (indexed : IsIndexed w.db) (fresh : IsFresh w.db w.caches.channels)
    (alone : env.others w.queries w.db ≡ w.db) (answers : env.fails w.queries ≡ false) where
  read_through-Refines :
      (cached : Caches → Option Channel) (query : Db → Option Channel)
      → ((ch : Channel) → cached w.caches ≡ some ch → query w.db ≡ some ch)
      → ((ch : Channel) → query w.db ≡ some ch → find_live_channel_by_id ch.id w.db ≡ some ch)
      → Refines query (read_through env cached query remember_channel) w
  unfolding read_through read_db fetch
  read_through-Refines cached query hit row = elim (Option-cases (cached w.caches)) [
    | inl e ↦ elim (Option-cases (query w.db)) [
      | inl q ↦
          rw (e, read_through) (rw (answers, read_through) (rw (alone, q) (refl, refl, fresh)))
      | inr (ch, q) ↦
          rw (e, read_through)
            (rw (answers, read_through)
              (rw (alone, q)
                (
                  refl,
                  refl,
                  insert_channel-IsFresh w.db indexed w.caches.channels fresh ch (row ch q),
                )))
    ]
    | inr (ch, e) ↦ rw (e, read_through) (rw (hit ch e) (refl, refl, fresh))
  ]

  -- A channel looked up by its identity or by its id is what the table has, none if it has none, and
  -- the cache stays fresh: the indexes hold, the cache is fresh, the query does not fail and no other
  -- session comes between.
  pub get_channel-Refines :
      (kind : ProviderKind) (key : String) (id : Uuid)
      → Refines
          (find_live_channel_by_external_key kind key)
          (get_channel_by_external_key env kind key)
          w
        × Refines (find_live_channel_by_id id) (get_channel_by_id env id) w
  unfolding get_channel_by_external_key get_channel_by_id find_live_channel_by_id
  get_channel-Refines kind key id = (
    read_through-Refines (λ c. cached_channel_by_key (kind, key) c.channels)
        (find_live_channel_by_external_key kind key)
        (cached_channel_by_key-row w.db indexed w.caches.channels fresh kind key)
        (by_key_by_id w.db indexed kind key),
    read_through-Refines (λ c. get id c.channels.by_id) (find_live_channel_by_id id)
        (fresh.by_id id)
        (λ ch h.
          let hit = find_sound (λ c. c.id == id && is_live c) w.db.channels h in ground (arith, h)),
  )
