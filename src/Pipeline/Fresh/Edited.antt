-- ===== src/Pipeline/Fresh/Edited.antt =====
-- The channel cache when `update_channel` of db.rs has changed a row and the row's entry is evicted, as
-- `invalidate_everywhere` of channels.rs and the listener of cache.rs do.
use chatbridge.Prelude.{
  ◌≡◌, refl, Bool, true, false, Option, some, List, [], ◌∷◌, arith, eq_iff, Uuid, String, ◌==◌,
  ◌&&◌, not, find, find_sound, update, Option-cases, inl, inr,
}
use chatbridge.Prelude.Json.{Json}
use chatbridge.Prelude.Map.{
  get, uuid_same, ==_iff, get-remove, get-retain_eq, retain-HasDistinctKeys,
}
use chatbridge.Prelude.Results.{ok}
use chatbridge.Model.{ProviderKind, parse_provider, provider_name}
use chatbridge.Model.RoundTrip.{parse_provider-provider_name}
use chatbridge.Db.{Db, Channel}
use chatbridge.Db.Channels.{
  find_live_channel_by_id, find_live_channel_by_external_key, find_channel_by_id, update_channel,
  edit, is_live, has_key,
}
use chatbridge.Db.Indexes.{IsIndexed, update_channel-IsIndexed}
use chatbridge.Cache.{ChannelCache, invalidate_channel}
use chatbridge.Cache.Keys.{key_same}
use chatbridge.Pipeline.Fresh.{IsFresh, by_key_by_id, by_id_by_key}

-- A row that an update does not touch is found as before.
find-update_other :
    {A : Type 0} (q p : A → Bool) (f : A → A) (xs : List A)
    → ((x : A) → p x ≡ true → q x ≡ false)
    → ((x : A) → p x ≡ true → q (f x) ≡ false)
    → find q (update p f xs) ≡ find q xs
find-update_other q p f [] before after = refl
find-update_other q p f (x ∷ xs) before after =
    ground (arith, find-update_other q p f xs before after, before x, after x)

module _ (db db' : Db) (indexed : IsIndexed db) (indexed' : IsIndexed db') (id : Uuid)
    (kept : (j : Uuid)
      → (j == id) ≡ false
      → find_live_channel_by_id j db' ≡ find_live_channel_by_id j db) where
  -- A row that stays is found by its identity as well.
  key_kept :
      (kind : ProviderKind) (key : String) (ch : Channel)
      → (ch.id == id) ≡ false
      → find_live_channel_by_external_key kind key db ≡ some ch
      → find_live_channel_by_external_key kind key db' ≡ some ch
  unfolding find_live_channel_by_external_key
  key_kept kind key ch other h =
      let hit = find_sound (λ c. has_key kind key c && is_live c) db.channels h in
      let name : ch.provider ≡ provider_name kind =
        ground (arith, eq_iff ch.provider (provider_name kind)) in
      let same : ch.external_key ≡ key = ground (arith, eq_iff ch.external_key key) in
      let parsed : parse_provider ch.provider ≡ some kind =
        ground (arith, parse_provider-provider_name kind) in
      let row = by_key_by_id db indexed kind key ch h in
      let again = by_id_by_key db' indexed' ch.id kind ch parsed (ground (arith, kept ch.id)) in
      ground arith

  -- The cache that has forgotten the row is fresh for the new table.
  invalidate_channel-IsFresh :
      (cache : ChannelCache) → IsFresh db cache → IsFresh db' (invalidate_channel id cache)
  unfolding invalidate_channel
  invalidate_channel-IsFresh cache fresh = record {
    by_id = λ j ch h.
        ground
          (arith, get-remove id j cache.by_id, ==_iff id j, ==_iff j id, fresh.by_id j ch, kept j);
    by_key = λ kind key j h.
        let entry = get-retain_eq (λ v. not (v == id)) (kind, key) cache.ext_index fresh.distinct in
        elim (Option-cases (get (kind, key) cache.ext_index)) [
          | inl e ↦ absurd (ground (arith, h, e, entry))
          | inr (k, e) ↦
              let (ch, row, same) = fresh.by_key kind key k e in
              let stays : (k == id) ≡ false = ground (arith, h, e, entry) in
              let named : k ≡ j = ground (arith, h, e, entry, stays) in
              (
                ch,
                key_kept kind key ch (ground (arith, same, stays)) row,
                ground (arith, same, named),
              )
        ];
    distinct = retain-HasDistinctKeys (λ v. not (v == id)) cache.ext_index fresh.distinct;
  }

-- An edit that the table took changes only the row of that id, so the cache that forgets the entry of
-- that id, and no other, is fresh for the new table, while it was fresh for the old one and the
-- indexes hold.
pub update_channel-IsFresh :
    (id : Uuid) (name key : Option String) (config : Option Json) (restore : Bool) (db db' : Db)
    (result : Option Channel) (cache : ChannelCache)
    → IsIndexed db
    → IsFresh db cache
    → update_channel id name key config restore db ≡ ok (db', result)
    → IsFresh db' (invalidate_channel id cache)
unfolding update_channel find_live_channel_by_id
update_channel-IsFresh id name key config restore db db' result cache indexed fresh h =
    let indexed' = update_channel-IsIndexed db indexed id name key config restore db' result h in
    invalidate_channel-IsFresh db db' indexed indexed' id
      (λ j other.
        let same =
          find-update_other (λ (c : Channel). c.id == j && is_live c) (λ c. c.id == id)
            (edit name key config restore) db.channels (λ x p. ground arith)
            (λ x p. ground arith) in
        elim (Option-cases (find_channel_by_id id db)) [
          | inl e ↦ ground arith
          | inr (c, e) ↦ ground (arith, same)
        ])
      cache fresh
