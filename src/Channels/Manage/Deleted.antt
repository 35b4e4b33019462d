-- ===== src/Channels/Manage/Deleted.antt =====
-- `delete` of handler/channels.rs.
use chatbridge.Prelude.{
  ◌≡◌, refl, false, none, List, [], ◌∷◌, arith, Uuid, Instant, ◌⊎◌, inl, inr, ◌==◌, ◌&&◌, find,
  update, Option-cases,
}
use chatbridge.Prelude.Map.{get, get-remove, uuid_same}
use chatbridge.Prelude.Results.{ok}
use chatbridge.Db.{Channel}
use chatbridge.Db.Channels.{
  find_channel_by_id, find_live_channel_by_id, soft_delete_channel, mark_deleted, is_live,
}
use chatbridge.Cache.{invalidate_channel}
use chatbridge.World.{Env, World, write_db, publish_invalidation, current}
use chatbridge.Channels.Manage.{Site, deleted, delete_channel, invalidate_everywhere}

-- No row of that id is live after the statement.
none_live :
    (id : Uuid) (now : Instant) (cs : List Channel)
    → find (λ c. c.id == id && is_live c) (update (λ c. c.id == id) (mark_deleted now) cs) ≡ none
none_live id now [] = refl
none_live id now (c ∷ cs) = ground (arith, none_live id now cs)

module _ (env : Env) (site : Site) where
  -- While Postgres answers, a delete answers 204, whether or not there was such a channel and whatever
  -- the provider says: afterwards no row of that id is live, and this replica has it in no cache if
  -- there is a row at all.
  pub delete_channel-gone :
      (id : Uuid) (w : World)
      → env.fails w.queries ≡ false
      → let after = delete_channel env site id w in
        (after.0.1 ≡ ok 204)
        × (find_live_channel_by_id id after.1.db ≡ none)
        × ((find_channel_by_id id (current env w) ≡ none)
            ⊎ (get id after.1.caches.channels.by_id ≡ none))
  unfolding delete_channel deleted write_db soft_delete_channel find_channel_by_id
      find_live_channel_by_id invalidate_everywhere publish_invalidation invalidate_channel
  delete_channel-gone id w calm =
      elim (Option-cases (find (λ (c : Channel). c.id == id) (current env w).channels)) [
        | inl e ↦ (
          ground arith,
          ground (arith, none_live id (env.now w.queries) (current env w).channels),
          inl e,
        )
        | inr (c, e) ↦ (
          ground arith,
          ground (arith, none_live id (env.now w.queries) (current env w).channels),
          inr (ground (arith, get-remove id id w.caches.channels.by_id)),
        )
      ]
