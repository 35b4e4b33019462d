-- ===== src/Login/Stored.antt =====
-- The tables and the answer after a login has upserted an identity that a row has: `connect_account`
-- of handler/oauth.rs.
use chatbridge.Prelude.{
  ◌≡◌, ◌≢◌, refl, ℕ, suc, String, Bool, true, false, some, arith, Uuid, ◌==◌, find, find_sound,
  find-update, update, NoClash, Option-cases, Bool-cases, inl, inr, map_option, is_some,
  if◌then◌else◌,
}
use chatbridge.Prelude.Json.{Json}
use chatbridge.Prelude.Results.{Result, Result-cases, ok}
use chatbridge.Model.{ProviderKind}
use chatbridge.Db.{Db, SqlError, Channel}
use chatbridge.Db.Channels.{
  find_channel_by_id, find_channel_by_external_key, upsert_channel_by_external_key, has_key,
  reconnect,
}
use chatbridge.Db.Indexes.{same_identity}
use chatbridge.World.{Env, World, read_db, write_db, publish_invalidation}
use chatbridge.Channels.Manage.{invalidate_everywhere}
use chatbridge.Oauth.{Connected}
use chatbridge.Login.Identities.{one_identity}
use chatbridge.Login.{Outcome, announce, subscribe_connected, store_connected, upsert_connected}

module _ (env : Env) (show : SqlError → String)
    (subscribes : ProviderKind → Json → Result String (Unit {0}))
    (alone : (n : ℕ) (db : Db) → env.others n db ≡ db) where
  reported :
      (kind : ProviderKind) (restored : Bool) (c : Channel) (outcome : Outcome) (w : World)
      → (subscribe_connected env show subscribes kind restored (ok (c, false)) w).0 ≡ ok outcome
      → (outcome.channel_id ≡ some c.id)
        × ((subscribe_connected env show subscribes kind restored (ok (c, false)) w).1.db ≡ w.db)
  unfolding subscribe_connected announce invalidate_everywhere publish_invalidation
  reported kind restored c outcome w h = elim (Result-cases (subscribes kind c.config)) [
    | inl (_, e) ↦ (ground arith, rw (e, subscribe_connected) refl)
    | inr (reason, e) ↦ (ground arith, rw (e, subscribe_connected) refl)
  ]

  -- The tables after the upsert of an identity that a row has.
  abbrev reconnected : ProviderKind → Connected → Db → Db
  reconnected kind connected db = record db {
    channels =
        update (has_key kind connected.external_key) (reconnect connected.config) db.channels;
  }

  found_by_key :
      (kind : ProviderKind) (key : String) (w : World) (c : Channel)
      → find_channel_by_external_key kind key w.db ≡ some c
      → env.fails w.queries ≡ false
      → read_db env (find_channel_by_external_key kind key) w
        ≡ (ok (some c), record w { queries = suc w.queries })
  unfolding read_db
  found_by_key kind key w c found calm = rw (calm, alone w.queries w.db, found) refl

  upserted :
      (kind : ProviderKind) (connected : Connected) (w : World) (c : Channel) (id : Uuid)
      → find_channel_by_external_key kind connected.external_key w.db ≡ some c
      → env.fails w.queries ≡ false
      → write_db env
          (λ fresh now.
            upsert_channel_by_external_key id now kind connected.display_name connected.external_key
              connected.config)
          w
        ≡ (
          ok (reconnect connected.config c, false),
          record w { db = reconnected kind connected w.db; queries = suc w.queries },
        )
  unfolding write_db upsert_channel_by_external_key
  upserted kind connected w c id found calm =
      rw (calm, alone w.queries w.db) (rw (found, upsert_channel_by_external_key) refl)

  read_failed :
      (kind : ProviderKind) (connected : Connected) (outcome : Outcome) (w : World)
      → env.fails w.queries ≡ true
      → (upsert_connected env show subscribes kind connected w).0 ≢ ok outcome
  unfolding upsert_connected store_connected read_db
  read_failed kind connected outcome w e h = ground arith

  write_failed :
      (kind : ProviderKind) (connected : Connected) (outcome : Outcome) (c : Channel) (w : World)
      → env.fails w.queries ≡ true
      → (store_connected env show subscribes kind connected (ok (some c)) w).0 ≢ ok outcome
  unfolding store_connected subscribe_connected write_db
  write_failed kind connected outcome c w e h = ground arith

  stored_there :
      (kind : ProviderKind) (connected : Connected) (c : Channel) (outcome : Outcome) (w : World)
      → find_channel_by_external_key kind connected.external_key w.db ≡ some c
      → (store_connected env show subscribes kind connected (ok (some c)) w).0 ≡ ok outcome
      → (outcome.channel_id ≡ some c.id)
        × ((store_connected env show subscribes kind connected (ok (some c)) w).1.db
            ≡ reconnected kind connected w.db)
  unfolding store_connected
  stored_there kind connected c outcome w found h = elim (Bool-cases (env.fails w.queries)) [
    | inl e ↦ absurd (write_failed kind connected outcome c w e h)
    | inr e ↦
        let stored = upserted kind connected w c c.id found e in
        let (named, same) =
          reported kind (is_some c.deleted_at) (reconnect connected.config c) outcome
            (record w { db = reconnected kind connected w.db; queries = suc w.queries })
            (rw stored at h) in
        (named, rw stored same)
  ]

  -- The account's own row is reported, and is the only one that changed.
  pub upserted_there :
      (kind : ProviderKind) (connected : Connected) (c : Channel) (outcome : Outcome) (w : World)
      → find_channel_by_external_key kind connected.external_key w.db ≡ some c
      → (upsert_connected env show subscribes kind connected w).0 ≡ ok outcome
      → (outcome.channel_id ≡ some c.id)
        × ((upsert_connected env show subscribes kind connected w).1.db
            ≡ reconnected kind connected w.db)
  unfolding upsert_connected
  upserted_there kind connected c outcome w found h = elim (Bool-cases (env.fails w.queries)) [
    | inl e ↦ absurd (read_failed kind connected outcome w e h)
    | inr e ↦
        let read = found_by_key kind connected.external_key w c found e in
        rw read (
          stored_there kind connected c outcome (record w { queries = suc w.queries }) found
            (rw read at h))
  ]

  pub others_keep :
      (kind : ProviderKind) (connected : Connected) (pinned other : Uuid) (c : Channel) (db : Db)
      → NoClash same_identity db.channels
      → find_channel_by_external_key kind connected.external_key db ≡ some c
      → c.id ≡ pinned
      → other ≢ pinned
      → find_channel_by_id other (reconnected kind connected db) ≡ find_channel_by_id other db
  unfolding find_channel_by_id find_channel_by_external_key
  others_keep kind connected pinned other c db free found named differs =
      elim (Option-cases (find (λ (x : Channel). x.id == other) db.channels)) [
        | inl e ↦ ground (arith, swept)
        | inr (x, e) ↦ elim (Bool-cases (has_key kind connected.external_key x)) [
          | inr e' ↦ ground (arith, swept)
          | inl e' ↦
              let mine = one_identity kind connected.external_key other db.channels x free e e' in
              let sound = find_sound (λ (y : Channel). y.id == other) db.channels e in
              absurd (differs (ground arith))
        ]
      ]
    where
      swept :
          find (λ (x : Channel). x.id == other) (reconnected kind connected db).channels
          ≡ map_option
              (λ x.
                if has_key kind connected.external_key x then reconnect connected.config x else x)
              (find (λ (x : Channel). x.id == other) db.channels)
      swept =
          find-update (λ (x : Channel). x.id == other) (has_key kind connected.external_key)
            (reconnect connected.config) db.channels (λ x. refl)
