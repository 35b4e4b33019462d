-- ===== src/Refresh/Kept.antt =====
-- What one pass of the token refresher changes.
use chatbridge.Prelude.{
  ◌≡◌, refl, ℕ, String, false, Option, none, some, List, [], ◌∷◌, arith, Uuid, Instant, ◌==◌,
  find-update, map_option, inl, inr,
}
use chatbridge.Prelude.Json.{Json, null}
use chatbridge.Prelude.Results.{Result, Result-cases, ok, err}
use chatbridge.Model.{InstagramConfig, instagram}
use chatbridge.Db.{Db, Channel, SqlError}
use chatbridge.Db.Channels.{
  list_live_channels_by_provider, update_channel, find_channel_by_id, edit,
}
use chatbridge.World.{Env, World, read_db, write_db, publish_invalidation}
use chatbridge.World.Invariants.{Keeps, Keeps-bind, Keeps-read_db, Keeps-write_db}
use chatbridge.Oauth.{LongLivedToken}
use chatbridge.Provider.{utc_now}
use chatbridge.Channels.Manage.{invalidate_everywhere}
use chatbridge.Refresh.{
  due_channels, after_store, store_token, refresh_channel, refresh_all, refresh_listed,
  refresh_due_tokens,
}

-- Every column of a channel but its config, which is blanked.
abbrev pub identity : Channel → Channel
identity c = record c { config = null }

-- The channel of that id, if there is one, is that.
abbrev pub HasIdentity : Uuid → Option Channel → Db → Type 0
HasIdentity id expected db = map_option identity (find_channel_by_id id db) ≡ expected

edited-HasIdentity :
    (id other : Uuid) (expected : Option Channel) (blob : Json) (db db' : Db) (c : Option Channel)
    → HasIdentity id expected db
    → update_channel other none none (some blob) false db ≡ ok (db', c)
    → HasIdentity id expected db'
unfolding update_channel find_channel_by_id
edited-HasIdentity id other expected blob db db' c h k = ground (
  arith,
  find-update (λ (x : Channel). x.id == id) (λ x. x.id == other) (edit none none (some blob) false)
      db.channels (λ x. refl),
)

module _ (env : Env) (clock : ℕ → Instant) (refresh_token : String → Result String LongLivedToken)
    (to_json : InstagramConfig → Result String Json) (show : SqlError → String)
    (parse_config : Json → Result String InstagramConfig) (id : Uuid) (expected : Option Channel)
    (rely : (n : ℕ) (db : Db)
      → HasIdentity id expected db
      → HasIdentity id expected (env.others n db)) where
  after_store-Keeps :
      (other : Uuid) (r : Result SqlError (Option Channel))
      → Keeps
          (HasIdentity id expected)
          (after_store env clock refresh_token to_json show parse_config other r)
  unfolding after_store invalidate_everywhere publish_invalidation
  after_store-Keeps other (err e) w h = h
  after_store-Keeps other (ok c) w h = h

  store_token-Keeps :
      (other : Uuid) (blob : Result String Json)
      → Keeps
          (HasIdentity id expected)
          (store_token env clock refresh_token to_json show parse_config other blob)
  unfolding store_token
  store_token-Keeps other (err e) w h = h
  store_token-Keeps other (ok blob) w h =
      Keeps-bind (HasIdentity id expected)
        (write_db env (λ _ _. update_channel other none none (some blob) false))
        (after_store env clock refresh_token to_json show parse_config other)
        (Keeps-write_db (HasIdentity id expected) env rely
          (λ _ _. update_channel other none none (some blob) false)
          (λ _ _ db db' c h k. edited-HasIdentity id other expected blob db db' c h k))
        (after_store-Keeps other) w h

  refresh_channel-Keeps :
      (channel : Channel) (config : InstagramConfig)
      → Keeps
          (HasIdentity id expected)
          (refresh_channel env clock refresh_token to_json show parse_config channel config)
  unfolding refresh_channel utc_now
  refresh_channel-Keeps channel config w h =
      elim (Result-cases (refresh_token config.access_token)) [
        | inr (e, k) ↦ rw (k, refresh_channel) h
        | inl (fresh, k) ↦ rw (k, refresh_channel) (store_token-Keeps channel.id _ w h)
      ]

  refresh_all-Keeps :
      (due : List (Channel × InstagramConfig)) (counts : ℕ × ℕ)
      → Keeps
          (HasIdentity id expected)
          (refresh_all env clock refresh_token to_json show parse_config due counts)
  unfolding refresh_all
  refresh_all-Keeps [] counts w h = h
  refresh_all-Keeps ((channel, config) ∷ due) counts w h =
      refresh_all-Keeps due _ _ (refresh_channel-Keeps channel config w h)

  refresh_listed-Keeps :
      (r : Result SqlError (List Channel))
      → Keeps
          (HasIdentity id expected)
          (refresh_listed env clock refresh_token to_json show parse_config r)
  unfolding refresh_listed utc_now
  refresh_listed-Keeps (err e) w h = h
  refresh_listed-Keeps (ok channels) w h =
      refresh_all-Keeps (due_channels parse_config channels (clock w.queries)) (0, 0) w h

  -- A pass changes no column of a channel but its config, whatever Meta answers and whatever other
  -- sessions that keep the channel do between its statements.
  pub refresh_due_tokens-HasIdentity :
      (w : World)
      → HasIdentity id expected w.db
      → HasIdentity id expected
          (refresh_due_tokens env clock refresh_token to_json show parse_config w).1.db
  unfolding refresh_due_tokens
  refresh_due_tokens-HasIdentity =
      Keeps-bind (HasIdentity id expected) (read_db env (list_live_channels_by_provider instagram))
        (refresh_listed env clock refresh_token to_json show parse_config)
        (Keeps-read_db (HasIdentity id expected) env rely
          (list_live_channels_by_provider instagram))
        refresh_listed-Keeps
