-- ===== src/Login/Pinned.antt =====
-- A login that was started from a channel, in handler/oauth.rs.
use mathlib.Core.Path.{subst}
use chatbridge.Prelude.{
  ◌≡◌, ◌≢◌, ◌∙◌, refl, sym, ap, ℕ, String, true, Option, none, some, arith, Uuid, ◌==◌, find_sound,
  NoClash, Option-cases, Bool-cases, inl, inr,
}
use chatbridge.Prelude.Json.{Json}
use chatbridge.Prelude.Results.{Result, Result-cases, ok, err}
use chatbridge.Model.{ProviderKind, parse_provider}
use chatbridge.Db.{Db, SqlError, Channel}
use chatbridge.Db.Channels.{find_channel_by_id, find_channel_by_external_key, has_key}
use chatbridge.Db.Indexes.{same_identity}
use chatbridge.World.{Env, World, read_db}
use chatbridge.Oauth.{Connected, OAuthState, verify_state, supports}
use chatbridge.Login.Identities.{one_identity}
use chatbridge.Login.{
  Outcome, CallbackQuery, upsert_connected, is_pinned, if_pinned, connect_account, with_state,
  with_provider, connect,
}
use chatbridge.Login.Stored.{upserted_there, others_keep}

module _ (env : Env) (show : SqlError → String)
    (subscribes : ProviderKind → Json → Result String (Unit {0}))
    (alone : (n : ℕ) (db : Db) → env.others n db ≡ db) where
  pinned_row :
      (kind : ProviderKind) (connected : Connected) (pinned : Uuid) (w : World)
      (r : Result SqlError (Option Channel))
      → is_pinned env show subscribes kind connected r ≡ ok tt
      → (c : Channel) × (r ≡ ok (some c)) × (has_key kind connected.external_key c ≡ true)
  unfolding is_pinned
  pinned_row kind connected pinned w (err e) h = absurd (ground arith)
  pinned_row kind connected pinned w (ok none) h = absurd (ground arith)
  pinned_row kind connected pinned w (ok (some c)) h = (c, refl, ground arith)

  looked_up :
      (pinned : Uuid) (c : Channel) (w : World)
      → (read_db env (find_channel_by_id pinned) w).0 ≡ ok (some c)
      → find_channel_by_id pinned (read_db env (find_channel_by_id pinned) w).1.db ≡ some c
  unfolding read_db
  looked_up pinned c w h = ground arith

  unread : (pinned : Uuid) (w : World) → (read_db env (find_channel_by_id pinned) w).1.db ≡ w.db
  unfolding read_db
  unread pinned w = alone w.queries w.db

  pinned_id :
      (pinned : Uuid) (c : Channel) (db : Db)
      → find_channel_by_id pinned db ≡ some c
      → c.id ≡ pinned
  unfolding find_channel_by_id
  pinned_id pinned c db h =
      let sound = find_sound (λ (x : Channel). x.id == pinned) db.channels h in ground arith

  -- The upsert, after the check.
  checked :
      (kind : ProviderKind) (connected : Connected) (pinned other : Uuid) (c : Channel)
      (outcome : Outcome) (w : World)
      → NoClash same_identity w.db.channels
      → find_channel_by_id pinned w.db ≡ some c
      → has_key kind connected.external_key c ≡ true
      → other ≢ pinned
      → (upsert_connected env show subscribes kind connected w).0 ≡ ok outcome
      → (outcome.channel_id ≡ some pinned)
        × (find_channel_by_id other (upsert_connected env show subscribes kind connected w).1.db
            ≡ find_channel_by_id other w.db)
  unfolding find_channel_by_id find_channel_by_external_key
  checked kind connected pinned other c outcome w free found same differs h =
      let key = one_identity kind connected.external_key pinned w.db.channels c free found same in
      let (named, became) =
        upserted_there env show subscribes alone kind connected c outcome w key h in
      let mine = pinned_id pinned c w.db found in
      (
        named ∙ ap some mine,
        ap (find_channel_by_id other) became
            ∙ others_keep env show subscribes alone kind connected pinned other c w.db free key mine
                differs,
      )

  connect_account-pinned :
      (kind : ProviderKind) (connected : Connected) (pinned other : Uuid) (outcome : Outcome)
      (w : World)
      → NoClash same_identity w.db.channels
      → other ≢ pinned
      → (connect_account env show subscribes kind (some pinned) connected w).0 ≡ ok outcome
      → (outcome.channel_id ≡ some pinned)
        × (find_channel_by_id other
              (connect_account env show subscribes kind (some pinned) connected w).1.db
            ≡ find_channel_by_id other w.db)
  unfolding connect_account if_pinned
  connect_account-pinned kind connected pinned other outcome w free differs h =
      let looked = read_db env (find_channel_by_id pinned) w in
      elim (Result-cases (is_pinned env show subscribes kind connected looked.0)) [
        | inr (e, k) ↦ absurd (ground arith)
        | inl (_, k) ↦
            let (c, returned, same) = pinned_row kind connected pinned w looked.0 k in
            let unmoved = unread pinned w in
            let (named, kept) =
              checked kind connected pinned other c outcome looked.1
                (subst (λ db. NoClash same_identity db.channels) (sym unmoved) free)
                (looked_up pinned c w returned) same differs (ground arith) in
            (named, rw (k, if_pinned) (kept ∙ ap (find_channel_by_id other) unmoved))
      ]

  module _ (decode_state : String → Result String OAuthState)
      (exchange : ProviderKind → String → Result String Connected) where
    -- What a login that succeeds came down to.
    exchanged :
        (name token : String) (query : CallbackQuery) (outcome : Outcome) (w : World)
        → query.state ≡ some token
        → (connect env show subscribes decode_state exchange name query w).0 ≡ ok outcome
        → (kind : ProviderKind) × (claims : OAuthState) × (connected : Connected) × (decode_state
              token
            ≡ ok claims)
          × (connect env show subscribes decode_state exchange name query w
              ≡ connect_account env show subscribes kind claims.ch connected w)
    unfolding connect with_provider with_state verify_state
    exchanged name token query outcome w state h = elim (Option-cases query.error) [
      | inr (e, k) ↦ absurd (ground arith)
      | inl k ↦ elim (Option-cases (parse_provider name)) [
        | inl k1 ↦ absurd (ground arith)
        | inr (kind, k1) ↦ elim (Bool-cases (supports kind)) [
          | inr k2 ↦ absurd (ground arith)
          | inl k2 ↦ elim (Result-cases (decode_state token)) [
            | inr (e, k3) ↦ absurd (ground arith)
            | inl (claims, k3) ↦ elim (Option-cases query.code) [
              | inl k4 ↦ absurd (ground arith)
              | inr (code, k4) ↦ elim (Result-cases (exchange kind code)) [
                | inr (e, k5) ↦ absurd (ground arith)
                | inl (connected, k5) ↦ (kind, claims, connected, k3, ground arith)
              ]
            ]
          ]
        ]
      ]
    ]

    -- A login that was started from a channel, and succeeds, reports that channel and leaves every other
    -- channel as it was, with no other session between its statements, while the index on identities
    -- holds.
    pub connect-pinned :
        (name token : String) (query : CallbackQuery) (claims : OAuthState) (pinned other : Uuid)
        (outcome : Outcome) (w : World)
        → NoClash same_identity w.db.channels
        → query.state ≡ some token
        → decode_state token ≡ ok claims
        → claims.ch ≡ some pinned
        → other ≢ pinned
        → (connect env show subscribes decode_state exchange name query w).0 ≡ ok outcome
        → (outcome.channel_id ≡ some pinned)
          × (find_channel_by_id other
                (connect env show subscribes decode_state exchange name query w).1.db
              ≡ find_channel_by_id other w.db)
    connect-pinned name token query claims pinned other outcome w free state decoded from differs
          h =
        let (kind, claims', connected, decoded', same) =
          exchanged name token query outcome w state h in
        let named : claims'.ch ≡ some pinned = ground arith in
        let led = same ∙ ap (λ ch. connect_account env show subscribes kind ch connected w) named in
        rw led (
          connect_account-pinned kind connected pinned other outcome w free differs
            (sym (ap (λ r. r.0) led) ∙ h))
