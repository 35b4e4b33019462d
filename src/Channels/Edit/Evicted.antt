-- ===== src/Channels/Edit/Evicted.antt =====
-- What follows a committed edit, in `update` of handler/channels.rs.
use mathlib.Core.Path.{subst}
use chatbridge.Prelude.{
  ◌≡◌, ◌≢◌, refl, ap, String, Bool, Option, none, some, arith, Uuid, ◌⊎◌, inl, inr, Option-cases,
  find, find_sound, ◌==◌,
}
use chatbridge.Prelude.Json.{Json}
use chatbridge.Prelude.Map.{get, get-remove, uuid_same}
use chatbridge.Prelude.Results.{Result, Result-cases, ok, err}
use chatbridge.Model.{parse_provider, ChannelSpec, widget_spec, instagram_spec, telegram_spec}
use chatbridge.Db.{
  Db, SqlError, Channel, unique_violation, foreign_key_violation, check_violation, row_not_found,
  unavailable,
}
use chatbridge.Db.Channels.{find_channel_by_id, update_channel}
use chatbridge.Cache.{invalidate_channel}
use chatbridge.World.{Env, World, read_db, write_db, publish_invalidation, current}
use chatbridge.Channels.{
  AppError, forbidden, bad_request, not_found, internal, conflict, bad_gateway, conflict_body,
  validate_widget_id, validate_bot_token,
}
use chatbridge.Channels.Manage.{Site, ChannelView, invalidate_everywhere}
use chatbridge.Channels.Edit.{
  UpdateChannel, Plan, Answered, plan_widget, plan_instagram, plan_telegram, plan_spec,
  plan_restore, committed, collided, after_update, apply_plan, with_existing, plan, update,
}

-- The edit was made: the response shows it, or a provider refused what followed.
abbrev pub IsCommitted : Result AppError ChannelView → Type 0
IsCommitted (ok v) = Unit
IsCommitted (err (bad_gateway reason)) = Unit
IsCommitted (err _) = ⊥

-- A response that shows no edit, or a cache without the channel.
Cleared : Uuid → Answered × World → Type 0
Cleared id ((_, answer), w) = (IsCommitted answer → ⊥) ⊎ (get id w.caches.channels.by_id ≡ none)

updated_id :
    (id : Uuid) (name key : Option String) (config : Option Json) (restore : Bool) (db db' : Db)
    (c : Channel)
    → update_channel id name key config restore db ≡ ok (db', some c)
    → c.id ≡ id
unfolding update_channel find_channel_by_id
updated_id id name key config restore db db' c h =
    elim (Option-cases (find (λ (x : Channel). x.id == id) db.channels)) [
      | inl e ↦ absurd (ground arith)
      | inr (row, e) ↦ ground (arith, find_sound (λ (x : Channel). x.id == id) db.channels e)
    ]

module _ (site : Site) (env : Env) where
  committed-Cleared :
      (p : Plan) (updated : Channel) (w : World)
      → Cleared updated.id (committed site env p updated w)
  unfolding Cleared committed invalidate_everywhere publish_invalidation invalidate_channel
  committed-Cleared p updated w =
      inr (ground (arith, get-remove updated.id updated.id w.caches.channels.by_id))

  collided-Cleared :
      (id : Uuid) (existing : Channel) (p : Plan) (w : World)
      → Cleared id (collided site env existing p w)
  unfolding Cleared collided
  collided-Cleared id existing p w = elim (Option-cases (parse_provider existing.provider)) [
    | inl e ↦ rw (e, Cleared, collided) (inl (λ h. h))
    | inr (kind, e) ↦ rw (e, Cleared, collided) (inl (never (read_db env _ w).0))
  ]
    where
      never : (r : Result SqlError (Option Channel)) → IsCommitted (err (conflict_body env r)) → ⊥
      never (ok (some c)) h = h
      never (ok none) h = h
      never (err e) h = h

  after_update-Cleared :
      (id : Uuid) (existing : Channel) (p : Plan) (r : Result SqlError (Option Channel)) (w : World)
      → ((c : Channel) → r ≡ ok (some c) → c.id ≡ id)
      → Cleared id (after_update site env existing p r w)
  unfolding after_update
  after_update-Cleared id existing p (ok (some c)) w named =
      subst (λ i. Cleared i (committed site env p c w)) (named c refl) (committed-Cleared p c w)
  after_update-Cleared id existing p (ok none) w named = unfold Cleared in inl (λ h. h)
  after_update-Cleared id existing p (err unique_violation) w named =
      collided-Cleared id existing p w
  after_update-Cleared id existing p (err foreign_key_violation) w named =
      unfold Cleared in inl (λ h. h)
  after_update-Cleared id existing p (err check_violation) w named = unfold Cleared in inl (λ h. h)
  after_update-Cleared id existing p (err row_not_found) w named = unfold Cleared in inl (λ h. h)
  after_update-Cleared id existing p (err unavailable) w named = unfold Cleared in inl (λ h. h)

  wrote_id :
      (id : Uuid) (body : UpdateChannel) (p : Plan) (c : Channel) (w : World)
      → (write_db env (λ _ _. update_channel id body.name p.new_key p.new_config body.restore) w).0
        ≡ ok (some c)
      → c.id ≡ id
  unfolding write_db
  wrote_id id body p c w h =
      elim (Result-cases
        (update_channel id body.name p.new_key p.new_config body.restore (current env w))) [
          | inr (e, k) ↦ absurd (ground arith)
          | inl ((db', none), k) ↦ absurd (ground arith)
          | inl ((db', some row), k) ↦ ground (
            arith,
            updated_id id body.name p.new_key p.new_config body.restore (current env w) db' row k,
          )
        ]

  plan_widget_refusal :
      (existing : Channel) (widget_id reason : String)
      → plan_widget site existing widget_id ≢ err (bad_gateway reason)
  unfolding plan_widget validate_widget_id
  plan_widget_refusal existing widget_id reason h = ground arith

  plan_instagram_refusal :
      (existing : Channel) (restore : Bool) (token reason : String)
      → plan_instagram site existing restore token ≢ err (bad_gateway reason)
  unfolding plan_instagram
  plan_instagram_refusal existing restore token reason h = ground arith

  plan_telegram_refusal :
      (existing : Channel) (restore : Bool) (token reason : String)
      → plan_telegram site existing restore token ≢ err (bad_gateway reason)
  unfolding plan_telegram validate_bot_token
  plan_telegram_refusal existing restore token reason h = ground arith

  plan_spec_refusal :
      (existing : Channel) (restore : Bool) (spec : ChannelSpec) (reason : String)
      → plan_spec site existing restore spec ≢ err (bad_gateway reason)
  unfolding plan_spec
  plan_spec_refusal existing restore (widget_spec id) reason h =
      plan_widget_refusal existing id reason h
  plan_spec_refusal existing restore (instagram_spec token) reason h =
      plan_instagram_refusal existing restore token reason h
  plan_spec_refusal existing restore (telegram_spec token) reason h =
      plan_telegram_refusal existing restore token reason h

  plan_refusal :
      (existing : Channel) (body : UpdateChannel) (reason : String)
      → plan site existing body ≢ err (bad_gateway reason)
  unfolding plan plan_restore
  plan_refusal existing body reason h = elim (Option-cases body.spec) [
    | inl e ↦ ground arith
    | inr (spec, e) ↦ ground (arith, plan_spec_refusal existing body.restore spec reason)
  ]

  not_committed :
      (e : AppError) → ((reason : String) → e ≢ bad_gateway reason) → IsCommitted (err e) → ⊥
  not_committed (bad_gateway reason) other h = other reason refl
  not_committed (forbidden m) other h = h
  not_committed (bad_request m) other h = h
  not_committed (not_found m) other h = h
  not_committed (internal m) other h = h
  not_committed (conflict c i n d) other h = h

  apply_plan-Cleared :
      (id : Uuid) (body : UpdateChannel) (existing : Channel) (p : Result AppError Plan) (w : World)
      → ((reason : String) → p ≢ err (bad_gateway reason))
      → Cleared id (apply_plan site env id body existing p w)
  unfolding apply_plan
  apply_plan-Cleared id body existing (err e) w refused =
      unfold Cleared in inl (not_committed e (λ reason same. refused reason (ap err same)))
  apply_plan-Cleared id body existing (ok p) w refused =
      let wrote =
        write_db env (λ _ _. update_channel id body.name p.new_key p.new_config body.restore) w in
      after_update-Cleared id existing p wrote.0 wrote.1 (λ c. wrote_id id body p c w)

  with_existing-Cleared :
      (id : Uuid) (body : UpdateChannel) (r : Result SqlError (Option Channel)) (w : World)
      → Cleared id (with_existing site env id body r w)
  unfolding with_existing
  with_existing-Cleared id body (err e) w = unfold Cleared in inl (λ h. h)
  with_existing-Cleared id body (ok none) w = unfold Cleared in inl (λ h. h)
  with_existing-Cleared id body (ok (some existing)) w =
      apply_plan-Cleared id body existing (plan site existing body) w (plan_refusal existing body)

  -- After an edit that was made, whether or not the provider then took the new settings, the cache of
  -- this replica does not have the channel, whatever other sessions commit.
  pub update-evicts :
      (id : Uuid) (body : UpdateChannel) (w : World)
      → IsCommitted (update site env id body w).0.1
      → get id (update site env id body w).1.caches.channels.by_id ≡ none
  unfolding update Cleared
  update-evicts id body w made =
      let found = read_db env (find_channel_by_id id) w in
      elim (with_existing-Cleared id body found.0 found.1) [
        | inl never ↦ absurd (never made)
        | inr gone ↦ gone
      ]
