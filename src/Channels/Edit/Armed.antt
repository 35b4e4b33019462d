-- ===== src/Channels/Edit/Armed.antt =====
-- When `update` of handler/channels.rs has the provider send events to a channel.
use chatbridge.Prelude.{
  ◌≡◌, refl, String, Bool, true, false, Option, none, some, List, [], ◌∷◌, ◌++◌, ◌||◌, arith, Uuid,
  ◌⊎◌, inl, inr, any, Option-cases,
}
use chatbridge.Prelude.Results.{Result, ok, err}
use chatbridge.Model.{widget_spec, instagram_spec, telegram_spec}
use chatbridge.Db.{
  SqlError, Channel, unique_violation, foreign_key_violation, check_violation, row_not_found,
  unavailable,
}
use chatbridge.Db.Channels.{find_channel_by_id, update_channel}
use chatbridge.World.{Env, World, read_db, write_db, current}
use chatbridge.Channels.{AppError}
use chatbridge.Channels.Manage.{Site, ProviderCall, set_webhook, subscribe, invalidate_everywhere}
use chatbridge.Channels.Edit.{
  UpdateChannel, Plan, nothing, stays_alive, plan_widget, plan_instagram, replaced, plan_telegram,
  plan_spec, plan_restore, arm_again, committed, collided, after_update, apply_plan, with_existing,
  plan, update,
}
use chatbridge.Channels.Edit.Identity.{plan-Keeps}

-- The call asks the provider to send the channel's events.
abbrev pub arms : ProviderCall → Bool
arms (set_webhook _ _ _) = true
arms (subscribe _) = true
arms _ = false

any-append :
    {A : Type 0} (p : A → Bool) (xs ys : List A) → any p (xs ++ ys) ≡ (any p xs || any p ys)
any-append p [] ys = refl
any-append p (x ∷ xs) ys = ground (arith, any-append p xs ys)

module _ (site : Site) where
  dropped_widget :
      (existing : Channel) (key : String) (p : Plan)
      → plan_widget site existing key ≡ ok p
      → any arms p.dropped ≡ false
  unfolding plan_widget
  dropped_widget existing key p h = ground arith

  dropped_instagram :
      (existing : Channel) (restore : Bool) (token : String) (p : Plan)
      → plan_instagram site existing restore token ≡ ok p
      → any arms p.dropped ≡ false
  unfolding plan_instagram
  dropped_instagram existing restore token p h = ground arith

  dropped_telegram :
      (existing : Channel) (restore : Bool) (token : String) (p : Plan)
      → plan_telegram site existing restore token ≡ ok p
      → any arms p.dropped ≡ false
  unfolding plan_telegram replaced
  dropped_telegram existing restore token p h = ground arith

  -- While the plan is made, webhooks are only removed.
  plan-dropped :
      (existing : Channel) (body : UpdateChannel) (p : Plan)
      → plan site existing body ≡ ok p
      → any arms p.dropped ≡ false
  unfolding plan plan_restore plan_spec
  plan-dropped existing body p h = elim (Option-cases body.spec) [
    | inl e ↦ ground arith
    | inr (widget_spec key, e) ↦ dropped_widget existing key p (ground arith)
    | inr (instagram_spec token, e) ↦ dropped_instagram existing body.restore token p (ground arith)
    | inr (telegram_spec token, e) ↦ dropped_telegram existing body.restore token p (ground arith)
  ]

  module _ (env : Env) where
    committed-arms :
        (p : Plan) (updated : Channel) (w : World)
        → any arms p.dropped ≡ false
        → p.rearm ≡ nothing
        → any arms (committed site env p updated w).0.0 ≡ false
    unfolding committed arm_again invalidate_everywhere
    committed-arms p updated w quiet still =
        rw (still, committed, arm_again) (rw (any-append arms p.dropped [], quiet) refl)

    after_update-arms :
        (existing : Channel) (p : Plan) (r : Result SqlError (Option Channel)) (w : World)
        → any arms p.dropped ≡ false
        → p.rearm ≡ nothing
        → any arms (after_update site env existing p r w).0.0 ≡ false
    unfolding after_update collided
    after_update-arms existing p (ok (some updated)) w quiet still =
        committed-arms p updated w quiet still
    after_update-arms existing p (ok none) w quiet still = quiet
    after_update-arms existing p (err unique_violation) w quiet still = ground (arith, quiet)
    after_update-arms existing p (err foreign_key_violation) w quiet still = quiet
    after_update-arms existing p (err check_violation) w quiet still = quiet
    after_update-arms existing p (err row_not_found) w quiet still = quiet
    after_update-arms existing p (err unavailable) w quiet still = quiet

    apply_plan-arms :
        (id : Uuid) (body : UpdateChannel) (existing : Channel) (p : Result AppError Plan)
        (w : World)
        → plan site existing body ≡ p
        → any arms (apply_plan site env id body existing p w).0.0 ≡ true
        → stays_alive body.restore existing ≡ true
    unfolding apply_plan
    apply_plan-arms id body existing (err e) w planned h = absurd (ground arith)
    apply_plan-arms id body existing (ok p) w planned h =
        let wrote =
          write_db env (λ _ _. update_channel id body.name p.new_key p.new_config body.restore) w in
        elim (plan-Keeps site existing body p planned).1 [
          | inr alive ↦ alive
          | inl still ↦
              let quiet =
                after_update-arms existing p wrote.0 wrote.1 (plan-dropped existing body p planned)
                  still in
              absurd (ground (arith, quiet, h))
        ]

    of_row :
        (id : Uuid) (body : UpdateChannel) (r : Result SqlError (Option Channel)) (w : World)
        → any arms (with_existing site env id body r w).0.0 ≡ true
        → (existing : Channel) × (r ≡ ok (some existing))
          × (stays_alive body.restore existing ≡ true)
    unfolding with_existing
    of_row id body (err e) w h = absurd (ground arith)
    of_row id body (ok none) w h = absurd (ground arith)
    of_row id body (ok (some existing)) w h =
        (existing, refl, apply_plan-arms id body existing (plan site existing body) w refl h)

    read_existing :
        (id : Uuid) (existing : Channel) (w : World)
        → (read_db env (find_channel_by_id id) w).0 ≡ ok (some existing)
        → find_channel_by_id id (current env w) ≡ some existing
    unfolding read_db
    read_existing id existing w h = ground arith

    alive_or_restored :
        (restore : Bool) (existing : Channel)
        → stays_alive restore existing ≡ true
        → (restore ≡ true) ⊎ (existing.deleted_at ≡ none)
    alive_or_restored true existing h = inl refl
    alive_or_restored false existing h = inr (ground arith)

    -- If an edit asks the provider to send a channel's events, then the edit restores the channel, or the
    -- channel was not deleted when the edit read it: whatever the provider answers, and whatever other
    -- sessions commit.
    pub update-arms :
        (id : Uuid) (body : UpdateChannel) (w : World)
        → any arms (update site env id body w).0.0 ≡ true
        → (existing : Channel) × (find_channel_by_id id (current env w) ≡ some existing)
          × ((body.restore ≡ true) ⊎ (existing.deleted_at ≡ none))
    unfolding update
    update-arms id body w h =
        let looked = read_db env (find_channel_by_id id) w in
        let (existing, row, alive) = of_row id body looked.0 looked.1 h in
        (existing, read_existing id existing w row, alive_or_restored body.restore existing alive)
