-- ===== src/Channels/Edit/Identity.antt =====
-- What `update` of handler/channels.rs may change of a channel, and when it arms it.
use chatbridge.Prelude.{
  ◌≡◌, ◌∙◌, refl, sym, ap, ℕ, String, Bool, true, Option, none, some, arith, Uuid, ◌⊎◌, inl, inr,
  Option-cases, Bool-cases, eq_iff,
}
use chatbridge.Prelude.Results.{Result, ok, err}
use chatbridge.Model.{provider, provider_name, widget_spec, instagram_spec, telegram_spec}
use chatbridge.Db.{
  Db, SqlError, Channel, unique_violation, foreign_key_violation, check_violation, row_not_found,
  unavailable,
}
use chatbridge.Db.Channels.{find_channel_by_id, update_channel, edit}
use chatbridge.World.{Env, World, read_db, write_db}
use chatbridge.Channels.{AppError}
use chatbridge.Channels.Manage.{Site, ChannelView, view, invalidate_everywhere}
use chatbridge.Channels.Edit.{
  UpdateChannel, Plan, nothing, stays_alive, plan_widget, plan_instagram, replaced, plan_telegram,
  plan_spec, plan_restore, committed, collided, after_update, apply_plan, with_existing, plan,
  update,
}

-- The plan keeps the identity, or gives a widget a new one.
abbrev pub KeepsKey : Channel → UpdateChannel → Plan → Type 0
KeepsKey existing body p =
    (p.new_key ≡ none)
    ⊎ ((key : String) × (existing.provider ≡ "widget")
        × (body.spec ≡ some (widget_spec key))
        × (p.new_key ≡ some key))

-- The plan arms only a channel that is alive after it.
abbrev pub ArmsAlive : Channel → UpdateChannel → Plan → Type 0
ArmsAlive existing body p = (p.rearm ≡ nothing) ⊎ (stays_alive body.restore existing ≡ true)

module _ (site : Site) where
  widget_key :
      (existing : Channel) (key : String) (p : Plan)
      → plan_widget site existing key ≡ ok p
      → ((p.new_key ≡ none) ⊎ (p.new_key ≡ some key)) × (p.rearm ≡ nothing)
  unfolding plan_widget
  widget_key existing key p h = ground arith

  instagram_key :
      (existing : Channel) (restore : Bool) (token : String) (p : Plan)
      → plan_instagram site existing restore token ≡ ok p
      → (p.new_key ≡ none) × ((p.rearm ≡ nothing) ⊎ (stays_alive restore existing ≡ true))
  unfolding plan_instagram
  instagram_key existing restore token p h = ground arith

  telegram_key :
      (existing : Channel) (restore : Bool) (token : String) (p : Plan)
      → plan_telegram site existing restore token ≡ ok p
      → (p.new_key ≡ none) × ((p.rearm ≡ nothing) ⊎ (stays_alive restore existing ≡ true))
  unfolding plan_telegram replaced
  telegram_key existing restore token p h = ground arith

  pub plan-Keeps :
      (existing : Channel) (body : UpdateChannel) (p : Plan)
      → plan site existing body ≡ ok p
      → KeepsKey existing body p × ArmsAlive existing body p
  unfolding plan plan_restore plan_spec provider provider_name
  plan-Keeps existing body p h = elim (Option-cases body.spec) [
    | inl e ↦ (
      inl (ground arith),
      elim (Bool-cases body.restore) [ inl e' ↦ inr (rw e' refl) | inr e' ↦ inl (ground arith) ],
    )
    | inr (widget_spec key, e) ↦
        let (changed, still) = widget_key existing key p (ground arith) in
        let is_widget : existing.provider ≡ "widget" =
          ground (arith, eq_iff "widget" existing.provider) in
        (
          elim changed [ inl same ↦ inl same | inr given ↦ inr (key, is_widget, e, given) ],
          inl still,
        )
    | inr (instagram_spec token, e) ↦
        let (kept, alive) = instagram_key existing body.restore token p (ground arith) in
        (inl kept, alive)
    | inr (telegram_spec token, e) ↦
        let (kept, alive) = telegram_key existing body.restore token p (ground arith) in
        (inl kept, alive)
  ]

  -- The channel of a response is the edited one.
  abbrev pub IsEdit : Channel → UpdateChannel → ChannelView → Type 0
  IsEdit existing body v =
      (v.id ≡ existing.id)
      × (v.provider ≡ existing.provider)
      × ((v.external_key ≡ existing.external_key)
          ⊎ ((existing.provider ≡ "widget") × (body.spec ≡ some (widget_spec v.external_key))))

  edit-IsEdit :
      (existing : Channel) (body : UpdateChannel) (p : Plan)
      → KeepsKey existing body p
      → IsEdit existing body (
          view site.print_uuid site.base
            (edit body.name p.new_key p.new_config body.restore existing))
  unfolding view
  edit-IsEdit existing body p (inl kept) = (refl, refl, inl (rw kept refl))
  edit-IsEdit existing body p (inr (key, is_widget, spec, changed)) =
      (refl, refl, inr (is_widget, rw (changed, spec) refl))

  module _ (env : Env) (alone : (n : ℕ) (db : Db) → env.others n db ≡ db) where
    -- A view is that of the row that the statement returned.
    viewed :
        (existing : Channel) (p : Plan) (r : Result SqlError (Option Channel)) (v : ChannelView)
        (w : World)
        → (after_update site env existing p r w).0.1 ≡ ok v
        → (c : Channel) × (r ≡ ok (some c)) × (v ≡ view site.print_uuid site.base c)
    unfolding after_update committed collided invalidate_everywhere
    viewed existing p (ok (some c)) v w h = (c, refl, ground arith)
    viewed existing p (ok none) v w h = absurd (ground arith)
    viewed existing p (err unique_violation) v w h = absurd (ground arith)
    viewed existing p (err foreign_key_violation) v w h = absurd (ground arith)
    viewed existing p (err check_violation) v w h = absurd (ground arith)
    viewed existing p (err row_not_found) v w h = absurd (ground arith)
    viewed existing p (err unavailable) v w h = absurd (ground arith)

    written :
        (id : Uuid) (body : UpdateChannel) (existing c : Channel) (p : Plan) (w : World)
        → find_channel_by_id id w.db ≡ some existing
        → (write_db env
            (λ _ _. update_channel id body.name p.new_key p.new_config body.restore)
            w).0
          ≡ ok (some c)
        → c ≡ edit body.name p.new_key p.new_config body.restore existing
    unfolding write_db update_channel
    written id body existing c p w found h = ground (arith, alone w.queries w.db)

    of_update :
        (id : Uuid) (body : UpdateChannel) (existing : Channel) (p : Result AppError Plan)
        (v : ChannelView) (w : World)
        → find_channel_by_id id w.db ≡ some existing
        → ((q : Plan) → p ≡ ok q → KeepsKey existing body q)
        → (apply_plan site env id body existing p w).0.1 ≡ ok v
        → IsEdit existing body v
    unfolding apply_plan
    of_update id body existing (err e) v w found keeps h = absurd (ground arith)
    of_update id body existing (ok p) v w found keeps h =
        let wrote =
          write_db env (λ _ _. update_channel id body.name p.new_key p.new_config body.restore) w in
        let (c, returned, shown) = viewed existing p wrote.0 v wrote.1 h in
        rw (shown, written id body existing c p w found returned)
          (edit-IsEdit existing body p (keeps p refl))

    of_existing :
        (id : Uuid) (body : UpdateChannel) (r : Result SqlError (Option Channel)) (v : ChannelView)
        (w : World)
        → ((e : Channel) → r ≡ ok (some e) → find_channel_by_id id w.db ≡ some e)
        → (with_existing site env id body r w).0.1 ≡ ok v
        → (existing : Channel) × (find_channel_by_id id w.db ≡ some existing)
          × IsEdit existing body v
    unfolding with_existing
    of_existing id body (err e) v w found h = absurd (ground arith)
    of_existing id body (ok none) v w found h = absurd (ground arith)
    of_existing id body (ok (some existing)) v w found h = (
      existing,
      found existing refl,
      of_update id body existing (plan site existing body) v w (found existing refl)
          (λ q planned. (plan-Keeps existing body q planned).0) h,
    )

    read_row :
        (id : Uuid) (e : Channel) (w : World)
        → (read_db env (find_channel_by_id id) w).0 ≡ ok (some e)
        → find_channel_by_id id (read_db env (find_channel_by_id id) w).1.db ≡ some e
    unfolding read_db
    read_row id e w h = ground arith

    read_keeps : (id : Uuid) (w : World) → (read_db env (find_channel_by_id id) w).1.db ≡ w.db
    unfolding read_db
    read_keeps id w = alone w.queries w.db

    -- With no other session between its statements, an edit that is answered with a channel shows the
    -- channel of that id, of the provider that it had, and with the identity that it had or, if that
    -- provider is the widget's, the one that the request gives it.
    pub update-IsEdit :
        (id : Uuid) (body : UpdateChannel) (v : ChannelView) (w : World)
        → (update site env id body w).0.1 ≡ ok v
        → (existing : Channel) × (find_channel_by_id id w.db ≡ some existing)
          × IsEdit existing body v
    unfolding update
    update-IsEdit id body v w h =
        let looked = read_db env (find_channel_by_id id) w in
        let (existing, found, edited) =
          of_existing id body looked.0 v looked.1 (λ e returned. read_row id e w returned) h in
        (existing, ap (find_channel_by_id id) (sym (read_keeps id w)) ∙ found, edited)
