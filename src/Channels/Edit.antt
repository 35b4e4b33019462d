-- ===== src/Channels/Edit.antt =====
-- `update` of handler/channels.rs.
pub mod Evicted
pub mod Identity
pub mod Armed
use Prim.Native.String.{◌++◌ as append}
use chatbridge.Prelude.{
  String, Bool, Option, none, some, List, [], ◌∷◌, ◌++◌, Uuid, str_eq, ◌||◌, not, is_none,
  unwrap_or, if◌then◌else◌,
}
use chatbridge.Prelude.Json.{Json}
use chatbridge.Prelude.Results.{Result, ok, err}
use chatbridge.Model.{
  ChannelSpec, widget_spec, telegram_spec, instagram_spec, InstagramConfig, TelegramConfig,
  provider, provider_name, parse_provider,
}
use chatbridge.Db.{SqlError, Channel, unique_violation}
use chatbridge.Db.Channels.{find_channel_by_id, find_channel_by_external_key, update_channel}
use chatbridge.World.{Env, Io, pure, ◌>>=◌, ◌>>◌, read_db, write_db}
use chatbridge.Oauth.{Profile}
use chatbridge.Channels.{
  AppError, bad_request, bad_gateway, internal, not_found, of_sql, validate_widget_id,
  validate_bot_token, bot_config, BotInfo, conflict_body,
}
use chatbridge.Channels.Manage.{
  Site, ChannelView, view, endpoint_for, ProviderCall, set_webhook, delete_webhook, subscribe,
  pasted_config, invalidate_everywhere,
}

pub record UpdateChannel : Type 0 where
  pub name : Option String
  pub restore : Bool
  pub spec : Option ChannelSpec

pub data Rearm : Type 0 where
  nothing : Rearm
  telegram_webhook : (bot_token bot_secret : String) → Rearm
  instagram_subscription : Rearm

-- What an edit is to change, and what it did at the provider while it was read.
pub record Plan : Type 0 where
  pub new_key : Option String
  pub new_config : Option Json
  pub rearm : Rearm
  pub dropped : List ProviderCall

-- The channel ends the request alive.
abbrev pub stays_alive : Bool → Channel → Bool
stays_alive restore existing = restore || is_none existing.deleted_at

abbrev pub unchanged : Plan
unchanged = record { new_key = none; new_config = none; rearm = nothing; dropped = [] }

-- What the provider was asked for, and the response.
abbrev pub Answered : Type 0
Answered = List ProviderCall × Result AppError ChannelView

module _ (site : Site) where
  unfoldable pub plan_widget : Channel → String → Result AppError Plan
  plan_widget existing widget_id = elim (validate_widget_id widget_id) [
    | err e ↦ err e
    | ok _ ↦ ok (record unchanged {
      new_key = if not (str_eq widget_id existing.external_key) then some widget_id else none;
    })
  ]

  unfoldable pub plan_instagram : Channel → Bool → String → Result AppError Plan
  plan_instagram existing restore access_token =
      if site.is_blank access_token
      then err (bad_request "access_token must not be empty")
      else elim (site.fetch_profile access_token) [
        | err reason ↦ err (bad_request reason)
        | ok profile ↦
            if not (str_eq profile.user_id existing.external_key)
            then err (
                bad_request
                  "that token belongs to a different Instagram account; create a separate channel instead, because this channel's chats and messages belong to the current one")
            else ok (record unchanged {
              new_config = some (pasted_config site.instagram_json access_token profile);
              rearm = if stays_alive restore existing then instagram_subscription else nothing;
            })
      ]

  -- The webhook of a token that is replaced goes, which may fail.
  unfoldable pub replaced : Channel → Bool → String → TelegramConfig → Plan
  replaced existing restore bot_token old = record {
    new_key = none;
    new_config = some (bot_config bot_token old.bot_secret);
    rearm =
        if stays_alive restore existing then telegram_webhook bot_token old.bot_secret else nothing;
    dropped =
        if not (str_eq old.bot_token bot_token) then delete_webhook old.bot_token ∷ [] else [];
  }

  unfoldable pub plan_telegram : Channel → Bool → String → Result AppError Plan
  unfolding replaced
  plan_telegram existing restore bot_token = elim (validate_bot_token bot_token) [
    | err e ↦ err e
    | ok _ ↦ elim (site.get_me bot_token) [
      | err reason ↦ err (bad_request reason)
      | ok info ↦
          if not (str_eq info.id existing.external_key)
          then err (
              bad_request
                "that token belongs to a different bot; create a separate channel instead, because this channel's chats and messages belong to the current one")
          else elim (site.parse_telegram existing.config) [
            | err e ↦ err (internal (append "bad telegram config: " e))
            | ok old ↦ ok (replaced existing restore bot_token old)
          ]
    ]
  ]

  unfoldable pub plan_spec : Channel → Bool → ChannelSpec → Result AppError Plan
  unfolding plan_widget plan_instagram plan_telegram
  plan_spec existing restore (widget_spec widget_id) = plan_widget existing widget_id
  plan_spec existing restore (instagram_spec token) = plan_instagram existing restore token
  plan_spec existing restore (telegram_spec bot_token) = plan_telegram existing restore bot_token

  -- A restore with no new settings arms the channel again.
  unfoldable pub plan_restore : Channel → Result AppError Plan
  plan_restore existing =
      if str_eq existing.provider "telegram"
      then elim (site.parse_telegram existing.config) [
        | err e ↦ err (internal (append "bad telegram config: " e))
        | ok config ↦
            ok (record unchanged { rearm = telegram_webhook config.bot_token config.bot_secret })
      ]
      else if str_eq existing.provider "instagram"
      then ok (record unchanged { rearm = instagram_subscription })
      else ok unchanged

  unfoldable pub plan : Channel → UpdateChannel → Result AppError Plan
  unfolding plan_spec plan_restore
  plan existing body = elim body.spec [
    | some spec ↦
        if not (str_eq (provider_name (provider spec)) existing.provider)
        then err (
            bad_request (
              append "channel provider is '" (
                append existing.provider (
                  append "' and cannot be changed to '"
                    (append (provider_name (provider spec)) "'")))))
        else plan_spec existing body.restore spec
    | none ↦ if body.restore then plan_restore existing else ok unchanged
  ]

  -- What the provider is asked for once the edit has committed, and its refusal.
  unfoldable pub arm_again : Rearm → Channel → List ProviderCall × Option AppError
  arm_again nothing updated = ([], none)
  arm_again (telegram_webhook bot_token bot_secret) updated =
      let url = endpoint_for site.print_uuid site.base "telegram" updated.id updated.external_key in
      (
        set_webhook bot_token url bot_secret ∷ [],
        elim (site.sets_webhook bot_token url bot_secret) [
          | ok _ ↦ none
          | err reason ↦ some (bad_gateway (append "setWebhook failed: " reason))
        ],
      )
  arm_again instagram_subscription updated = (
    subscribe updated.config ∷ [],
    elim (site.subscribes updated.config) [
      | ok _ ↦ none
      | err reason ↦ some (bad_gateway (append "could not subscribe to events: " reason))
    ],
  )

  abbrev refused_or : Option AppError → ChannelView → Result AppError ChannelView
  refused_or (some e) v = err e
  refused_or none v = ok v

  module _ (env : Env) where
    -- The caches go whether or not the provider took the new settings.
    unfoldable pub committed : Plan → Channel → Io Answered
    unfolding arm_again invalidate_everywhere
    committed p updated = do
      let (calls, refusal) = arm_again p.rearm updated
      invalidate_everywhere env updated.id
      pure (p.dropped ++ calls, refused_or refusal (view site.print_uuid site.base updated))

    unfoldable pub collided : Channel → Plan → Io Answered
    unfolding conflict_body
    collided existing p = elim (parse_provider existing.provider) [
      | none ↦ pure (p.dropped, err (internal "unknown provider"))
      | some kind ↦ do
        other ←
            read_db env
              (find_channel_by_external_key kind (unwrap_or p.new_key existing.external_key))
        pure (p.dropped, err (conflict_body env other))
    ]

    unfoldable pub after_update : Channel → Plan → Result SqlError (Option Channel) → Io Answered
    unfolding committed collided
    after_update existing p (ok (some updated)) = committed p updated
    after_update existing p (ok none) = pure (p.dropped, err (not_found "channel not found"))
    after_update existing p (err unique_violation) = collided existing p
    after_update existing p (err e) = pure (p.dropped, err (of_sql e))

    unfoldable pub apply_plan : Uuid → UpdateChannel → Channel → Result AppError Plan → Io Answered
    unfolding after_update
    apply_plan id body existing (err e) = pure ([], err e)
    apply_plan id body existing (ok p) =
        write_db env (λ _ _. update_channel id body.name p.new_key p.new_config body.restore)
        >>= after_update existing p

    unfoldable pub with_existing :
        Uuid → UpdateChannel → Result SqlError (Option Channel) → Io Answered
    unfolding plan apply_plan
    with_existing id body (err e) = pure ([], err (of_sql e))
    with_existing id body (ok none) = pure ([], err (not_found "channel not found"))
    with_existing id body (ok (some existing)) = apply_plan id body existing (plan existing body)

    -- `update`, with what it asked the provider for.
    unfoldable pub update : Uuid → UpdateChannel → Io Answered
    unfolding with_existing
    update id body = read_db env (find_channel_by_id id) >>= with_existing id body
