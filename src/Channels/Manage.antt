-- ===== src/Channels/Manage.antt =====
-- handler/channels.rs: what the settings panel sees of a channel, and the handlers that create and
-- delete one. What a provider answers is a parameter; whether a text is blank is the standard
-- library's `trim`.
pub mod Deleted
use Prim.Native.String.{◌++◌ as append}
use chatbridge.Prelude.{
  String, Bool, Option, none, some, List, [], ◌∷◌, Uuid, Instant, str_eq, unwrap_or, if◌then◌else◌,
  ℕ,
}
use chatbridge.Prelude.Json.{Json, object, end}
use chatbridge.Prelude.Prefixes.{replace_first}
use chatbridge.Prelude.Results.{Result, ok, err}
use chatbridge.Model.{
  ChannelSpec, widget_spec, telegram_spec, instagram_spec, InstagramConfig, TelegramConfig, widget,
  instagram,
}
use chatbridge.Db.{SqlError, Channel}
use chatbridge.Db.Channels.{hard_delete_channel, soft_delete_channel}
use chatbridge.Cache.{invalidate_channel}
use chatbridge.World.{Env, Io, pure, ◌>>=◌, ◌>>◌, write_db, total, publish_invalidation}
use chatbridge.Pipeline.Lookup.{caching}
use chatbridge.Oauth.{Profile, account_name}
use chatbridge.Channels.{
  AppError, bad_request, bad_gateway, internal, of_sql, validate_widget_id, insert_or_conflict,
  BotInfo, create_telegram,
}

-- `endpoint_for`
unfoldable pub endpoint_for :
    (Uuid → String) → (base provider : String) → Uuid → (external_key : String) → String
endpoint_for print_uuid base provider id external_key =
    if str_eq provider "telegram"
    then append base (append "/webhook/telegram/" (print_uuid id))
    else if str_eq provider "widget"
    then append (replace_first "http://" "ws://" (replace_first "https://" "wss://" base))
        (append "/ws/" external_key)
    else append base "/webhook/instagram"

pub record ChannelView : Type 0 where
  pub id : Uuid
  pub provider : String
  pub name : String
  pub external_key : String
  pub config : Json
  pub endpoint : String
  pub deleted_at : Option Instant
  pub created_at : Instant

-- `ChannelView::new`
unfoldable pub view : (Uuid → String) → String → Channel → ChannelView
view print_uuid base ch = record {
  id = ch.id;
  provider = ch.provider;
  name = ch.name;
  external_key = ch.external_key;
  config = ch.config;
  endpoint = endpoint_for print_uuid base ch.provider ch.id ch.external_key;
  deleted_at = ch.deleted_at;
  created_at = ch.created_at;
}

pub record CreateChannel : Type 0 where
  pub name : Option String
  pub spec : ChannelSpec

-- What a provider is asked for, beside the questions that change nothing there.
pub data ProviderCall : Type 0 where
  set_webhook : (bot_token url bot_secret : String) → ProviderCall
  delete_webhook : (bot_token : String) → ProviderCall
  subscribe : (config : Json) → ProviderCall
  unsubscribe : (config : Json) → ProviderCall

-- What the handlers call and this repository does not define: the answers of the providers, the JSON of
-- a config, the text of a UUID, and the configured base of the public URLs.
pub record Site : Type 0 where
  pub is_blank : String → Bool
  pub fetch_profile : String → Result String Profile
  pub get_me : String → Result String BotInfo
  pub sets_webhook : (bot_token url bot_secret : String) → Result String (Unit {0})
  pub subscribes : Json → Result String (List String)
  pub instagram_json : InstagramConfig → Json
  pub parse_telegram : Json → Result String TelegramConfig
  pub print_uuid : Uuid → String
  pub base : String

-- The config of a token that was pasted: its expiry is not known.
abbrev pub pasted_config : (InstagramConfig → Json) → String → Profile → Json
pasted_config to_json access_token profile =
    to_json
      (record { access_token = access_token; token_expires_at = none; username = profile.username })

module _ (env : Env) where
  -- `invalidate_everywhere`
  unfoldable pub invalidate_everywhere : Uuid → Io (Unit {0})
  invalidate_everywhere id = do
    caching (λ c. record c { channels = invalidate_channel id c.channels })
    publish_invalidation env "channel" id

  module _ (site : Site) where
    -- After the INSERT: the account is subscribed, and the row goes again if that fails.
    unfoldable pub subscribe_new : Result AppError Channel → Io (Result AppError Channel)
    subscribe_new (err e) = pure (err e)
    subscribe_new (ok channel) = elim (site.subscribes channel.config) [
      | ok _ ↦ pure (ok channel)
      | err reason ↦ do
        _ ← write_db env (λ _ _. hard_delete_channel channel.id)
        pure (err (bad_gateway (append "could not subscribe to events: " reason)))
    ]

    -- `create_instagram`, over the channel id that it draws.
    unfoldable pub create_instagram : Uuid → Option String → String → Io (Result AppError Channel)
    unfolding subscribe_new
    create_instagram channel_id name access_token =
        if site.is_blank access_token
        then pure (err (bad_request "access_token must not be empty"))
        else elim (site.fetch_profile access_token) [
          | err reason ↦ pure (err (bad_request reason))
          | ok profile ↦
              insert_or_conflict env channel_id instagram (unwrap_or name (account_name profile))
                profile.user_id (pasted_config site.instagram_json access_token profile)
              >>= subscribe_new
        ]

    unfoldable pub create_widget : Uuid → Option String → String → Io (Result AppError Channel)
    create_widget channel_id name widget_id = elim (validate_widget_id widget_id) [
      | err e ↦ pure (err e)
      | ok _ ↦
          insert_or_conflict env channel_id widget (unwrap_or name widget_id) widget_id (object end)
    ]

    unfoldable pub create_by_spec :
        Uuid → String → Option String → ChannelSpec → Io (Result AppError Channel)
    unfolding create_instagram create_widget
    create_by_spec id secret name (widget_spec widget_id) = create_widget id name widget_id
    create_by_spec id secret name (instagram_spec token) = create_instagram id name token
    create_by_spec id secret name (telegram_spec bot_token) =
        create_telegram env site.get_me site.sets_webhook
          (λ new_id. endpoint_for site.print_uuid site.base "telegram" new_id "") id secret name
          bot_token

    unfoldable pub announce_created :
        Result AppError Channel → Io (Result AppError (ℕ × ChannelView))
    unfolding invalidate_everywhere
    announce_created (err e) = pure (err e)
    announce_created (ok channel) = do
      invalidate_everywhere channel.id
      pure (ok (201, view site.print_uuid site.base channel))

    -- `create`, over the id and the secret that it draws.
    unfoldable pub create : Uuid → String → CreateChannel → Io (Result AppError (ℕ × ChannelView))
    unfolding create_by_spec announce_created
    create id secret body = create_by_spec id secret body.name body.spec >>= announce_created

    -- What `delete` asks the provider for; the answer is only logged.
    unfoldable pub disarm : Channel → List ProviderCall
    disarm channel =
        if str_eq channel.provider "telegram"
        then elim (site.parse_telegram channel.config) [
          | err _ ↦ []
          | ok config ↦ delete_webhook config.bot_token ∷ []
        ]
        else if str_eq channel.provider "instagram"
        then unsubscribe channel.config ∷ []
        else []

    unfoldable pub deleted :
        Uuid → Result SqlError (Option Channel) → Io (List ProviderCall × Result AppError ℕ)
    unfolding disarm invalidate_everywhere
    deleted id (err e) = pure ([], err (of_sql e))
    deleted id (ok none) = pure ([], ok 204)
    deleted id (ok (some channel)) = do invalidate_everywhere id; pure (disarm channel, ok 204)

    -- `delete`, with what it asked the provider for.
    unfoldable pub delete_channel : Uuid → Io (List ProviderCall × Result AppError ℕ)
    unfolding deleted
    delete_channel id = write_db env (λ _ now. total (soft_delete_channel id now)) >>= deleted id
