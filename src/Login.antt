-- ===== src/Login.antt =====
-- handler/oauth.rs: the login of a provider from the settings panel. The exchange with the provider
-- and the JSON of the outcome are parameters.
pub mod Escape
pub mod Identities
pub mod Stored
pub mod Pinned
use Prim.Native.Char.{Char, code}
use Prim.Native.String.{◌++◌ as append}
use chatbridge.Prelude.{
  ℕ, String, Bool, true, false, Option, none, some, Uuid, str_eq, ◌==◌, not, is_some, unwrap_or,
  and_then, map_option, if◌then◌else◌,
}
use chatbridge.Prelude.Json.{Json}
use chatbridge.Prelude.Results.{Result, ok, err}
use chatbridge.Model.{ProviderKind, parse_provider, provider_name}
use chatbridge.Db.{SqlError, Channel}
use chatbridge.Db.Channels.{
  find_channel_by_id, find_channel_by_external_key, upsert_channel_by_external_key,
  hard_delete_channel,
}
use chatbridge.World.{Env, Io, pure, ◌>>=◌, ◌>>◌, read_db, write_db}
use chatbridge.Channels.{AppError, not_found, internal}
use chatbridge.Channels.Manage.{invalidate_everywhere}
use chatbridge.Oauth.{Connected, OAuthState, supports, verify_state}

-- `oauth_provider`
unfoldable pub oauth_provider : String → Result AppError ProviderKind
unfolding supports
oauth_provider name =
    let missing = not_found (append "no OAuth login for '" (append name "'")) in
    elim (parse_provider name) [
      | none ↦ err missing
      | some kind ↦ if not (supports kind) then err missing else ok kind
    ]

-- `start`: where the popup is sent, over the state that it signs and the URL that it builds.
unfoldable pub start :
    (sign : ProviderKind → Option Uuid → String)
    (authorize_url : ProviderKind → String → Result String String)
    → String
    → Option Uuid
    → Result AppError String
unfolding oauth_provider
start sign authorize_url name channel_id = elim (oauth_provider name) [
  | err e ↦ err e
  | ok kind ↦ elim (authorize_url kind (sign kind channel_id)) [
    | err e ↦ err (internal e)
    | ok url ↦ ok url
  ]
]

pub record Outcome : Type 0 where
  pub provider : String
  pub ok : Bool
  pub channel_id : Option Uuid
  pub name : Option String
  pub created : Bool
  pub restored : Bool
  pub warning : Option String
  pub error : Option String

-- `Outcome::failed`
unfoldable pub failed : String → String → Outcome
failed provider message = record {
  provider = provider;
  ok = false;
  channel_id = none;
  name = none;
  created = false;
  restored = false;
  warning = none;
  error = some message;
}

pub record CallbackQuery : Type 0 where
  pub code : Option String
  pub state : Option String
  pub error : Option String
  pub error_description : Option String

abbrev account_hint : String
account_hint =
    ". If you changed the Meta app, that is the same Instagram account under a new app-scoped id — connect it as a new channel instead of reconnecting this one."

-- `format!("database error: {e}")`
abbrev database_error : (SqlError → String) → SqlError → String
database_error show e = append "database error: " (show e)

module _ (env : Env) (show : SqlError → String)
    (subscribes : ProviderKind → Json → Result String (Unit {0})) where
  abbrev connected_outcome : ProviderKind → Channel → Bool → Bool → Option String → Outcome
  connected_outcome kind channel inserted restored warning = record {
    provider = provider_name kind;
    ok = true;
    channel_id = some channel.id;
    name = some channel.name;
    created = inserted;
    restored = restored;
    warning = warning;
    error = none;
  }

  -- The upsert's row is announced, with what is to be said of it.
  unfoldable pub announce :
      ProviderKind → Channel → Bool → Bool → Option String → Io (Result String Outcome)
  announce kind channel inserted restored warning = do
    invalidate_everywhere env channel.id
    pure (ok (connected_outcome kind channel inserted restored warning))

  -- A row that this login inserted goes again if the account could not be subscribed; one that was
  -- there stays.
  unfoldable pub subscribe_connected :
      ProviderKind → Bool → Result SqlError (Channel × Bool) → Io (Result String Outcome)
  unfolding announce
  subscribe_connected kind restored (err e) = pure (err (database_error show e))
  subscribe_connected kind restored (ok (channel, inserted)) =
      elim (subscribes kind channel.config) [
        | ok _ ↦ announce kind channel inserted restored none
        | err reason ↦
            if inserted
            then (do
              _ ← write_db env (λ _ _. hard_delete_channel channel.id)
              pure (err (append "could not subscribe to events: " reason)))
            else announce kind channel inserted restored (
                some (
                  append "connected, but subscribing to events failed: "
                    (append reason ". Use \"Check connection\".")))
      ]

  abbrev id_or : Option Channel → Uuid → Uuid
  id_or (some c) fresh = c.id
  id_or none fresh = fresh

  abbrev was_deleted : Option Channel → Bool
  was_deleted before = is_some (and_then before (λ c. c.deleted_at))

  unfoldable pub store_connected :
      ProviderKind → Connected → Result SqlError (Option Channel) → Io (Result String Outcome)
  unfolding subscribe_connected
  store_connected kind connected (err e) = pure (err (database_error show e))
  store_connected kind connected (ok before) =
      write_db env (λ fresh now.
        upsert_channel_by_external_key (id_or before fresh) now kind connected.display_name
          connected.external_key connected.config)
      >>= subscribe_connected kind (was_deleted before)

  -- `connect`, from the upsert on.
  unfoldable pub upsert_connected : ProviderKind → Connected → Io (Result String Outcome)
  unfolding store_connected
  upsert_connected kind connected =
      read_db env (find_channel_by_external_key kind connected.external_key)
      >>= store_connected kind connected

  -- Whether the channel that the login was started from is that of the account.
  unfoldable pub is_pinned :
      ProviderKind → Connected → Result SqlError (Option Channel) → Result String (Unit {0})
  is_pinned kind connected (err e) = err (database_error show e)
  is_pinned kind connected (ok none) =
      err "the channel this login was started from no longer exists"
  is_pinned kind connected (ok (some existing)) =
      if not (str_eq existing.provider (provider_name kind))
      then err (
          append "that channel is a '" (
            append existing.provider (append "' channel, not '" (append (provider_name kind) "'"))))
      else if not (str_eq existing.external_key connected.external_key)
      then err (
          append "the login returned account " (
            append connected.display_name (
              append " with id " (
                append connected.external_key (
                  append ", but this channel is connected to id "
                    (append existing.external_key account_hint))))))
      else ok tt

  unfoldable pub if_pinned :
      ProviderKind → Connected → Result String (Unit {0}) → Io (Result String Outcome)
  unfolding upsert_connected
  if_pinned kind connected (err e) = pure (err e)
  if_pinned kind connected (ok _) = upsert_connected kind connected

  -- `connect`, once the account is known.
  unfoldable pub connect_account :
      ProviderKind → Option Uuid → Connected → Io (Result String Outcome)
  unfolding is_pinned if_pinned upsert_connected
  connect_account kind none connected = upsert_connected kind connected
  connect_account kind (some pinned) connected = do
    existing ← read_db env (find_channel_by_id pinned)
    if_pinned kind connected (is_pinned kind connected existing)

  module _ (decode_state : String → Result String OAuthState)
      (exchange : ProviderKind → String → Result String Connected) where
    unfoldable pub with_state :
        ProviderKind → CallbackQuery → Option String → Io (Result String Outcome)
    unfolding connect_account
    with_state kind query none = pure (err "callback carried no state")
    with_state kind query (some token) = elim (verify_state decode_state token kind) [
      | err e ↦ pure (err e)
      | ok claims ↦ elim query.code [
        | none ↦ pure (err "callback carried no code")
        | some code ↦ elim (exchange kind code) [
          | err e ↦ pure (err e)
          | ok connected ↦ connect_account kind claims.ch connected
        ]
      ]
    ]

    unfoldable pub with_provider : String → CallbackQuery → Io (Result String Outcome)
    unfolding with_state supports
    with_provider name query = elim (parse_provider name) [
      | none ↦ pure (err (append "no OAuth login for '" (append name "'")))
      | some kind ↦
          if not (supports kind)
          then pure (err (append "no OAuth login for '" (append name "'")))
          else with_state kind query query.state
    ]

    -- `connect`
    unfoldable pub connect : String → CallbackQuery → Io (Result String Outcome)
    unfolding with_provider
    connect name query = elim query.error [
      | some error ↦
          pure (err (append "login was not completed: " (unwrap_or query.error_description error)))
      | none ↦ with_provider name query
    ]

    abbrev outcome_of : String → Result String Outcome → Outcome
    outcome_of name (ok outcome) = outcome
    outcome_of name (err message) = failed name message

    -- `callback`, as far as the outcome that the page is made of.
    unfoldable pub callback : String → CallbackQuery → Io Outcome
    unfolding connect
    callback name query = do result ← connect name query; pure (outcome_of name result)

-- `.replace('<', r"\u003c")`, of the outcome's JSON in `page`.
unfoldable pub escape : String → String
escape String.[] = String.[]
escape (String.◌∷◌ c s) =
    let rest = escape s in if code c == b'<' then append "\\u003c" rest else String.◌∷◌ c rest
