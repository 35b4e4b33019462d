-- ===== src/Oauth.antt =====
-- oauth/mod.rs and the answers of oauth/instagram.rs: the login of a provider, the subscription to its
-- events, and the `state` of a login. The calls of the Graph API are parameters that say what it
-- answered; signing and verifying a JWT is the `jsonwebtoken` crate's.
pub mod Graph
pub mod State
pub mod Subscription
use Prim.Native.String.{◌++◌ as append}
use chatbridge.Prelude.{
  ℕ, suc, String, Bool, true, false, Option, none, some, List, [], ◌∷◌, ◌++◌, map, select, Uuid,
  Instant, str_eq, not, ◌+◌, ◌*◌, and_then, unwrap_or, if◌then◌else◌,
}
use chatbridge.Prelude.Json.{Json, Items, nil, cons, text, array, boolean, get, as_str, as_bool}
use chatbridge.Prelude.Results.{Result, ok, err}
use chatbridge.Model.{ProviderKind, instagram, telegram, widget, provider_name, InstagramConfig}

-- `INSTAGRAM_FIELDS`
abbrev pub instagram_fields : List String
instagram_fields = "messages" ∷ "message_edit" ∷ "message_reactions" ∷ "messaging_seen" ∷ []

pub record Connected : Type 0 where
  pub external_key : String
  pub display_name : String
  pub config : Json

pub record ProviderDescriptor : Type 0 where
  pub provider : String
  pub label : String
  pub start_path : String
  pub redirect_uri : String

-- `supports`
unfoldable pub supports : ProviderKind → Bool
supports instagram = true
supports telegram = false
supports widget = false

-- `label`
unfoldable pub label : ProviderKind → String
label instagram = "Instagram"
label telegram = "Telegram"
label widget = "Widget"

-- `start_path`
unfoldable pub start_path : ProviderKind → String
start_path kind = append "/api/oauth/" (append (provider_name kind) "/start")

-- `redirect_uri`, over the configured base.
unfoldable pub redirect_uri : String → ProviderKind → String
redirect_uri base kind =
    append base (append "/api/oauth/" (append (provider_name kind) "/callback"))

-- `descriptors`
unfoldable pub descriptors : String → List ProviderDescriptor
unfolding supports
descriptors base =
    map
      (λ kind. record {
        provider = provider_name kind;
        label = label kind;
        start_path = start_path kind;
        redirect_uri = redirect_uri base kind;
      })
      (select supports (instagram ∷ telegram ∷ widget ∷ []))

-- `access_token`
unfoldable pub access_token : Json → Result String String
access_token config = elim (and_then (get "access_token" config) as_str) [
  | none ↦ err "channel config has no access_token"
  | some token ↦ ok token
]

-- `strings.join(separator)`
unfoldable pub join_with : String → List String → String
join_with separator [] = ""
join_with separator (s ∷ []) = s
join_with separator (s ∷ t ∷ ss) = append s (append separator (join_with separator (t ∷ ss)))

-- A call that subscribes the account to fields, with what was answered.
pub record Call : Type 0 where
  pub fields : String
  pub answer : Result String (Unit {0})

-- `subscribe`. The answer to a call is that of the token, of the fields, and of how many calls there
-- were before it.
module _ (call : ℕ → (token fields : String) → Result String (Unit {0})) where
  abbrev called : ℕ → String → String → Call
  called n token fields = record { fields = fields; answer = call n token fields }

  pub record Probed : Type 0 where
    pub accepted : List String
    pub rejected : List String
    pub calls : List Call

  abbrev judge : String → Call → Probed → Probed
  judge field c rest = elim c.answer [
    | ok _ ↦ record {
      accepted = field ∷ rest.accepted;
      rejected = rest.rejected;
      calls = c ∷ rest.calls;
    }
    | err e ↦ record {
      accepted = rest.accepted;
      rejected = append field (append " (" (append e ")")) ∷ rest.rejected;
      calls = c ∷ rest.calls;
    }
  ]

  -- Each field alone.
  unfoldable pub probe : ℕ → String → List String → Probed
  probe n token [] = record { accepted = []; rejected = []; calls = [] }
  probe n token (field ∷ fields) =
      let rest = probe (suc n) token fields in judge field (called n token field) rest

  -- The last call, with all that were accepted alone.
  unfoldable pub keep : String → String → Probed → Result String (List String) × List Call
  keep token full_error probed = elim probed.accepted [
    | [] ↦ (
      err (
          append "no webhook field could be subscribed: "
            (append full_error (append "; per-field: " (join_with "; " probed.rejected)))),
      probed.calls,
    )
    | field ∷ fields ↦
        let final = called 5 token (join_with "," (field ∷ fields)) in
        (
          elim final.answer [ ok _ ↦ ok (field ∷ fields) | err e ↦ err e ],
          probed.calls ++ final ∷ [],
        )
  ]

  unfoldable pub subscribe_token : String → Result String (List String) × List Call
  unfolding keep probe
  subscribe_token token =
      let first = called 0 token (join_with "," instagram_fields) in
      elim first.answer [
        | ok _ ↦ (ok instagram_fields, first ∷ [])
        | err full_error ↦
            let (result, calls) = keep token full_error (probe 1 token instagram_fields) in
            (result, first ∷ calls)
      ]

  -- `subscribe`, with the calls that it made, in order.
  unfoldable pub subscribe : ProviderKind → Json → Result String (List String) × List Call
  unfolding supports subscribe_token access_token
  subscribe kind config =
      if not (supports kind)
      then (ok [], [])
      else elim (access_token config) [ err e ↦ (err e, []) | ok token ↦ subscribe_token token ]

-- `unsubscribe`
unfoldable pub unsubscribe :
    (call : String → Result String (Unit {0})) → ProviderKind → Json → Result String (Unit {0})
unfolding supports access_token
unsubscribe call kind config =
    if not (supports kind)
    then ok tt
    else elim (access_token config) [ err e ↦ err e | ok token ↦ call token ]

pub record LongLivedToken : Type 0 where
  pub access_token : String
  pub expires_in : ℕ

pub record Profile : Type 0 where
  pub user_id : String
  pub username : Option String

abbrev pub account_name : Profile → String
account_name profile = elim profile.username [
  | some username ↦ append "@" username
  | none ↦ append "instagram:" profile.user_id
]

-- `exchange`, over the three calls that it makes and the clock, in microseconds.
module _ (exchange_code : (redirect_uri code : String) → Result String String)
    (exchange_long_lived : String → Result String LongLivedToken)
    (fetch_profile : String → Result String Profile)
    (to_json : InstagramConfig → Result String Json) where
  of_profile : Instant → LongLivedToken → Profile → Result String Connected
  of_profile now long profile =
      elim (to_json (record {
        access_token = long.access_token;
        token_expires_at = some (now + long.expires_in * 1000000);
        username = profile.username;
      })) [
        | err e ↦ err (append "failed to serialize instagram config: " e)
        | ok config ↦ ok (record {
          external_key = profile.user_id;
          display_name = account_name profile;
          config = config;
        })
      ]

  unfoldable pub exchange :
      (base : String) → Instant → ProviderKind → String → Result String Connected
  unfolding supports of_profile
  exchange base now kind code =
      if not (supports kind)
      then err (append (provider_name kind) " has no OAuth login")
      else elim (exchange_code (redirect_uri base kind) code) [
        | err e ↦ err e
        | ok short ↦ elim (exchange_long_lived short) [
          | err e ↦ err e
          | ok long ↦ elim (fetch_profile long.access_token) [
            | err e ↦ err e
            | ok profile ↦ of_profile now long profile
          ]
        ]
      ]

-- The `state` of a login, in seconds.
pub record OAuthState : Type 0 where
  pub p : String
  pub ch : Option Uuid
  pub jti : Uuid
  pub iat : ℕ
  pub exp : ℕ

-- The claims of a login that starts now.
abbrev pub issued : (now : ℕ) (jti : Uuid) → ProviderKind → Option Uuid → OAuthState
issued now jti kind channel_id = record {
  p = provider_name kind;
  ch = channel_id;
  jti = jti;
  iat = now;
  exp = now + 600;
}

-- `sign_state`
unfoldable pub sign_state :
    (encode : OAuthState → String) (now : ℕ) (jti : Uuid) → ProviderKind → Option Uuid → String
sign_state encode now jti kind channel_id = encode (issued now jti kind channel_id)

-- `verify_state`
unfoldable pub verify_state :
    (decode : String → Result String OAuthState) → String → ProviderKind → Result String OAuthState
verify_state decode token kind = elim (decode token) [
  | err e ↦ err (append "invalid or expired login attempt: " e)
  | ok claims ↦
      if not (str_eq claims.p (provider_name kind))
      then err (
          append "login attempt was started for provider '"
            (append claims.p (append "', not '" (append (provider_name kind) "'"))))
      else ok claims
]
