-- ===== src/Oauth/State.antt =====
-- The `state` of a login: what it was signed for is what it is accepted for.
use Prim.Native.String.{◌++◌ as append}
use chatbridge.Prelude.{◌≡◌, ℕ, String, Option, arith, Uuid, str_eq, eq_iff, Bool-cases, inl, inr}
use chatbridge.Prelude.Results.{Result, Result-cases, ok}
use chatbridge.Model.{ProviderKind, provider_name}
use chatbridge.Model.RoundTrip.{parse_provider-provider_name}
use chatbridge.Oauth.{OAuthState, issued, sign_state, verify_state}

abbrev pub refusal : ProviderKind → ProviderKind → String
refusal kind other =
    append "login attempt was started for provider '"
      (append (provider_name kind) (append "', not '" (append (provider_name other) "'")))

module _ (decode : String → Result String OAuthState) where
  -- What is accepted was decoded, and names the provider.
  pub verify_state_sound :
      (token : String) (kind : ProviderKind) (claims : OAuthState)
      → verify_state decode token kind ≡ ok claims
      → (decode token ≡ ok claims) × (claims.p ≡ provider_name kind)
  unfolding verify_state
  verify_state_sound token kind claims h = elim (Result-cases (decode token)) [
    | inr (e, k) ↦ absurd (ground arith)
    | inl (c, k) ↦ elim (Bool-cases (str_eq c.p (provider_name kind))) [
      | inr k' ↦ absurd (ground arith)
      | inl k' ↦ ground (arith, eq_iff c.p (provider_name kind))
    ]
  ]

  module _ (encode : OAuthState → String) (now : ℕ) (jti : Uuid) (kind : ProviderKind)
      (channel_id : Option Uuid)
      (round : decode (encode (issued now jti kind channel_id))
        ≡ ok (issued now jti kind channel_id)) where
    -- Nor is it accepted for another provider.
    pub verify_state-other :
        (other : ProviderKind) (claims : OAuthState)
        → verify_state decode (sign_state encode now jti kind channel_id) other ≡ ok claims
        → kind ≡ other
    unfolding sign_state
    verify_state-other other claims h =
        let (decoded, named) =
          verify_state_sound (sign_state encode now jti kind channel_id) other claims h in
        ground (arith, round, parse_provider-provider_name kind, parse_provider-provider_name other)
