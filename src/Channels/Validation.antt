-- ===== src/Channels/Validation.antt =====
-- What `validate_bot_token` of handler/channels.rs lets pass.
use Prim.Native.String.append
use Prim.Native.String.{◌++◌ as append}
use text.Mathlib.TextEquality.{Char-path}
use Prim.Native.Char.{code}
use chatbridge.Prelude.{
  ◌≡◌, ◌≢◌, refl, ap, sym, String, true, some, arith, Bool-cases, Option-cases, inl, inr, eq_iff,
  ◌==◌,
}
use chatbridge.Prelude.Results.{ok}
use chatbridge.Prelude.Colons.{split_once_colon}
use chatbridge.ExternalId.{join}
use chatbridge.Channels.{validate_bot_token, all_bytes, is_digit}

-- The two sides of the first colon make the text again.
split_once_colon-join :
    (s : String) (parts : String × String)
    → split_once_colon s ≡ some parts
    → join parts.0 parts.1 ≡ s
unfolding split_once_colon
split_once_colon-join String.[] parts h = ground arith
split_once_colon-join (String.◌∷◌ c s) parts h = elim (Bool-cases (code c == b':')) [
  | inl e ↦
      let colon : c ≡ ":" = Char-path c ":" (ground arith) in
      let here : parts ≡ ("", s) = ground arith in
      rw (here, colon, append.nil (append ":" s), append.cons ":" "" s, append.nil s) refl
  | inr e ↦ elim (Option-cases (split_once_colon s)) [
    | inl none_left ↦ absurd (ground arith)
    | inr (p, found) ↦
        let here : parts ≡ (String.◌∷◌ c p.0, p.1) = ground arith in
        rw (here, append.cons c p.0 (append ":" p.1))
          (ap (String.◌∷◌ c) (split_once_colon-join s p found))
  ]
]

-- A token that passes has the documented shape: decimal digits, not none, a colon, and a secret that
-- is not empty.
pub validate_bot_token_sound :
    (bot_token : String)
    → validate_bot_token bot_token ≡ ok tt
    → (id : String) × (secret : String) × (bot_token ≡ join id secret)
      × (all_bytes is_digit id ≡ true)
      × (id ≢ "")
      × (secret ≢ "")
unfolding validate_bot_token
validate_bot_token_sound bot_token h = elim (Option-cases (split_once_colon bot_token)) [
  | inl e ↦ absurd (ground arith)
  | inr (parts, e) ↦ (
    parts.0,
    parts.1,
    sym (split_once_colon-join bot_token parts e),
    ground arith,
    ground (arith, eq_iff parts.0 ""),
    ground (arith, eq_iff parts.1 ""),
  )
]
