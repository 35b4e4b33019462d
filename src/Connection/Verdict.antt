-- ===== src/Connection/Verdict.antt =====
-- What a status of handler/connection.rs says of a token.
use Prim.Native.String.{◌++◌ as append}
use chatbridge.Prelude.{
  ◌∙◌, ap, List, [], ◌∷◌, Option, ◌≡◌, ◌≢◌, refl, ℕ, zero, suc, String, true, false, some, arith,
  Instant, ◌≤◌, ◌<◌, ◌+◌, ◌-◌, ◌/◌, leb, ltb, Bool-cases, if◌then◌else◌, inl, inr,
}
use chatbridge.Prelude.Ints.{ℤ, pos, negsuc}
use chatbridge.Prelude.Results.{Result, Result-cases, ok, err}
use chatbridge.Model.{InstagramConfig}
use chatbridge.Db.{Channel}
use chatbridge.Provider.{a_day}
use chatbridge.Channels.Manage.{Site}
use chatbridge.Connection.{
  fields_summary, instagram_summary, ConnectionStatus, Probes, num_days, expiry_phrase,
  instagram_status, expired_phrase, minus,
}

no_day : (d : ℕ) → a_day ≤ d → d / a_day ≢ 0
no_day d h k = omega arith

-- A moment that is a whole day past counts as negative.
days_late :
    (expiry now : Instant) → expiry + a_day ≤ now → (n : ℕ) × (num_days expiry now ≡ negsuc n)
unfolding num_days
days_late expiry now h = elim (Bool-cases (leb now expiry)) [
  | inl e ↦ absurd (ground arith)
  | inr e ↦ rw e (go ((now - expiry) / a_day) (no_day (now - expiry) (ground arith)))
]
  where
    go : (q : ℕ) → q ≢ 0 → (n : ℕ) × (minus q ≡ negsuc n)
    go zero h = absurd (h refl)
    go (suc q) h = (q, refl)

within : (d : ℕ) → d < a_day → d / a_day ≡ 0
within d h = omega arith

-- The day count of a moment that has passed: none within the first day, negative after it.
days_passed :
    (expiry now : Instant)
    → expiry ≤ now
    → ltb now (expiry + a_day) ≡ true
    → num_days expiry now ≡ pos 0
unfolding num_days
days_passed expiry now h k = elim (Bool-cases (leb now expiry)) [
  | inl e ↦ rw (e, within (expiry - now) (ground arith)) refl
  | inr e ↦ rw (e, within (now - expiry) (ground arith)) refl
]

module _ (print_int : ℤ → String) (site : Site) (probes : Probes print_int) where
  phrase_passed :
      (expiry now : Instant)
      → expiry ≤ now
      → expiry_phrase print_int (some (num_days expiry now))
        ≡ (if ltb now (expiry + a_day) then " Token expires within a day." else expired_phrase)
  unfolding expiry_phrase
  phrase_passed expiry now h = elim (Bool-cases (ltb now (expiry + a_day))) [
    | inl e ↦ rw (e, days_passed expiry now h e) refl
    | inr e ↦ let (n, late) = days_late expiry now (ground arith) in rw (e, late) refl
  ]

  -- A summary ends with what it says of the token.
  fields_summary-phrase :
      (fields : Result String (List String)) (days : Option ℤ)
      → (before : String) × (fields_summary print_int site probes fields days
          ≡ append before (expiry_phrase print_int days))
  unfolding instagram_summary
  fields_summary-phrase (err e) days = (_, refl)
  fields_summary-phrase (ok []) days = (_, refl)
  fields_summary-phrase (ok (f ∷ fs)) days = (_, refl)

  -- A token that has expired is never reported as alive, but its summary says so only when a whole day
  -- has passed; until then it says that the token expires within a day.
  pub instagram_status-expired :
      (channel : Channel) (config : InstagramConfig) (expiry now : Instant)
      → probes.parse_instagram channel.config ≡ ok config
      → config.token_expires_at ≡ some expiry
      → expiry ≤ now
      → (s : ConnectionStatus) × (instagram_status print_int site probes now channel ≡ ok s)
        × (s.ok ≡ false)
        × (before : String) × (s.summary
            ≡ append before (
                if ltb now (expiry + a_day)
                then " Token expires within a day."
                else expired_phrase))
  unfolding instagram_status
  instagram_status-expired channel config expiry now parsed expires h =
      elim (Result-cases (instagram_status print_int site probes now channel)) [
        | inr (e, k) ↦ absurd (ground arith)
        | inl (s, k) ↦
            let fields = probes.subscribed_fields config.access_token in
            let (before, said) = fields_summary-phrase fields (some (num_days expiry now)) in
            let shown : s.summary
                ≡ fields_summary print_int site probes fields (some (num_days expiry now)) =
              ground (arith, k) in
            (
              s,
              k,
              ground arith,
              before,
              shown ∙ said ∙ ap (append before) (phrase_passed expiry now h),
            )
      ]
