-- ===== src/Oauth/Subscription.antt =====
-- Which fields an account is subscribed to after `subscribe` of oauth/mod.rs.
use chatbridge.Prelude.{
  ◌≡◌, refl, sym, ap, ℕ, suc, String, Option, none, some, List, [], ◌∷◌, ◌++◌, arith, inl, inr, ◌⊎◌,
}
use chatbridge.Prelude.Json.{Json}
use chatbridge.Prelude.Results.{Result, Result-cases, ok}
use chatbridge.Model.{instagram}
use chatbridge.Oauth.{
  instagram_fields, supports, join_with, Call, Probed, probe, keep, subscribe_token, subscribe,
  access_token,
}

-- The last call of a list of calls.
abbrev pub last : List Call → Option Call
last [] = none
last (c ∷ []) = some c
last (c ∷ d ∷ cs) = last (d ∷ cs)

last-append : (cs : List Call) (c : Call) → last (cs ++ c ∷ []) ≡ some c
last-append [] c = refl
last-append (d ∷ []) c = refl
last-append (d ∷ e ∷ cs) c = last-append (e ∷ cs) c

last-cons : (d : Call) (cs : List Call) (c : Call) → last cs ≡ some c → last (d ∷ cs) ≡ some c
last-cons d [] c h = ground arith
last-cons d (e ∷ cs) c h = h

-- A selection, in order.
abbrev pub IsPartOf : List String → List String → Type 0
IsPartOf xs [] = xs ≡ []
IsPartOf xs (f ∷ fs) = IsPartOf xs fs ⊎ ((ys : List String) × (xs ≡ f ∷ ys) × IsPartOf ys fs)

module _ (call : ℕ → (token fields : String) → Result String (Unit {0})) where
  probe-IsPartOf :
      (n : ℕ) (token : String) (fields : List String)
      → IsPartOf (probe call n token fields).accepted fields
  unfolding probe
  probe-IsPartOf n token [] = refl
  probe-IsPartOf n token (f ∷ fs) = elim (Result-cases (call n token f)) [
    | inl (_, e) ↦
        inr ((probe call (suc n) token fs).accepted, ground arith, probe-IsPartOf (suc n) token fs)
    | inr (reason, e) ↦ inl (rw e (probe-IsPartOf (suc n) token fs))
  ]

  IsPartOf-refl : (fs : List String) → IsPartOf fs fs
  IsPartOf-refl [] = refl
  IsPartOf-refl (f ∷ fs) = inr (fs, refl, IsPartOf-refl fs)

  -- What the last call asked for was taken, and it asked for these.
  abbrev pub IsSubscribed : List String → List Call → Type 0
  IsSubscribed fields calls =
      (c : Call) × (last calls ≡ some c) × (c.fields ≡ join_with "," fields) × (c.answer ≡ ok tt)

  keep-IsSubscribed :
      (token full_error : String) (probed : Probed call) (fields accepted : List String)
      → probed.accepted ≡ accepted
      → (keep call token full_error probed).0 ≡ ok fields
      → (fields ≡ accepted) × IsSubscribed fields (keep call token full_error probed).1
  unfolding keep
  keep-IsSubscribed token full_error probed fields [] e h = absurd (ground arith)
  keep-IsSubscribed token full_error probed fields (f ∷ fs) e h =
      elim (Result-cases (call 5 token (join_with "," (f ∷ fs)))) [
        | inr (reason, k) ↦ absurd (ground arith)
        | inl (_, k) ↦
            let final : Call = record {
              fields = join_with "," (f ∷ fs);
              answer = call 5 token (join_with "," (f ∷ fs));
            } in
            let same : fields ≡ f ∷ fs = ground arith in
            (
              same,
              (
                final,
                rw (e, keep) (last-append probed.calls final),
                ap (join_with ",") (sym same),
                k,
              ),
            )
      ]

  accepted_token :
      (token : String) (fields : List String)
      → (subscribe_token call token).0 ≡ ok fields
      → IsPartOf fields instagram_fields × IsSubscribed fields (subscribe_token call token).1
  unfolding subscribe_token
  accepted_token token fields h =
      elim (Result-cases (call 0 token (join_with "," instagram_fields))) [
        | inl (_, e) ↦
            let all : Call = record {
              fields = join_with "," instagram_fields;
              answer = call 0 token (join_with "," instagram_fields);
            } in
            let same : instagram_fields ≡ fields = ground arith in
            (
              rw (sym same) (IsPartOf-refl instagram_fields),
              (all, ground arith, rw (sym same) refl, e),
            )
        | inr (reason, e) ↦
            let probed = probe call 1 token instagram_fields in
            let (same, (c, final, asked, taken)) =
              keep-IsSubscribed token reason probed fields probed.accepted refl (ground arith) in
            (
              rw same (probe-IsPartOf 1 token instagram_fields),
              (
                c,
                rw (e, subscribe_token) (last-cons _ (keep call token reason probed).1 c final),
                asked,
                taken,
              ),
            )
      ]

  -- When subscribing an Instagram account succeeds, the last call that was made asked Meta for exactly
  -- the fields that are reported and was answered with success, whichever call it was; these are some of
  -- the fields that the program handles, in their order.
  pub subscribe-IsSubscribed :
      (config : Json) (fields : List String)
      → (subscribe call instagram config).0 ≡ ok fields
      → IsPartOf fields instagram_fields × IsSubscribed fields (subscribe call instagram config).1
  unfolding subscribe supports
  subscribe-IsSubscribed config fields h = elim (Result-cases (access_token config)) [
    | inr (e, k) ↦ absurd (ground arith)
    | inl (token, k) ↦ rw (k, subscribe) (accepted_token token fields (ground arith))
  ]
