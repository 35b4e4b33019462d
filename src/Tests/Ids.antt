-- ===== src/Tests/Ids.antt =====
-- Ids of two providers, printed in unary.
use chatbridge.Prelude.{◌≡◌, refl, ℕ, zero, suc, String, false, arith}
use chatbridge.Prelude.Colons.{has_colon}
use chatbridge.ExternalId.Unique.{telegram_id-inj}

unary : ℕ → String
unary zero = String.[]
unary (suc n) = String.◌∷◌ "i" (unary n)

unary_distinct : (x y : ℕ) → unary x ≡ unary y → x ≡ y
unfolding unary
unary_distinct zero zero h = refl
unary_distinct zero (suc y) h = cc
unary_distinct (suc x) zero h = cc
unary_distinct (suc x) (suc y) h = ground (arith, unary_distinct x y)

unary_plain : (x : ℕ) → has_colon (unary x) ≡ false
unfolding unary
unary_plain zero = refl
unary_plain (suc x) = ground (arith, unary_plain x)

abbrev three : ℕ
three = 3

telegram_id_example : (three ≡ three) × (three ≡ three)
telegram_id_example = telegram_id-inj unary unary_distinct unary_plain three three three three refl
