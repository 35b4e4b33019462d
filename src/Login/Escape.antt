-- ===== src/Login/Escape.antt =====
-- The outcome in the page of a login, which ends no script element.
use Prim.Native.Char.{code}
use Prim.Native.String.{◌++◌ as append}
use Prim.Native.String.append
use chatbridge.Prelude.{◌≡◌, refl, String, Bool, false, arith, ◌==◌, ◌||◌, Bool-cases, inl, inr}
use chatbridge.Login.{escape}

-- The text has a `<`.
unfoldable pub has_bracket : String → Bool
has_bracket String.[] = false
has_bracket (String.◌∷◌ c s) = let rest = has_bracket s in code c == b'<' || rest

has_bracket-append :
    (a b : String)
    → has_bracket a ≡ false
    → has_bracket b ≡ false
    → has_bracket (append a b) ≡ false
unfolding has_bracket
has_bracket-append String.[] b h k = rw (append.nil b) k
has_bracket-append (String.◌∷◌ c a) b h k =
    rw (append.cons c a b) (ground (arith, has_bracket-append a b))

-- No bracket of the outcome is left in the page.
pub has_bracket-escape : (s : String) → has_bracket (escape s) ≡ false
unfolding escape has_bracket
has_bracket-escape String.[] = refl
has_bracket-escape (String.◌∷◌ c s) = elim (Bool-cases (code c == b'<')) [
  | inl e ↦ rw e (has_bracket-append "\\u003c" (escape s) refl (has_bracket-escape s))
  | inr e ↦ ground (arith, has_bracket-escape s)
]
