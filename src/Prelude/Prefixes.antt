-- ===== src/Prelude/Prefixes.antt =====
-- `str::strip_prefix`.
use Prim.Native.Char.{code}
use Prim.Native.String.{String, ◌++◌ as append}
use Prim.Native.String.append
use mathlib.Core.Path.{◌≡◌, ap}
use mathlib.Core.Option.{Option, none, some}
use text.Mathlib.TextEquality.{Char-path}
use mathlib.Core.Logic.{inl, inr}
use native.Mathlib.Omega.{arith}
use chatbridge.Prelude.Tests.{◌==◌, if◌then◌else◌, Bool-cases}

-- `s.strip_prefix(prefix)`
unfoldable pub strip_prefix : (prefix s : String) → Option String
strip_prefix String.[] s = some s
strip_prefix (String.◌∷◌ p ps) String.[] = none
strip_prefix (String.◌∷◌ p ps) (String.◌∷◌ c s) =
    let rest = strip_prefix ps s in if code p == code c then rest else none

-- What is left is the text after the prefix.
pub strip_prefix_sound :
    (prefix s rest : String) → strip_prefix prefix s ≡ some rest → append prefix rest ≡ s
unfolding strip_prefix
strip_prefix_sound String.[] s rest h = rw (append.nil rest) (ground arith)
strip_prefix_sound (String.◌∷◌ p ps) String.[] rest h = ground arith
strip_prefix_sound (String.◌∷◌ p ps) (String.◌∷◌ c s) rest h =
    elim (Bool-cases (code p == code c)) [
      | inl e ↦
          let same : p ≡ c = Char-path p c (ground arith) in
          rw (append.cons p ps rest, same)
            (ap (String.◌∷◌ c) (strip_prefix_sound ps s rest (ground arith)))
      | inr e ↦ absurd (ground arith)
    ]

-- `s.replacen(from, to, 1)`, of a pattern that is not empty.
unfoldable pub replace_first : (from to s : String) → String
unfolding strip_prefix
replace_first from to String.[] = String.[]
replace_first from to (String.◌∷◌ c s) =
    let rest = replace_first from to s in
    elim (strip_prefix from (String.◌∷◌ c s)) [
      | some tail ↦ append to tail
      | none ↦ String.◌∷◌ c rest
    ]
