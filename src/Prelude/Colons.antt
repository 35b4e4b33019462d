-- ===== src/Prelude/Colons.antt =====
-- `str::split_once(':')`.
use Prim.Native.Char.{code}
use Prim.Native.String.{String, ◌++◌ as append}
use Prim.Native.String.append
use mathlib.Core.Path.{◌≡◌, refl}
use mathlib.Core.Bool.{Bool, true, false}
use mathlib.Core.Option.{Option, none, some}
use native.Mathlib.Omega.{arith}
use chatbridge.Prelude.Tests.{◌==◌, if◌then◌else◌, and_then}

-- `payload.split_once(':')`
unfoldable pub split_once_colon : String → Option (String × String)
split_once_colon String.[] = none
split_once_colon (String.◌∷◌ c s) =
    if code c == b':'
    then some ("", s)
    else and_then (split_once_colon s) (λ p. some (String.◌∷◌ c p.0, p.1))

abbrev pub has_colon : String → Bool
has_colon String.[] = false
has_colon (String.◌∷◌ c s) = if code c == b':' then true else has_colon s

-- The text before the first colon, and the rest.
pub split_append :
    (s rest : String)
    → has_colon s ≡ false
    → split_once_colon (append s (append ":" rest)) ≡ some (s, rest)
unfolding split_once_colon
split_append String.[] rest h =
    rw (append.nil (append ":" rest), append.cons ":" "" rest, append.nil rest) refl
split_append (String.◌∷◌ c s) rest h =
    rw (append.cons c s (append ":" rest)) (ground (arith, split_append s rest))
