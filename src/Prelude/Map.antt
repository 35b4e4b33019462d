-- ===== src/Prelude/Map.antt =====
-- `HashMap` over keys with an equality test: one entry for each key. The program never relies
-- on the order of iteration.
use Prim.Native.Nat.{ℕ}
use mathlib.Core.Path.{◌≡◌, refl}
use mathlib.Core.Bool.{Bool, true, false}
use mathlib.Core.Logic.{◌↔◌}
use mathlib.Core.Option.{Option, none, some}
use mathlib.Core.List.{List, [], ◌∷◌}
use native.Mathlib.Omega.{arith}
use chatbridge.Prelude.Tests.{◌==◌, if◌then◌else◌, and_then, map_option}

pub record HasSame {ℓ} (A : Type ℓ) : Type ℓ where
  pub same : A → A → Bool
  pub same_iff : (a b : A) → (same a b ≡ true) ↔ (a ≡ b)

pub ==_iff : (a b : ℕ) → (a == b ≡ true) ↔ (a ≡ b)
==_iff a b = ((λ h. ground arith), (λ h. ground arith))

instance abbrev pub uuid_same : HasSame ℕ
uuid_same = record { same = ◌==◌; same_iff = ==_iff }

abbrev pub Map {ℓ κ} : Type ℓ → Type κ → Type (ℓ ⊔ κ)
Map K V = List (K × V)

module _ {ℓ κ} {K : Type ℓ} {V : Type κ} where
  -- `retain(|_, v| keep(v))`
  unfoldable pub retain : (V → Bool) → Map K V → Map K V
  retain keep [] = []
  retain keep ((k, v) ∷ m) = if keep v then (k, v) ∷ retain keep m else retain keep m

  module _ ⦃e : HasSame K⦄ where
    unfoldable pub get : K → Map K V → Option V
    get k [] = none
    get k ((j, v) ∷ m) = if e.same j k then some v else get k m

    unfoldable pub remove : K → Map K V → Map K V
    remove k [] = []
    remove k ((j, v) ∷ m) = if e.same j k then remove k m else (j, v) ∷ remove k m

    unfoldable pub insert : K → V → Map K V → Map K V
    insert k v m = (k, v) ∷ remove k m

    pub get-remove :
        (k j : K) (m : Map K V) → get j (remove k m) ≡ (if e.same k j then none else get j m)
    unfolding get remove
    get-remove k j [] = ground arith
    get-remove k j ((i, v) ∷ m) =
        ground (arith, get-remove k j m, e.same_iff i k, e.same_iff i j, e.same_iff k j)

    pub get-insert :
        (k j : K) (v : V) (m : Map K V)
        → get j (insert k v m) ≡ (if e.same k j then some v else get j m)
    unfolding get insert
    get-insert k j v m = ground (arith, get-remove k j m)

    pub get-insert_self : (k : K) (v : V) (m : Map K V) → get k (insert k v m) ≡ some v
    unfolding get insert
    get-insert_self k v m = ground (arith, e.same_iff k k)

    -- The keys of the map, each once.
    abbrev pub HasDistinctKeys : Map K V → Type κ
    HasDistinctKeys [] = Unit
    HasDistinctKeys ((k, v) ∷ m) = (get k m ≡ none) × HasDistinctKeys m

    pub remove-HasDistinctKeys :
        (k : K) (m : Map K V) → HasDistinctKeys m → HasDistinctKeys (remove k m)
    unfolding remove get
    remove-HasDistinctKeys k [] h = tt
    remove-HasDistinctKeys k ((j, v) ∷ m) (fresh, h) =
        ground (arith, remove-HasDistinctKeys k m h, get-remove k j m)

    pub insert-HasDistinctKeys :
        (k : K) (v : V) (m : Map K V) → HasDistinctKeys m → HasDistinctKeys (insert k v m)
    unfolding insert
    insert-HasDistinctKeys k v m h =
        (ground (arith, get-remove k k m, e.same_iff k k), remove-HasDistinctKeys k m h)

    pub remove_absent : (k : K) (m : Map K V) → get k m ≡ none → remove k m ≡ m
    unfolding remove get
    remove_absent k [] h = refl
    remove_absent k ((j, v) ∷ m) h = ground (arith, remove_absent k m)

    pub remove-remove_ne :
        (k j : K) (m : Map K V) → e.same k j ≡ false → remove k (remove j m) ≡ remove j (remove k m)
    unfolding remove
    remove-remove_ne k j [] h = refl
    remove-remove_ne k j ((i, v) ∷ m) h = ground (arith, remove-remove_ne k j m h)

    -- No entry that `retain` keeps fails the test.
    pub get-retain :
        (keep : V → Bool) (k : K) (m : Map K V) {v : V}
        → get k (retain keep m) ≡ some v
        → keep v ≡ true
    unfolding get retain
    get-retain keep k [] {v} h = ground arith
    get-retain keep k ((j, w) ∷ m) {v} h = ground (arith, get-retain keep k m {v = v})

    -- `retain` keeps exactly the entries that pass the test.
    pub get-retain_eq :
        (keep : V → Bool) (k : K) (m : Map K V)
        → HasDistinctKeys m
        → get k (retain keep m) ≡ and_then (get k m) (λ v. if keep v then some v else none)
    unfolding get retain
    get-retain_eq keep k [] h = refl
    get-retain_eq keep k ((j, w) ∷ m) (fresh, h) =
        ground (arith, get-retain_eq keep k m h, e.same_iff j k)

    pub retain-HasDistinctKeys :
        (keep : V → Bool) (m : Map K V) → HasDistinctKeys m → HasDistinctKeys (retain keep m)
    unfolding retain
    retain-HasDistinctKeys keep [] h = tt
    retain-HasDistinctKeys keep ((k, v) ∷ m) (fresh, h) =
        ground (arith, retain-HasDistinctKeys keep m h, get-retain_eq keep k m h)

    unfoldable pub map_values : (V → V) → Map K V → Map K V
    map_values f [] = []
    map_values f ((k, v) ∷ m) = (k, f v) ∷ map_values f m

    pub get-map_values :
        (f : V → V) (k : K) (m : Map K V) → get k (map_values f m) ≡ map_option f (get k m)
    unfolding get map_values
    get-map_values f k [] = refl
    get-map_values f k ((j, v) ∷ m) = ground (arith, get-map_values f k m)

    pub map_values-HasDistinctKeys :
        (f : V → V) (m : Map K V) → HasDistinctKeys m → HasDistinctKeys (map_values f m)
    unfolding map_values
    map_values-HasDistinctKeys f [] h = tt
    map_values-HasDistinctKeys f ((k, v) ∷ m) (fresh, h) =
        (ground (arith, get-map_values f k m), map_values-HasDistinctKeys f m h)

pub ruleset map_laws = (get-remove, get-insert, get-map_values)
