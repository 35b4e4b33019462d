-- ===== src/Prelude/Lists.antt =====
-- Lists as tables: selection, update, and rows that do not clash.
use Prim.Native.Nat.{ℕ, suc, ◌+◌}
use mathlib.Core.Path.{◌≡◌, refl, ap}
use mathlib.Core.Bool.{Bool, true, false, not, ◌&&◌, ◌||◌}
use mathlib.Core.Option.{Option, none, some}
use mathlib.Core.List.{List, [], ◌∷◌, ◌++◌}
use native.Mathlib.Omega.{arith}
use mathlib.Core.Logic.{inl, inr}
use chatbridge.Prelude.Tests.{if◌then◌else◌, is_some, Bool-cases, ◌==◌, map_option, and_then}

module _ {ℓ} {A : Type ℓ} where
  abbrev pub length : List A → ℕ
  length [] = 0
  length (x ∷ xs) = suc (length xs)

  pub length-append : (xs ys : List A) → length (xs ++ ys) ≡ length xs + length ys
  length-append [] ys = omega arith
  length-append (x ∷ xs) ys = omega (arith, length-append xs ys)

  abbrev pub any : (A → Bool) → List A → Bool
  any p [] = false
  any p (x ∷ xs) = p x || any p xs

  -- The rows that a WHERE clause selects.
  abbrev pub select : (A → Bool) → List A → List A
  select p [] = []
  select p (x ∷ xs) = if p x then x ∷ select p xs else select p xs

  -- `fetch_optional`: the first row selected.
  abbrev pub find : (A → Bool) → List A → Option A
  find p [] = none
  find p (x ∷ xs) = if p x then some x else find p xs

  -- UPDATE … SET f WHERE p.
  abbrev pub update : (A → Bool) → (A → A) → List A → List A
  update p f [] = []
  update p f (x ∷ xs) = (if p x then f x else x) ∷ update p f xs

  -- DELETE … WHERE p.
  abbrev pub delete : (A → Bool) → List A → List A
  delete p [] = []
  delete p (x ∷ xs) = if p x then delete p xs else x ∷ delete p xs

  abbrev pub All {κ} : (A → Type κ) → List A → Type κ
  All P [] = Unit
  All P (x ∷ xs) = P x × All P xs

  pub find_sound : (p : A → Bool) (xs : List A) {a : A} → find p xs ≡ some a → p a ≡ true
  find_sound p [] {a} h = ground arith
  find_sound p (x ∷ xs) {a} h = ground (arith, find_sound p xs {a = a})

  pub find_of_any : (p : A → Bool) (xs : List A) → any p xs ≡ is_some (find p xs)
  find_of_any p [] = refl
  find_of_any p (x ∷ xs) = ground (arith, find_of_any p xs)

  pub length-update : (p : A → Bool) (f : A → A) (xs : List A) → length (update p f xs) ≡ length xs
  length-update p f [] = refl
  length-update p f (x ∷ xs) = omega (arith, length-update p f xs)

  -- No two rows of the table stand in `clash`: what a unique index promises.
  abbrev pub NoClash : (A → A → Bool) → List A → Type 0
  NoClash clash [] = Unit
  NoClash clash (x ∷ xs) = (any (clash x) xs ≡ false) × NoClash clash xs

  pub any_cong : (p q : A → Bool) (xs : List A) → ((y : A) → p y ≡ q y) → any p xs ≡ any q xs
  any_cong p q [] same = refl
  any_cong p q (x ∷ xs) same = ground (arith, same x, any_cong p q xs same)

  pub any-update :
      (q p : A → Bool) (f : A → A) (xs : List A)
      → ((y : A) → q (f y) ≡ q y)
      → any q (update p f xs) ≡ any q xs
  any-update q p f [] same = refl
  any-update q p f (x ∷ xs) same = ground (arith, same x, any-update q p f xs same)

  pub any-delete : (q p : A → Bool) (xs : List A) → any q xs ≡ false → any q (delete p xs) ≡ false
  any-delete q p [] h = refl
  any-delete q p (x ∷ xs) h = ground (arith, any-delete q p xs)

  -- An update that changes no compared column keeps the index.
  pub NoClash-update :
      (clash : A → A → Bool) (p : A → Bool) (f : A → A) (xs : List A)
      → ((x y : A) → clash (f x) y ≡ clash x y)
      → ((x y : A) → clash x (f y) ≡ clash x y)
      → NoClash clash xs
      → NoClash clash (update p f xs)
  NoClash-update clash p f [] left right h = tt
  NoClash-update clash p f (x ∷ xs) left right (here, later) = (
    ground (
      arith,
      any-update (clash x) p f xs (right x),
      any-update (clash (f x)) p f xs (right (f x)),
      any_cong (clash (f x)) (clash x) xs (left x),
    ),
    NoClash-update clash p f xs left right later,
  )

  pub NoClash-delete :
      (clash : A → A → Bool) (p : A → Bool) (xs : List A)
      → NoClash clash xs
      → NoClash clash (delete p xs)
  NoClash-delete clash p [] h = tt
  NoClash-delete clash p (x ∷ xs) (here, later) = elim (Bool-cases (p x)) [
    | inl gone ↦ rw gone (NoClash-delete clash p xs later)
    | inr kept ↦ rw kept (any-delete (clash x) p xs here, NoClash-delete clash p xs later)
  ]

  pub any_of_find : (p : A → Bool) (xs : List A) → is_some (find p xs) ≡ false → any p xs ≡ false
  any_of_find p [] h = refl
  any_of_find p (x ∷ xs) h = ground (arith, any_of_find p xs)

  -- A selection that at most one row meets, as on a primary key.
  abbrev pub AtMostOne : (A → Bool) → List A → Type 0
  AtMostOne p [] = Unit
  AtMostOne p (x ∷ xs) = (p x ≡ true → any p xs ≡ false) × AtMostOne p xs

  pub AtMostOne-delete : (p d : A → Bool) (xs : List A) → AtMostOne p xs → AtMostOne p (delete d xs)
  AtMostOne-delete p d [] h = tt
  AtMostOne-delete p d (x ∷ xs) (here, later) = elim (Bool-cases (d x)) [
    | inl gone ↦ rw gone (AtMostOne-delete p d xs later)
    | inr kept ↦ rw kept ((λ e. any-delete p d xs (here e)), AtMostOne-delete p d xs later)
  ]

  All-of_none :
      (p : A → Bool) (f : A → A) (xs : List A) (b : A)
      → any p xs ≡ false
      → All (λ x. p x ≡ true → f x ≡ b) xs
  All-of_none p f [] b h = tt
  All-of_none p f (x ∷ xs) b h = ((λ e. ground arith), All-of_none p f xs b (ground arith))

  -- The row that a key finds is the only one that meets the selection.
  pub only_one :
      (p : A → Bool) (f : A → A) (xs : List A) (a : A)
      → AtMostOne p xs
      → find p xs ≡ some a
      → All (λ x. p x ≡ true → f x ≡ f a) xs
  only_one p f [] a one h = tt
  only_one p f (x ∷ xs) a (here, later) h = elim (Bool-cases (p x)) [
    | inl e ↦
        let same : x ≡ a = ground arith in ((λ _. ap f same), All-of_none p f xs (f a) (here e))
    | inr e ↦ ((λ q. ground arith), only_one p f xs a later (ground arith))
  ]

  pub find-delete :
      (p d : A → Bool) (xs : List A)
      → ((x : A) → p x ≡ true → d x ≡ false)
      → find p (delete d xs) ≡ find p xs
  find-delete p d [] h = refl
  find-delete p d (x ∷ xs) h = ground (arith, find-delete p d xs h, h x)

  pub update_none : (p : A → Bool) (f : A → A) (xs : List A) → any p xs ≡ false → update p f xs ≡ xs
  update_none p f [] h = refl
  update_none p f (x ∷ xs) h = ground (arith, update_none p f xs)

  any-update_one :
      (q p : A → Bool) (f : A → A) (t : A) (xs : List A)
      → q t ≡ false
      → All (λ x. p x ≡ true → f x ≡ t) xs
      → any q xs ≡ false
      → any q (update p f xs) ≡ false
  any-update_one q p f t [] qt all h = refl
  any-update_one q p f t (x ∷ xs) qt (here, later) h = elim (Bool-cases (p x)) [
    | inl e ↦ rw (e, here e) (ground (arith, any-update_one q p f t xs qt later))
    | inr e ↦ rw e (ground (arith, any-update_one q p f t xs qt later))
  ]

  any_split :
      (p q : A → Bool) (xs : List A)
      → any p xs ≡ false
      → any (λ y. not (p y) && q y) xs ≡ false
      → any q xs ≡ false
  any_split p q [] hp h = refl
  any_split p q (x ∷ xs) hp h = ground (arith, any_split p q xs)

  -- An index stays when one row is changed into `t`, and no other row clashes with `t`.
  pub NoClash-update_one :
      (clash : A → A → Bool) (p : A → Bool) (f : A → A) (t : A) (xs : List A)
      → ((x y : A) → clash x y ≡ clash y x)
      → AtMostOne p xs
      → All (λ x. p x ≡ true → f x ≡ t) xs
      → any (λ y. not (p y) && clash t y) xs ≡ false
      → NoClash clash xs
      → NoClash clash (update p f xs)
  NoClash-update_one clash p f t [] symm one all free h = tt
  NoClash-update_one clash p f t (x ∷ xs) symm (one, ones) (here, later) free (hx, hxs) =
      elim (Bool-cases (p x)) [
        | inl e ↦
            rw (e, here e, update_none p f xs (one e))
              (any_split p (clash t) xs (one e) (ground arith), hxs)
        | inr e ↦ rw e (
          any-update_one (clash x) p f t xs (ground (arith, symm x t)) later hx,
          NoClash-update_one clash p f t xs symm ones later (ground arith) hxs,
        )
      ]

  -- What a selection finds after an update that does not change what it selects by.
  pub find-update :
      (q p : A → Bool) (f : A → A) (xs : List A)
      → ((x : A) → q (f x) ≡ q x)
      → find q (update p f xs) ≡ map_option (λ x. if p x then f x else x) (find q xs)
  find-update q p f [] same = refl
  find-update q p f (x ∷ xs) same = ground (arith, find-update q p f xs same, same x)

  -- The changed row, found by what it was changed to.
  pub find-update_one :
      (q p : A → Bool) (f : A → A) (a : A) (xs : List A)
      → find p xs ≡ some a
      → q (f a) ≡ true
      → All (λ x. p x ≡ true → f x ≡ f a) xs
      → any (λ y. not (p y) && q y) xs ≡ false
      → find q (update p f xs) ≡ some (f a)
  find-update_one q p f a [] found hit all free = ground arith
  find-update_one q p f a (x ∷ xs) found hit (here, later) free = elim (Bool-cases (p x)) [
    | inl e ↦ rw (e, here e, hit) refl
    | inr e ↦ rw e (ground (arith, find-update_one q p f a xs))
  ]

  -- A row that a deletion does not select is found as before, by a key.
  pub find-delete_one :
      (q d : A → Bool) (xs : List A)
      → AtMostOne q xs
      → find q (delete d xs) ≡ and_then (find q xs) (λ x. if d x then none else some x)
  find-delete_one q d [] one = refl
  find-delete_one q d (x ∷ xs) (here, later) =
      ground (arith, find-delete_one q d xs later, here, find_of_any q xs)

module _ {ℓ} {A : Type ℓ} (key : A → ℕ) where
  -- A primary key selects at most one row.
  pub AtMostOne-key :
      (k : ℕ) (xs : List A) → NoClash (λ x y. key y == key x) xs → AtMostOne (λ x. key x == k) xs
  AtMostOne-key k [] h = tt
  AtMostOne-key k (x ∷ xs) (here, later) =
      ((λ e. let same : key x ≡ k = ground arith in rw same at here), AtMostOne-key k xs later)
