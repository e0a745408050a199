-- ===== src/Base/Lists.antt =====
-- Lists measured by native numbers, and the Boolean iterator methods that the code calls.
use Prim.Native.Nat.{ℕ, zero, suc, ◌+◌}
use mathlib.Core.Path.{◌≡◌, refl, sym}
use mathlib.Core.Logic.{◌⊎◌, inl, inr}
use mathlib.Core.Bool.{Bool, true, false, ◌||◌}
use mathlib.Core.List.{List, [], ◌∷◌, ◌++◌, map}
use mathlib.Core.Option.{Option, none, some}
use native.Mathlib.Omega.{arith}
use pic_x.Base.Tests.{if◌then◌else◌, Bool-cases}

module _ {ℓ} {A : Type ℓ} where
  abbrev pub length : List A → ℕ
  length [] = 0
  length (x ∷ xs) = suc (length xs)

  -- A predicate of every entry, by recursion.
  abbrev pub All {κ} : (A → Type κ) → List A → Type κ
  All P [] = Unit
  All P (x ∷ xs) = P x × All P xs

  -- `iter().any(test)`
  unfoldable pub any : (A → Bool) → List A → Bool
  any test [] = false
  any test (x ∷ xs) = test x || any test xs

  -- `iter().find(test)`
  unfoldable pub find : (A → Bool) → List A → Option A
  find test [] = none
  find test (x ∷ xs) = if test x then some x else find test xs

  -- `iter().filter(test).count()`
  unfoldable pub count_if : (A → Bool) → List A → ℕ
  count_if test [] = 0
  count_if test (x ∷ xs) = (if test x then 1 else 0) + count_if test xs

  -- `retain(test)`, `iter().filter(test)`
  unfoldable pub retain : (A → Bool) → List A → List A
  retain test [] = []
  retain test (x ∷ xs) = let rest = retain test xs in if test x then x ∷ rest else rest

  -- An entry by its place, without truncation.
  pub data In (a : A) : List A → Type ℓ where
    here : {xs : List A} → In a (a ∷ xs)
    there : {x : A} {xs : List A} → In a xs → In a (x ∷ xs)

module _ {ℓ κ} {A : Type ℓ} {B : Type κ} where
  -- `iter().filter_map(f)`
  unfoldable pub map_opt : (A → Option B) → List A → List B
  map_opt f [] = []
  map_opt f (x ∷ xs) = elim (f x) [ none ↦ map_opt f xs | some b ↦ b ∷ map_opt f xs ]

module _ {ℓ} {A : Type ℓ} where
  pub length-append : (xs ys : List A) → length (xs ++ ys) ≡ length xs + length ys
  length-append [] ys = omega arith
  length-append (x ∷ xs) ys = omega (arith, length-append xs ys)

  pub All-append {κ} : (P : A → Type κ) (xs ys : List A) → All P xs → All P ys → All P (xs ++ ys)
  All-append P [] ys h k = k
  All-append P (x ∷ xs) ys (p, h) k = (p, All-append P xs ys h k)

  pub All-In {κ} : (P : A → Type κ) {a : A} {xs : List A} → All P xs → In a xs → P a
  All-In P h here = h.0
  All-In P h (there m) = All-In P h.1 m

  pub In-append_left : {a : A} {xs : List A} (ys : List A) → In a xs → In a (xs ++ ys)
  In-append_left ys here = here
  In-append_left ys (there m) = there (In-append_left ys m)

  pub In-append_right : {a : A} (xs : List A) {ys : List A} → In a ys → In a (xs ++ ys)
  In-append_right [] m = m
  In-append_right (x ∷ xs) m = there (In-append_right xs m)

  pub In-map {κ} : {B : Type κ} (f : A → B) {a : A} {xs : List A} → In a xs → In (f a) (map f xs)
  In-map f here = here
  In-map f (there m) = there (In-map f m)

  pub In-cons : {a x : A} {xs : List A} → In a (x ∷ xs) → (a ≡ x) ⊎ In a xs
  In-cons here = inl refl
  In-cons (there m) = inr m

  pub In-append : {a : A} (xs : List A) {ys : List A} → In a (xs ++ ys) → In a xs ⊎ In a ys
  In-append [] m = inr m
  In-append (x ∷ xs) here = inl here
  In-append (x ∷ xs) (there m) = elim (In-append xs m) [ inl n ↦ inl (there n) | inr n ↦ inr n ]

  pub count_if-append :
      (test : A → Bool) (xs ys : List A)
      → count_if test (xs ++ ys) ≡ count_if test xs + count_if test ys
  unfolding count_if
  count_if-append test [] ys = omega arith
  count_if-append test (x ∷ xs) ys = omega (arith, count_if-append test xs ys)

module _ {ℓ} {A : Type ℓ} where
  abbrev pub get_or : List A → ℕ → A → A
  get_or [] i d = d
  get_or (x ∷ xs) zero d = x
  get_or (x ∷ xs) (suc i) d = get_or xs i d

  abbrev pub take : ℕ → List A → List A
  take zero xs = []
  take (suc n) [] = []
  take (suc n) (x ∷ xs) = x ∷ take n xs

  abbrev pub drop : ℕ → List A → List A
  drop zero xs = xs
  drop (suc n) [] = []
  drop (suc n) (x ∷ xs) = drop n xs

-- `flat_map` over lists at hand.
unfoldable pub flatten {ℓ} : {A : Type ℓ} → List (List A) → List A
flatten [] = []
flatten (xs ∷ rest) = xs ++ flatten rest

module _ {ℓ κ} {A : Type ℓ} {B : Type κ} where
  pub In-map_inv :
      (f : A → B) (xs : List A) {b : B} → In b (map f xs) → (a : A) × In a xs × (f a ≡ b)
  In-map_inv f [] m = elim m [ ]
  In-map_inv f (x ∷ xs) m = elim (In-cons m) [
    | inl p ↦ (x, here, sym p)
    | inr n ↦ let (a, k, p) = In-map_inv f xs n in (a, there k, p)
  ]

-- A test of the entries, or of those that a filter leaves, finds an entry that is there.
module _ {ℓ} {A : Type ℓ} where
  pub any-In :
      (test : A → Bool) (xs : List A) → any test xs ≡ true → (x : A) × In x xs × (test x ≡ true)
  unfolding any
  any-In test [] h = cc
  any-In test (x ∷ xs) h = elim (Bool-cases (test x)) [
    | inl p ↦ (x, here, p)
    | inr p ↦ let (y, m, q) = any-In test xs (rw p at h) in (y, there m, q)
  ]

  pub In-any :
      (test : A → Bool) {x : A} {xs : List A} → In x xs → test x ≡ true → any test xs ≡ true
  unfolding any
  In-any test here p = rw p refl
  In-any test (there {x = y} m) p = ground (arith, In-any test m p)

  pub In-retain_inv :
      (test : A → Bool) (xs : List A) {x : A} → In x (retain test xs) → In x xs × (test x ≡ true)
  unfolding retain
  In-retain_inv test [] m = elim m [ ]
  In-retain_inv test (y ∷ xs) {x} m = elim (Bool-cases (test y)) [
    | inl p ↦ elim (In-cons (rw p at m)) [
      | inl e ↦ rw e (here, p)
      | inr n ↦ let (k, q) = In-retain_inv test xs n in (there k, q)
    ]
    | inr p ↦ let (k, q) = In-retain_inv test xs (rw p at m) in (there k, q)
  ]

  pub In-retain :
      (test : A → Bool) {x : A} {xs : List A} → In x xs → test x ≡ true → In x (retain test xs)
  unfolding retain
  In-retain test here p = rw p here
  In-retain test (there {x = y} m) p = elim (Bool-cases (test y)) [
    | inl q ↦ rw q (there (In-retain test m p))
    | inr q ↦ rw q (In-retain test m p)
  ]
