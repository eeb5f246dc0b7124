-- ===== src/Prelude/Lists.antt =====
-- Lists over the native numbers, and predicates on lists by recursion.
use Prim.Native.Nat.{ℕ, suc, ◌+◌}
use mathlib.Core.Path.{◌≡◌, refl, sym}
use mathlib.Core.Logic.{◌⊎◌, inl, inr}
use mathlib.Core.Bool.{Bool, true, false, ◌&&◌, ◌||◌}
use mathlib.Core.List.{List, [], ◌∷◌, ◌++◌, map}
use native.Mathlib.Omega.{arith}
use ocudu_infra_srs.Prelude.Tests.{if◌then◌else◌, Bool-cases}

module _ {ℓ} {A : Type ℓ} where
  abbrev pub length : List A → ℕ
  length [] = 0
  length (x ∷ xs) = suc (length xs)

  -- `[x for x in xs if p(x)]`
  abbrev pub select : (A → Bool) → List A → List A
  select p [] = []
  select p (x ∷ xs) = if p x then x ∷ select p xs else select p xs

  -- `any(p(x) for x in xs)` and `all(p(x) for x in xs)`
  abbrev pub any : (A → Bool) → List A → Bool
  any p [] = false
  any p (x ∷ xs) = p x || any p xs

  abbrev pub all : (A → Bool) → List A → Bool
  all p [] = true
  all p (x ∷ xs) = p x && all p xs

  -- `x` stands in the list. A place in the list, so it is a family that can be matched.
  pub data In (x : A) : List A → Type ℓ where
    here : {xs : List A} → In x (x ∷ xs)
    there : {y : A} {xs : List A} → In x xs → In x (y ∷ xs)

  pub In-cons : {x y : A} {xs : List A} → In x (y ∷ xs) → (x ≡ y) ⊎ In x xs
  In-cons here = inl refl
  In-cons (there i) = inr i

  pub In-single : {x y : A} → In x (y ∷ []) → x ≡ y
  In-single here = refl
  In-single (there i) = elim i [ ]

  abbrev pub All {κ} : (A → Type κ) → List A → Type κ
  All P [] = Unit
  All P (x ∷ xs) = P x × All P xs

  pub All-In {κ} : (P : A → Type κ) {x : A} (xs : List A) → All P xs → In x xs → P x
  All-In P [] h i = elim i [ ]
  All-In P (x ∷ xs) h here = h.0
  All-In P (x ∷ xs) h (there i) = All-In P xs h.1 i

  pub All-intro {κ} : (P : A → Type κ) (xs : List A) → ((x : A) → In x xs → P x) → All P xs
  All-intro P [] h = tt
  All-intro P (x ∷ xs) h = (h x here, All-intro P xs (λ y i. h y (there i)))

  pub All-append {κ} : (P : A → Type κ) (xs ys : List A) → All P xs → All P ys → All P (xs ++ ys)
  All-append P [] ys h k = k
  All-append P (x ∷ xs) ys h k = (h.0, All-append P xs ys h.1 k)

  select-In_kept :
      (p : A → Bool) (y : A) {x : A} (xs : List A)
      → p y ≡ true
      → In x (y ∷ select p xs)
      → (In x (select p xs) → In x xs × (p x ≡ true))
      → In x (y ∷ xs) × (p x ≡ true)
  select-In_kept p y xs e here ih = (here, e)
  select-In_kept p y xs e (there i) ih = (there (ih i).0, (ih i).1)

  pub select-In : (p : A → Bool) {x : A} (xs : List A) → In x (select p xs) → In x xs × (p x ≡ true)
  select-In p [] i = elim i [ ]
  select-In p (x ∷ xs) i = elim (Bool-cases (p x)) [
    | inl e ↦ select-In_kept p x xs e (rw e at i) (select-In p xs)
    | inr e ↦ let (j, h) = select-In p xs (rw e at i) in (there j, h)
  ]

  pub In-select : (p : A → Bool) {x : A} (xs : List A) → In x xs → p x ≡ true → In x (select p xs)
  In-select p [] i h = elim i [ ]
  In-select p (x ∷ xs) here h = rw h here
  In-select p (x ∷ xs) (there i) h = elim (Bool-cases (p x)) [
    | inl e ↦ rw e (there (In-select p xs i h))
    | inr e ↦ rw e (In-select p xs i h)
  ]

  pub In-append_left : {x : A} (xs ys : List A) → In x xs → In x (xs ++ ys)
  In-append_left [] ys i = elim i [ ]
  In-append_left (x ∷ xs) ys here = here
  In-append_left (x ∷ xs) ys (there i) = there (In-append_left xs ys i)

  pub In-append_right : {x : A} (xs ys : List A) → In x ys → In x (xs ++ ys)
  In-append_right [] ys i = i
  In-append_right (x ∷ xs) ys i = there (In-append_right xs ys i)

  pub In-append : {x : A} (xs ys : List A) → In x (xs ++ ys) → In x xs ⊎ In x ys
  In-append [] ys i = inr i
  In-append (x ∷ xs) ys here = inl here
  In-append (x ∷ xs) ys (there i) = elim (In-append xs ys i) [
    | inl j ↦ inl (there j)
    | inr j ↦ inr j
  ]

module _ {ℓ κ} {A : Type ℓ} {B : Type κ} where
  pub In-map : (f : A → B) {x : A} (xs : List A) → In x xs → In (f x) (map f xs)
  In-map f [] i = elim i [ ]
  In-map f (x ∷ xs) here = here
  In-map f (x ∷ xs) (there i) = there (In-map f xs i)

  pub map-In : (f : A → B) {y : B} (xs : List A) → In y (map f xs) → (x : A) × In x xs × (f x ≡ y)
  map-In f [] i = elim i [ ]
  map-In f (x ∷ xs) i = elim (In-cons i) [
    | inl e ↦ (x, here, sym e)
    | inr j ↦ let (z, k, e) = map-In f xs j in (z, there k, e)
  ]

  pub length-map : (f : A → B) (xs : List A) → length (map f xs) ≡ length xs
  length-map f [] = refl
  length-map f (x ∷ xs) = omega (arith, length-map f xs)

  -- `[y for x in xs for y in f(x)]`
  abbrev pub flat_map : (A → List B) → List A → List B
  flat_map f [] = []
  flat_map f (x ∷ xs) = f x ++ flat_map f xs

  pub In-flat_map :
      (f : A → List B) {x : A} {y : B} (xs : List A) → In x xs → In y (f x) → In y (flat_map f xs)
  In-flat_map f [] i j = elim i [ ]
  In-flat_map f (x ∷ xs) here j = In-append_left (f x) (flat_map f xs) j
  In-flat_map f (x ∷ xs) (there i) j = In-append_right (f x) (flat_map f xs) (In-flat_map f xs i j)

  pub flat_map-In :
      (f : A → List B) {y : B} (xs : List A) → In y (flat_map f xs) → (x : A) × In x xs × In y (f x)
  flat_map-In f [] i = elim i [ ]
  flat_map-In f (x ∷ xs) i = elim (In-append (f x) (flat_map f xs) i) [
    | inl j ↦ (x, here, j)
    | inr j ↦ let (z, k, l) = flat_map-In f xs j in (z, there k, l)
  ]

pub length-append {ℓ} : {A : Type ℓ} (xs ys : List A) → length (xs ++ ys) ≡ length xs + length ys
length-append [] ys = omega arith
length-append (x ∷ xs) ys = omega (arith, length-append xs ys)
