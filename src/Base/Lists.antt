-- ===== src/Base/Lists.antt =====
-- Lists over the native numbers: the library's names where it has one.
use Prim.Native.Nat.{ℕ, suc, ◌+◌}
use mathlib.Core.Path.{◌≡◌, refl, subst}
use mathlib.Core.Bool.{Bool, true, false, ◌&&◌, ◌||◌}
use mathlib.Core.Logic.{◌⊎◌, inl, inr}
use mathlib.Core.Option.{Option, none, some}
use mathlib.Core.List.{List, [], ◌∷◌, ◌++◌}
use native.Mathlib.Omega.{arith}
use pishoo.Base.Tests.{if◌then◌else◌, and-parts, Bool-cases}

module _ {ℓ} {A : Type ℓ} where
  abbrev pub length : List A → ℕ
  length [] = 0
  length (x ∷ xs) = suc (length xs)

  abbrev pub any : (A → Bool) → List A → Bool
  any p [] = false
  any p (x ∷ xs) = p x || any p xs

  abbrev pub all : (A → Bool) → List A → Bool
  all p [] = true
  all p (x ∷ xs) = p x && all p xs

  -- `iter().find(p)`
  abbrev pub find : (A → Bool) → List A → Option A
  find p [] = none
  find p (x ∷ xs) = if p x then some x else find p xs

  abbrev pub filter : (A → Bool) → List A → List A
  filter p [] = []
  filter p (x ∷ xs) = let rest = filter p xs in if p x then x ∷ rest else rest

  -- Membership by position in the list.
  pub data In (a : A) : List A → Type ℓ where
    here : {x : A} {xs : List A} → x ≡ a → In a (x ∷ xs)
    there : {x : A} {xs : List A} → In a xs → In a (x ∷ xs)

module _ {ℓ κ} {A : Type ℓ} (P : A → Type κ) where
  abbrev pub All : List A → Type κ
  All [] = Unit
  All (x ∷ xs) = P x × All xs

module _ {ℓ} {A : Type ℓ} where
  pub find_sound :
      (p : A → Bool) (xs : List A) {a : A} → find p xs ≡ some a → In a xs × (p a ≡ true)
  find_sound p [] h = cc
  find_sound p (x ∷ xs) {a} h = elim (Bool-cases (p x)) [
    | inl yes_x ↦ let e : x ≡ a = ground arith in (here e, ground arith)
    | inr no_x ↦ let r = find_sound p xs (ground arith) in (there r.0, r.1)
  ]

  pub find-none : (p : A → Bool) (xs : List A) → find p xs ≡ none → All (λ x. p x ≡ false) xs
  find-none p [] h = tt
  find-none p (x ∷ xs) h = elim (Bool-cases (p x)) [
    | inl yes_x ↦ ground arith
    | inr no_x ↦ (no_x, find-none p xs (ground arith))
  ]

  pub all→All : (p : A → Bool) (xs : List A) → all p xs ≡ true → All (λ x. p x ≡ true) xs
  all→All p [] h = tt
  all→All p (x ∷ xs) h = let r = and-parts (p x) (all p xs) h in (r.0, all→All p xs r.1)

  pub any-false : (p : A → Bool) (xs : List A) → any p xs ≡ false → All (λ x. p x ≡ false) xs
  any-false p [] h = tt
  any-false p (x ∷ xs) h = (ground arith, any-false p xs (ground arith))

  pub any_of_In : (p : A → Bool) (xs : List A) {a : A} → In a xs → p a ≡ true → any p xs ≡ true
  any_of_In p [] m h = elim m [ ]
  any_of_In p (x ∷ xs) (here e) h = ground arith
  any_of_In p (x ∷ xs) (there m) h = ground (arith, any_of_In p xs m h)

  pub any-In : (p : A → Bool) (xs : List A) → any p xs ≡ true → (a : A) × In a xs × (p a ≡ true)
  any-In p [] h = cc
  any-In p (x ∷ xs) h = elim (Bool-cases (p x)) [
    | inl found ↦ (x, here refl, found)
    | inr other ↦ let (a, m, e) = any-In p xs (ground arith) in (a, there m, e)
  ]

  pub In-append_cases : (xs ys : List A) {a : A} → In a (xs ++ ys) → In a xs ⊎ In a ys
  In-append_cases [] ys m = inr m
  In-append_cases (x ∷ xs) ys (here e) = inl (here e)
  In-append_cases (x ∷ xs) ys (there m) = elim (In-append_cases xs ys m) [
    | inl n ↦ inl (there n)
    | inr n ↦ inr n
  ]

  pub In-append : (xs ys : List A) {a : A} → In a xs → In a (xs ++ ys)
  In-append [] ys m = elim m [ ]
  In-append (x ∷ xs) ys (here e) = here e
  In-append (x ∷ xs) ys (there m) = there (In-append xs ys m)

  pub In-append_right : (xs ys : List A) {a : A} → In a ys → In a (xs ++ ys)
  In-append_right [] ys m = m
  In-append_right (x ∷ xs) ys m = there (In-append_right xs ys m)

  pub length-append : (xs ys : List A) → length (xs ++ ys) ≡ length xs + length ys
  length-append [] ys = omega arith
  length-append (x ∷ xs) ys = omega (arith, length-append xs ys)

module _ {ℓ κ} {A : Type ℓ} (P : A → Type κ) where
  pub All-In : (xs : List A) {a : A} → All P xs → In a xs → P a
  All-In [] h m = elim m [ ]
  All-In (x ∷ xs) (p, ps) (here e) = subst P e p
  All-In (x ∷ xs) (p, ps) (there m) = All-In xs ps m
