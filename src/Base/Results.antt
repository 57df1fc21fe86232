-- ===== src/Base/Results.antt =====
-- `Result`, for functions of the program that return `Result<A, E>` and use `?`.
use mathlib.Core.Path.{◌≡◌, refl}
use mathlib.Core.Bool.{Bool, true, false}
use mathlib.Core.Logic.{◌⊎◌, inl, inr}
use mathlib.Core.Option.{Option, none, some}

pub data Result {ℓ} (E A : Type ℓ) : Type ℓ where
  ok : A → Result E A
  err : E → Result E A

module _ {ℓ} {E A B : Type ℓ} where
  infixr 5 ◌>>=◌
  -- `result?` with the rest of the function behind it
  abbrev pub ◌>>=◌ : Result E A → (A → Result E B) → Result E B
  ◌>>=◌ (err e) rest = err e
  ◌>>=◌ (ok value) rest = rest value

infixr 5 ◌>>◌
abbrev pub ◌>>◌ {ℓ} : {E B : Type ℓ} → Result E (Unit {ℓ}) → Result E B → Result E B
check >> rest = check >>= λ _. rest

-- `if condition { return Err(e) }`
abbrev pub refuse_if : {E : Type 0} → Bool → E → Result E (Unit {0})
refuse_if true e = err e
refuse_if false e = ok tt

-- `option.ok_or(e)?`
abbrev pub ok_or {ℓ} : {E A : Type ℓ} → Option A → E → Result E A
ok_or none e = err e
ok_or (some a) e = ok a

pub Result-cases {ℓ} :
    {E A : Type ℓ} (r : Result E A) → ((a : A) × (r ≡ ok a)) ⊎ ((e : E) × (r ≡ err e))
Result-cases (ok a) = inl (a, refl)
Result-cases (err e) = inr (e, refl)

-- A chain that ends well has done its first step well.
pub data Passed {ℓ} {E A B : Type ℓ} (r : Result E A) (rest : A → Result E B) (b : B) : Type ℓ where
  passed : (a : A) → r ≡ ok a → rest a ≡ ok b → Passed r rest b

pub bind-ok {ℓ} :
    {E A B : Type ℓ} (r : Result E A) (rest : A → Result E B) {b : B}
    → (r >>= rest) ≡ ok b
    → Passed r rest b
bind-ok (ok a) rest h = passed a refl h
bind-ok (err e) rest h = cc

pub refuse_if-ok :
    {E B : Type 0} (b : Bool) (e : E) (rest : Result E B) {x : B}
    → (refuse_if b e >> rest) ≡ ok x
    → (b ≡ false) × (rest ≡ ok x)
refuse_if-ok true e rest h = cc
refuse_if-ok false e rest h = (refl, h)

pub ok_or-ok {ℓ} : {E A : Type ℓ} (o : Option A) (e : E) {a : A} → ok_or o e ≡ ok a → o ≡ some a
ok_or-ok none e h = cc
ok_or-ok (some x) e h = cc
