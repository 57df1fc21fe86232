-- ===== src/Routes/Paths.antt =====
-- Trailing slashes of a location.
use pishoo.Base.{
  ℕ, ◌≡◌, refl, true, false, [], ◌∷◌, ◌++◌, Text, ends_with, trim_end, has_double, ◌==◌, arith,
}

module _ (c : ℕ) where
  -- Nothing is trimmed from a text that does not end with the character.
  pub trim_end_of_other : (s : Text) → ends_with c s ≡ false → trim_end (λ x. x == c) s ≡ s
  unfolding ends_with trim_end
  trim_end_of_other [] h = refl
  trim_end_of_other (x ∷ []) h = ground arith
  trim_end_of_other (x ∷ y ∷ s) h = ground (arith, trim_end_of_other (y ∷ s) h)

  -- Without doubled characters exactly one is trimmed.
  pub trim_end_of_single :
      (s : Text)
      → ends_with c s ≡ true
      → has_double c s ≡ false
      → trim_end (λ x. x == c) s ++ (c ∷ []) ≡ s
  unfolding ends_with trim_end has_double
  trim_end_of_single [] h d = cc
  trim_end_of_single (x ∷ []) h d = ground arith
  trim_end_of_single (x ∷ y ∷ s) h d = ground (arith, trim_end_of_single (y ∷ s) h)
