-- ===== src/Package/Signing/Numbers.antt =====
-- src/package/signing.rs, `validate_crl`: the comparison of two lists' numbers, which are bytes with
-- their length before them.
use native.Mathlib.Nat.{mul-le-mul_right, suc-mul}
use pishoo.Base.{
  ℕ, zero, suc, ◌+◌, ◌*◌, ◌≤◌, ◌<◌, true, [], ◌∷◌, All, length, ltb, ◌==◌, ltb→lt, ==_iff, ◌≡◌, ◌↔◌,
  refl, sym, subst, some, ok, ok_or, refuse_if-ok, refuse_if, ◌>>=◌, ◌>>◌, inl, inr, Bool-cases,
  arith,
}
use pishoo.Package.Archive.Checks.{Bytes}
use pishoo.Package.Signing.{Pki, Crl}
use pishoo.Package.Signing.Revocation.{bytes_leb, list_at_least, ordered_number, invalid_list}

-- 256 to the power n
abbrev pub scale : ℕ → ℕ
scale zero = 1
scale (suc n) = 256 * scale n

-- The number that big-endian bytes stand for.
abbrev pub number_of : Bytes → ℕ
number_of [] = 0
number_of (x ∷ xs) = x * scale (length xs) + number_of xs

abbrev pub AreBytes : Bytes → Type 0
AreBytes xs = All (λ x. x < 256) xs

-- What `to_bytes_be` gives: a byte at least, and no leading zero but in the number zero.
abbrev pub IsCanonical : Bytes → Type 0
IsCanonical [] = 1 ≤ 0
IsCanonical (x ∷ []) = x < 256
IsCanonical (x ∷ y ∷ xs) = (1 ≤ x) × AreBytes (x ∷ y ∷ xs)

scale_pos : (n : ℕ) → 1 ≤ scale n
scale_pos zero = omega arith
scale_pos (suc n) = let p = scale_pos n in omega arith

scale_step : (x : ℕ) (p : ℕ) → x < 256 → (x * p) + p ≤ 256 * p
scale_step x p h = subst (λ m. m ≤ 256 * p) (suc-mul x p) (mul-le-mul_right p (ground arith))

number_below_scale : (xs : Bytes) → AreBytes xs → number_of xs < scale (length xs)
number_below_scale [] h = omega arith
number_below_scale (x ∷ xs) (small, h) =
    let rest = number_below_scale xs h in
    let step = scale_step x (scale (length xs)) small in omega arith

scale_grows : (m n : ℕ) → m ≤ n → scale m ≤ scale n
scale_grows zero n h = scale_pos n
scale_grows (suc m) zero h = omega arith
scale_grows (suc m) (suc n) h = let g = scale_grows m n (omega arith) in omega arith

canonical_bytes : (xs : Bytes) → IsCanonical xs → AreBytes xs
canonical_bytes [] h = tt
canonical_bytes (x ∷ []) h = (h, tt)
canonical_bytes (x ∷ y ∷ xs) (lead, h) = h

-- A canonical number of two bytes or more is not below the scale of its tail.
canonical_above : (x y : ℕ) (xs : Bytes) → 1 ≤ x → scale (length (y ∷ xs)) ≤ number_of (x ∷ y ∷ xs)
canonical_above x y xs lead =
    let step : 1 * scale (length (y ∷ xs)) ≤ x * scale (length (y ∷ xs)) =
      mul-le-mul_right (scale (length (y ∷ xs))) lead in
    omega arith

shorter_below :
    (a b : Bytes) → IsCanonical a → IsCanonical b → length a < length b → number_of a < number_of b
shorter_below a [] h g l = omega arith
shorter_below [] (y ∷ []) h g l = omega arith
shorter_below (x ∷ a) (y ∷ []) h g l = omega arith
shorter_below a (y ∷ z ∷ b) h (lead, g) l =
    let under = number_below_scale a (canonical_bytes a h) in
    let grows = scale_grows (length a) (length (z ∷ b)) (omega arith) in
    let above = canonical_above y z b lead in omega arith

head_below :
    (x y : ℕ) (a b : Bytes)
    → AreBytes a
    → x < y
    → length a ≡ length b
    → number_of (x ∷ a) < number_of (y ∷ b)
head_below x y a b h l same =
    let under = number_below_scale a h in
    let step : suc x * scale (length b) ≤ y * scale (length b) =
      mul-le-mul_right (scale (length b)) l in
    let split = suc-mul x (scale (length b)) in
    subst (λ n. x * scale n + number_of a < y * scale (length b) + number_of b) (sym same)
      (let fits = subst (λ n. number_of a < scale n) same under in omega arith)

bytes_leb_iff :
    (a b : Bytes)
    → AreBytes a
    → AreBytes b
    → length a ≡ length b
    → (bytes_leb a b ≡ true) ↔ (number_of a ≤ number_of b)
unfolding bytes_leb
bytes_leb_iff [] [] h g same = ((λ e. omega arith), (λ e. refl))
bytes_leb_iff [] (y ∷ b) h g same = ground arith
bytes_leb_iff (x ∷ a) [] h g same = ground arith
bytes_leb_iff (x ∷ a) (y ∷ b) (hx, h) (gy, g) same =
    let tails : length a ≡ length b = ground arith in
    elim (Bool-cases (ltb x y)) [
      | inl less ↦
          let above = head_below x y a b h (ltb→lt x y less) tails in
          ((λ e. omega arith), (λ le. ground arith))
      | inr not_less ↦ elim (Bool-cases (x == y)) [
        | inl equal ↦
            let rest = bytes_leb_iff a b h g tails in
            let one : x ≡ y = (==_iff x y).0 equal in
            let head : x * scale (length a) ≡ y * scale (length b) = rw (one, tails) refl in
            (
              (λ e. let le = rest.0 (ground arith) in omega arith),
              (λ le. let e = rest.1 (omega arith) in ground arith),
            )
        | inr other ↦
            let above = head_below y x b a g (ground arith) (sym tails) in
            ((λ e. ground arith), (λ le. ground arith))
      ]
    ]

bytes_leb-number_iff :
    (a b : Bytes)
    → IsCanonical a
    → IsCanonical b
    → (bytes_leb (length a ∷ a) (length b ∷ b) ≡ true) ↔ (number_of a ≤ number_of b)
unfolding bytes_leb
bytes_leb-number_iff a b h g = elim (Bool-cases (ltb (length a) (length b))) [
  | inl shorter ↦
      let below = shorter_below a b h g (ltb→lt (length a) (length b) shorter) in
      ((λ e. omega arith), (λ le. ground arith))
  | inr not_shorter ↦ elim (Bool-cases (length a == length b)) [
    | inl equal ↦
        let same : length a ≡ length b = (==_iff (length a) (length b)).0 equal in
        let tails = bytes_leb_iff a b (canonical_bytes a h) (canonical_bytes b g) same in
        ((λ e. tails.0 (ground arith)), (λ le. let e = tails.1 le in ground arith))
    | inr longer ↦
        let below = shorter_below b a g h (ground arith) in
        ((λ e. ground arith), (λ le. ground arith))
  ]
]

module _ (pki : Pki) where
  ordered_number-lem :
      (crl : Crl) {x m : Bytes}
      → crl.crl_number ≡ some x
      → ordered_number pki crl ≡ ok m
      → (length x ∷ x) ≡ m
  unfolding ordered_number
  ordered_number-lem crl {x} {m} is_x h =
      let start : (ok_or (some x) invalid_list >>= λ number.
      refuse_if (ltb 20 (length number)) invalid_list >> ok (length number ∷ number))
          ≡ ok m =
        subst
          (λ o.
            (ok_or o invalid_list >>= λ number.
            refuse_if (ltb 20 (length number)) invalid_list >> ok (length number ∷ number))
            ≡ ok m)
          is_x h in
      let (short, h1) = refuse_if-ok (ltb 20 (length x)) invalid_list _ start in ground arith

  -- Of two lists whose numbers are as `to_bytes_be` writes them, the ordered number of the first is
  -- at least that of the second exactly when its number is.
  pub ordered_number-list_at_least_iff :
      (first second : Crl) {x y m n : Bytes}
      → first.crl_number ≡ some x
      → second.crl_number ≡ some y
      → IsCanonical x
      → IsCanonical y
      → ordered_number pki first ≡ ok m
      → ordered_number pki second ≡ ok n
      → (list_at_least (some m) (some n) ≡ true) ↔ (number_of y ≤ number_of x)
  unfolding list_at_least
  ordered_number-list_at_least_iff first second {x} {y} {m} {n} is_x is_y cx cy h g =
      subst (λ m. (list_at_least (some m) (some n) ≡ true) ↔ (number_of y ≤ number_of x))
        (ordered_number-lem first is_x h)
        (subst
          (λ n. (list_at_least (some (length x ∷ x)) (some n) ≡ true) ↔ (number_of y ≤ number_of x))
          (ordered_number-lem second is_y g) (bytes_leb-number_iff y x cy cx))
