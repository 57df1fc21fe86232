-- ===== src/Package/Contents/Digits.antt =====
-- src/package/format.rs: hexadecimal digits, written and read back, and fixed-width numbers.
use pishoo.Base.{
  ℕ, zero, suc, ◌+◌, ◌*◌, ◌/◌, ◌%◌, ◌<◌, Option, some, [], ◌∷◌, All, length, ltb, ◌≡◌, refl, ap,
  ◌∙◌, inl, inr, Bool-cases, arith,
}
use pishoo.Package.Archive.Checks.{Bytes}
use pishoo.Package.Signing.Numbers.{scale}
use pishoo.Package.Contents.{to_le_bytes, hex_digit, hex, digit_value, with_byte, unhex}

digit_value-hex_digit : (n : ℕ) → n < 16 → digit_value (hex_digit n) ≡ some n
digit_value-hex_digit n h = elim (Bool-cases (ltb n 10)) [
  | inl small ↦ ground arith
  | inr big ↦ ground arith
]

halves : (b : ℕ) → b < 256 → (b / 16 < 16) × (b % 16 < 16) × (b / 16 * 16 + b % 16 ≡ b)
halves b h = (omega arith, omega arith, omega arith)

with_byte-some :
    (high low : Option ℕ) (rest : Option Bytes) {a b : ℕ} {bs : Bytes}
    → high ≡ some a
    → low ≡ some b
    → rest ≡ some bs
    → with_byte high low rest ≡ some ((a * 16 + b) ∷ bs)
with_byte-some high low rest e1 e2 e3 = rw (e1, e2, e3) refl

-- Bytes are read back from their hexadecimal digits.
pub unhex-hex : (bs : Bytes) → All (λ b. b < 256) bs → unhex (hex bs) ≡ some bs
unfolding unhex hex
unhex-hex [] h = refl
unhex-hex (b ∷ bs) (small, h) =
    let (high, low, whole) = halves b small in
    let e1 = digit_value-hex_digit (b / 16) high in
    let e2 = digit_value-hex_digit (b % 16) low in
    let rest = unhex-hex bs h in
    with_byte-some (digit_value (hex_digit (b / 16))) (digit_value (hex_digit (b % 16)))
      (unhex (hex bs)) e1 e2 rest
    ∙ ap (λ x. some (x ∷ bs)) whole

pub length-to_le_bytes : (width n : ℕ) → length (to_le_bytes width n) ≡ width
unfolding to_le_bytes
length-to_le_bytes zero n = refl
length-to_le_bytes (suc width) n = ap suc (length-to_le_bytes width (n / 256))

pub to_le_bytes-injective :
    (width m n : ℕ)
    → m < scale width
    → n < scale width
    → to_le_bytes width m ≡ to_le_bytes width n
    → m ≡ n
unfolding to_le_bytes
to_le_bytes-injective zero m n hm hn e = omega arith
to_le_bytes-injective (suc width) m n hm hn e =
    let same : m % 256 ≡ n % 256 = ground arith in
    let rest =
      to_le_bytes-injective width (m / 256) (n / 256) (omega arith) (omega arith) (ground arith) in
    omega arith
