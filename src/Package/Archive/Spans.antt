-- ===== src/Package/Archive/Spans.antt =====
-- Spans in the order of their keys, and what a tiling of them covers.
use pishoo.Base.{
  ℕ, ◌≤◌, ◌<◌, ◌≡◌, refl, List, [], ◌∷◌, String, All, In, here, there, ◌==◌, Bool-cases, inl, inr,
  ◌⊎◌, ok, arith, ltb,
}
use pishoo.Package.Archive.Checks.{Span, map_insert}
use pishoo.Package.Archive.{tile}

pub All-map_insert :
    (P : Span → Type 0) (s : Span) (ts : List Span) → P s → All P ts → All P (map_insert s ts)
unfolding map_insert
All-map_insert P s [] h hs = (h, tt)
All-map_insert P s (t ∷ ts) h (p, ps) = elim (Bool-cases (ltb s.start t.start)) [
  | inl before ↦ rw before (h, (p, ps))
  | inr other ↦ elim (Bool-cases (s.start == t.start)) [
    | inl same ↦ rw (other, same) (h, ps)
    | inr after ↦ rw (other, after) (p, All-map_insert P s ts h ps)
  ]
]

le-or-lt : (a b : ℕ) → (a < b) ⊎ (b ≤ a)
le-or-lt a b = grind arith

pub tile_covers :
    (message : String) (from : ℕ) (spans : List Span) {to : ℕ}
    → tile message from spans ≡ ok to
    → (k : ℕ) → from ≤ k
    → k < to
    → (s : Span) × In s spans × (s.start ≤ k) × (k < s.stop)
unfolding tile
tile_covers message from [] {to} h k lo hi = let e : from ≡ to = cc in absurd (omega (arith, e))
tile_covers message from (s ∷ spans) h k lo hi = elim (Bool-cases (s.start == from)) [
  | inr gap ↦ ground arith
  | inl meets ↦ elim (le-or-lt k s.stop) [
    | inl inside ↦ (s, here refl, ground arith, inside)
    | inr past ↦
        let (t, m, a, b) = tile_covers message s.stop spans (ground arith) k past hi in
        (t, there m, a, b)
  ]
]
