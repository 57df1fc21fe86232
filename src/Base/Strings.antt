-- ===== src/Base/Strings.antt =====
-- Text as the list of its code points, and what the program uses of `str` and `char`.
use Prim.Native.Nat.{ℕ, ◌+◌}
use Prim.Native.Char.{code}
use Prim.Native.String.{String}
use mathlib.Core.Path.{◌≡◌, refl}
use mathlib.Core.Bool.{Bool, true, false, ◌&&◌, ◌||◌}
use mathlib.Core.Logic.{◌↔◌, inl, inr}
use mathlib.Core.Option.{Option, none, some}
use mathlib.Core.List.{List, [], ◌∷◌, ◌++◌}
use native.Mathlib.Omega.{arith}
use pishoo.Base.Tests.{ltb, leb, ◌==◌, if◌then◌else◌, Bool-cases, ==_refl, is_some}
use pishoo.Base.Lists.{any}

abbrev pub Text : Type 0
Text = List ℕ

-- The code points of a literal.
abbrev pub chars : String → Text
chars String.[] = []
chars (String.◌∷◌ c s) = code c ∷ chars s

unfoldable pub text_eq : Text → Text → Bool
text_eq [] [] = true
text_eq (x ∷ xs) (y ∷ ys) = x == y && text_eq xs ys
text_eq (x ∷ xs) [] = false
text_eq [] (y ∷ ys) = false

-- `text.strip_prefix(prefix)`
unfoldable pub strip_prefix : Text → Text → Option Text
strip_prefix [] s = some s
strip_prefix (p ∷ ps) [] = none
strip_prefix (p ∷ ps) (c ∷ cs) = if p == c then strip_prefix ps cs else none

unfoldable pub starts_with : Text → Text → Bool
unfolding strip_prefix
starts_with p s = is_some (strip_prefix p s)

unfoldable pub ends_with : ℕ → Text → Bool
ends_with c [] = false
ends_with c (x ∷ []) = x == c
ends_with c (x ∷ y ∷ s) = ends_with c (y ∷ s)

abbrev pub is_nil : Text → Bool
is_nil [] = true
is_nil (x ∷ s) = false

abbrev pub onto_head : ℕ → List Text → List Text
onto_head c [] = (c ∷ []) ∷ []
onto_head c (w ∷ ws) = (c ∷ w) ∷ ws

-- `text.split(c)`: one part more than there are separators
unfoldable pub split : ℕ → Text → List Text
split c [] = [] ∷ []
split c (x ∷ s) = let rest = split c s in if x == c then [] ∷ rest else onto_head x rest

abbrev pub first : List Text → Text
first [] = []
first (w ∷ ws) = w

-- `text.rsplit(c).next()`
unfoldable pub last_part : ℕ → Text → Text
last_part c [] = []
last_part c (x ∷ s) = let rest = last_part c s in if any (λ y. y == c) (x ∷ s) then rest else x ∷ s

unfoldable pub split_once : ℕ → Text → Option (Text × Text)
split_once c [] = none
split_once c (x ∷ s) =
    let rest = split_once c s in
    if x == c
    then some ([], s)
    else elim rest [ none ↦ none | some (before, after) ↦ some (x ∷ before, after) ]

unfoldable pub trim_start : (ℕ → Bool) → Text → Text
trim_start p [] = []
trim_start p (x ∷ s) = let rest = trim_start p s in if p x then rest else x ∷ s

unfoldable pub trim_end : (ℕ → Bool) → Text → Text
trim_end p [] = []
trim_end p (x ∷ s) = let rest = trim_end p s in if p x && is_nil rest then [] else x ∷ rest

unfoldable pub contains_char : ℕ → Text → Bool
contains_char c s = any (λ x. x == c) s

-- `text.contains("//")`
unfoldable pub has_double : ℕ → Text → Bool
has_double c [] = false
has_double c (x ∷ []) = false
has_double c (x ∷ y ∷ s) = (x == c && y == c) || has_double c (y ∷ s)

-- `char::is_control`: the general category Cc
abbrev pub is_control : ℕ → Bool
is_control c = ltb c 32 || (leb 127 c && ltb c 160)

-- `char::is_whitespace`: the property White_Space
abbrev pub is_whitespace : ℕ → Bool
is_whitespace c =
    (leb 9 c && leb c 13)
    || c == 32
    || c == 0x85
    || c == 0xa0
    || c == 0x1680
    || (leb 0x2000 c && leb c 0x200a)
    || c == 0x2028
    || c == 0x2029
    || c == 0x202f
    || c == 0x205f
    || c == 0x3000

unfoldable pub trim : Text → Text
unfolding trim_start trim_end
trim s = trim_end is_whitespace (trim_start is_whitespace s)

abbrev pub is_ascii_lowercase : ℕ → Bool
is_ascii_lowercase c = leb b'a' c && leb c b'z'

abbrev pub is_ascii_uppercase : ℕ → Bool
is_ascii_uppercase c = leb b'A' c && leb c b'Z'

abbrev pub is_ascii_digit : ℕ → Bool
is_ascii_digit c = leb b'0' c && leb c b'9'

abbrev pub lower : ℕ → ℕ
lower c = if is_ascii_uppercase c then c + 32 else c

unfoldable pub to_ascii_lowercase : Text → Text
to_ascii_lowercase [] = []
to_ascii_lowercase (c ∷ s) = lower c ∷ to_ascii_lowercase s

unfoldable pub eq_ignore_ascii_case : Text → Text → Bool
unfolding text_eq to_ascii_lowercase
eq_ignore_ascii_case a b = text_eq (to_ascii_lowercase a) (to_ascii_lowercase b)

-- The bytes of a code point in UTF-8.
abbrev pub width : ℕ → ℕ
width c = if ltb c 0x80 then 1 else if ltb c 0x800 then 2 else if ltb c 0x10000 then 3 else 4

-- `text.len()`, in bytes
unfoldable pub len : Text → ℕ
len [] = 0
len (c ∷ s) = width c + len s

pub text_eq_refl : (a : Text) → text_eq a a ≡ true
unfolding text_eq
text_eq_refl [] = refl
text_eq_refl (x ∷ a) = ground (arith, text_eq_refl a)

pub eq_of_text_eq : (a b : Text) → text_eq a b ≡ true → a ≡ b
unfolding text_eq
eq_of_text_eq [] [] h = refl
eq_of_text_eq [] (y ∷ b) h = cc
eq_of_text_eq (x ∷ a) [] h = cc
eq_of_text_eq (x ∷ a) (y ∷ b) h = ground (arith, eq_of_text_eq a b)

pub text_eq_iff : (a b : Text) → (text_eq a b ≡ true) ↔ (a ≡ b)
text_eq_iff a b = (eq_of_text_eq a b, λ e. rw e (text_eq_refl b))

pub strip_prefix_sound : (p s t : Text) → strip_prefix p s ≡ some t → s ≡ p ++ t
unfolding strip_prefix
strip_prefix_sound [] s t h = ground arith
strip_prefix_sound (p ∷ ps) [] t h = cc
strip_prefix_sound (p ∷ ps) (c ∷ cs) t h = ground (arith, strip_prefix_sound ps cs t)

pub strip_prefix-append : (p t : Text) → strip_prefix p (p ++ t) ≡ some t
unfolding strip_prefix
strip_prefix-append [] t = refl
strip_prefix-append (p ∷ ps) t = rw (==_refl p) (strip_prefix-append ps t)

pub starts_with-append : (p t : Text) → starts_with p (p ++ t) ≡ true
unfolding starts_with
starts_with-append p t = rw (strip_prefix-append p t)

pub starts_with_sound : (p s : Text) → starts_with p s ≡ true → (t : Text) × (s ≡ p ++ t)
unfolding starts_with
starts_with_sound [] s h = (s, refl)
starts_with_sound (p ∷ ps) [] h = absurd' h
  where
    absurd' : false ≡ true → (t : Text) × ([] ≡ p ∷ (ps ++ t))
    absurd' h = cc
starts_with_sound (p ∷ ps) (c ∷ cs) h = elim (Bool-cases (p == c)) [
  | inl same ↦ let r = starts_with_sound ps cs (ground arith) in (r.0, ground (arith, r.1))
  | inr other ↦ (cs, ground arith)
]

pub nil_of_is_nil : (s : Text) → is_nil s ≡ true → s ≡ []
nil_of_is_nil [] h = refl
nil_of_is_nil (x ∷ s) h = cc
