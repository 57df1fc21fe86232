-- ===== src/Package/Names/Laws.antt =====
-- What accepted archive paths look like.
use pishoo.Base.{
  leb→le, and-parts, subst, sym, ◌≤◌, ◌≡◌, ◌≢◌, ◌↔◌, refl, Bool, true, false, not, ◌&&◌, ◌||◌, List,
  [], ◌∷◌, ◌++◌, ℕ, Text, text_eq, text_eq_refl, eq_of_text_eq, chars, split, any, all, All, length,
  is_nil, starts_with, starts_with_sound, starts_with-append, is_control, is_whitespace, leb, len,
  inl, inr, Bool-cases, arith, not-eq-true, ◌⊎◌,
}
use pishoo.Package.Names.{waz_path, dot_part, top_level, forbidden_char}

-- A part of a path that stays in its directory.
abbrev pub IsPlainPart : Text → Type 0
IsPlainPart part = (part ≢ []) × (part ≢ chars ".") × (part ≢ chars "..")

-- No backslash, colon, question mark, number sign or percent sign, and nothing that is not seen.
abbrev pub IsPlainChar : ℕ → Type 0
IsPlainChar c =
    (c ≢ 0x5c)
    × (c ≢ b':')
    × (c ≢ b'?')
    × (c ≢ b'#')
    × (c ≢ b'%')
    × (is_control c ≡ false)
    × (is_whitespace c ≡ false)

-- One of the five files beside `public`, or a path in it.
abbrev pub IsPlaced : Text → Type 0
IsPlaced path =
    (path ≡ chars "manifest.json")
    ⊎ (path ≡ chars "signature.json")
    ⊎ (path ≡ chars "backend.wasm")
    ⊎ (path ≡ chars "README.md")
    ⊎ (path ≡ chars "CHANGELOG.md")
    ⊎ ((rest : Text) × (path ≡ chars "public/" ++ rest))

pub record IsArchivePath (path : Text) : Type 0 where
  pub parts : All IsPlainPart (split b'/' path)
  pub depth : length (split b'/' path) ≤ 33
  pub bytes : len path ≤ 1024
  pub characters : All IsPlainChar path
  pub placed : IsPlaced path

text_eq-false : (s t : Text) → s ≢ t → text_eq s t ≡ false
text_eq-false s t apart = elim (Bool-cases (text_eq s t)) [
  | inl same ↦ absurd (apart (eq_of_text_eq s t same))
  | inr other ↦ other
]

text_eq-ne : (s t : Text) → text_eq s t ≡ false → s ≢ t
text_eq-ne s t h e = ground (arith, text_eq_refl t, subst (λ r. text_eq r t ≡ false) e h)

plain_part : (part : Text) → not (is_nil part || dot_part part) ≡ true → IsPlainPart part
unfolding dot_part
plain_part part h = (
  (λ e. ground (arith, subst (λ t. not (is_nil t || dot_part t) ≡ true) e h)),
  text_eq-ne part (chars ".") (ground arith),
  text_eq-ne part (chars "..") (ground arith),
)

part_plain : (part : Text) → IsPlainPart part → not (is_nil part || dot_part part) ≡ true
unfolding dot_part
part_plain [] (filled, one, two) = absurd (filled refl)
part_plain (c ∷ s) (filled, one, two) =
    ground (arith, text_eq-false (c ∷ s) (chars ".") one, text_eq-false (c ∷ s) (chars "..") two)

plain_parts :
    (parts : List Text)
    → (all (λ part. not (is_nil part || dot_part part)) parts ≡ true) ↔ All IsPlainPart parts
plain_parts [] = ((λ h. tt), (λ h. refl))
plain_parts (part ∷ parts) =
    let rest = plain_parts parts in
    (
      (λ h.
          let (one, others) =
            and-parts (not (is_nil part || dot_part part))
              (all (λ p. not (is_nil p || dot_part p)) parts) h in
          (plain_part part one, rest.0 others)),
      (λ (one, others). ground (arith, part_plain part one, rest.1 others)),
    )

plain_char :
    (c : ℕ)
    → ((forbidden_char c ≡ false) × ((is_control c || is_whitespace c) ≡ false)) ↔ IsPlainChar c
plain_char c = (
  (λ (fine, seen). (
    ground arith,
    ground arith,
    ground arith,
    ground arith,
    ground arith,
    ground (arith, seen),
    ground (arith, seen),
  )),
  (λ (a, b, d, e, f, control, white). (ground arith, ground (arith, control, white))),
)

plain_chars :
    (path : Text)
    → ((any forbidden_char path ≡ false)
        × (any (λ c. is_control c || is_whitespace c) path ≡ false))
      ↔ All IsPlainChar path
plain_chars [] = ((λ h. tt), (λ h. (refl, refl)))
plain_chars (c ∷ path) =
    let rest = plain_chars path in
    (
      (λ (fine, seen). (
        (plain_char c).0 (or_head _ _ fine, or_head _ _ seen),
        rest.0 (or_tail _ _ fine, or_tail _ _ seen),
      )),
      (λ (one, others).
          let (fine, seen) = (plain_char c).1 one in
          let (all_fine, all_seen) = rest.1 others in
          (or_both _ _ fine all_fine, or_both _ _ seen all_seen)),
    )
  where
    or_head : (a b : Bool) → (a || b) ≡ false → a ≡ false
    or_head a b h = ground arith

    or_tail : (a b : Bool) → (a || b) ≡ false → b ≡ false
    or_tail a b h = ground arith

    or_both : (a b : Bool) → a ≡ false → b ≡ false → (a || b) ≡ false
    or_both a b h k = ground arith

top_level-IsPlaced :
    (path : Text) → (top_level path || starts_with (chars "public/") path) ≡ true → IsPlaced path
unfolding top_level
top_level-IsPlaced path h = elim (Bool-cases (text_eq path (chars "manifest.json"))) [
  | inl e ↦ inl (eq_of_text_eq _ _ e)
  | inr a ↦ elim (Bool-cases (text_eq path (chars "signature.json"))) [
    | inl e ↦ inr (inl (eq_of_text_eq _ _ e))
    | inr b ↦ elim (Bool-cases (text_eq path (chars "backend.wasm"))) [
      | inl e ↦ inr (inr (inl (eq_of_text_eq _ _ e)))
      | inr c ↦ elim (Bool-cases (text_eq path (chars "README.md"))) [
        | inl e ↦ inr (inr (inr (inl (eq_of_text_eq _ _ e))))
        | inr d ↦ elim (Bool-cases (text_eq path (chars "CHANGELOG.md"))) [
          | inl e ↦ inr (inr (inr (inr (inl (eq_of_text_eq _ _ e)))))
          | inr f ↦
              inr (inr (inr (inr (inr (starts_with_sound (chars "public/") path (ground arith))))))
        ]
      ]
    ]
  ]
]

IsPlaced-top_level :
    (path : Text) → IsPlaced path → (top_level path || starts_with (chars "public/") path) ≡ true
unfolding top_level text_eq
IsPlaced-top_level path (inl e) = rw e refl
IsPlaced-top_level path (inr (inl e)) = rw e refl
IsPlaced-top_level path (inr (inr (inl e))) = rw e refl
IsPlaced-top_level path (inr (inr (inr (inl e)))) = rw e refl
IsPlaced-top_level path (inr (inr (inr (inr (inl e))))) = rw e refl
IsPlaced-top_level path (inr (inr (inr (inr (inr (rest, e)))))) =
    let begins =
      subst (λ p. starts_with (chars "public/") p ≡ true) (sym e)
        (starts_with-append (chars "public/") rest) in
    ground (arith, begins)

and_parts_7 :
    (a b c d e f g : Bool)
    → (a && b && c && d && e && f && g) ≡ true
    → (c ≡ true) × (b ≡ true) × (d ≡ true) × (e ≡ true) × (f ≡ true) × (g ≡ true)
and_parts_7 a b c d e f g h =
    (ground arith, ground arith, ground arith, ground arith, ground arith, ground arith)

and_7 :
    (a b c d e f g : Bool)
    → a ≡ true
    → b ≡ true
    → c ≡ true
    → d ≡ true
    → e ≡ true
    → f ≡ true
    → g ≡ true
    → (a && b && c && d && e && f && g) ≡ true
and_7 a b c d e f g p q r s t u v = ground arith

not-false : (b : Bool) → b ≡ false → not b ≡ true
not-false b h = ground arith

IsPlaced-filled : (path : Text) → IsPlaced path → is_nil path ≡ false
IsPlaced-filled path (inl e) = rw e refl
IsPlaced-filled path (inr (inl e)) = rw e refl
IsPlaced-filled path (inr (inr (inl e))) = rw e refl
IsPlaced-filled path (inr (inr (inr (inl e)))) = rw e refl
IsPlaced-filled path (inr (inr (inr (inr (inl e))))) = rw e refl
IsPlaced-filled path (inr (inr (inr (inr (inr (rest, e)))))) = rw e refl

waz_path-parts : (path : Text) → waz_path path ≡ true → IsArchivePath path
unfolding waz_path
waz_path-parts path h =
    let (allowed, short, visible, shallow, plain, placed) =
      and_parts_7 (not (is_nil path)) (leb (len path) 1024) (not (any forbidden_char path))
        (not (any (λ c. is_control c || is_whitespace c) path)) (leb (length (split b'/' path)) 33)
        (all (λ part. not (is_nil part || dot_part part)) (split b'/' path))
        (top_level path || starts_with (chars "public/") path) h in
    record {
      parts = (plain_parts (split b'/' path)).0 plain;
      depth = leb→le _ _ shallow;
      bytes = leb→le _ _ short;
      characters = (plain_chars path).0 (not-eq-true _ allowed, not-eq-true _ visible);
      placed = top_level-IsPlaced path placed;
    }

parts-waz_path : (path : Text) → IsArchivePath path → waz_path path ≡ true
unfolding waz_path
parts-waz_path path a =
    let (allowed, visible) = (plain_chars path).1 a.characters in
    and_7 (not (is_nil path)) (leb (len path) 1024) (not (any forbidden_char path))
      (not (any (λ c. is_control c || is_whitespace c) path)) (leb (length (split b'/' path)) 33)
      (all (λ part. not (is_nil part || dot_part part)) (split b'/' path))
      (top_level path || starts_with (chars "public/") path)
      (not-false _ (IsPlaced-filled path a.placed)) (ground (arith, a.bytes)) (not-false _ allowed)
      (not-false _ visible) (ground (arith, a.depth)) ((plain_parts (split b'/' path)).1 a.parts)
      (IsPlaced-top_level path a.placed)

-- A path is accepted exactly if it has at most 33 parts and 1024 bytes; no part is empty, `.` or
-- `..`; no character is a backslash, one of `:?#%`, a control character or white space; and the path
-- is one of the five files beside `public` or begins with `public/`.
pub waz_path-IsArchivePath_iff : (path : Text) → (waz_path path ≡ true) ↔ IsArchivePath path
waz_path-IsArchivePath_iff path = (waz_path-parts path, parts-waz_path path)
