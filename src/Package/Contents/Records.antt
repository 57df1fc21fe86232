-- ===== src/Package/Contents/Records.antt =====
-- src/package/format.rs, `waz_payload`: what the digest that is signed takes in of the files.
use mathlib.Core.List.{append_assoc}
use pishoo.Base.{
  ℕ, ◌<◌, List, [], ◌∷◌, ◌++◌, Text, All, map, length, if◌then◌else◌, ◌≡◌, refl, sym, ap, ◌∙◌, inl,
  inr, Bool-cases, arith,
}
use pishoo.Package.Archive.Checks.{Bytes}
use pishoo.Package.Archive.{Files}
use pishoo.Package.Signing.{Pki}
use pishoo.Values.{Values}
use pishoo.Package.Contents.{to_le_bytes, is_signature_file, file_record, payload_records}
use pishoo.Package.Signing.Numbers.{scale}
use pishoo.Package.Contents.Digits.{length-to_le_bytes, to_le_bytes-injective}

append-parts : (a a' b b' : Bytes) → length a ≡ length a' → a ++ b ≡ a' ++ b' → (a ≡ a') × (b ≡ b')
append-parts [] [] b b' l e = (refl, e)
append-parts [] (x ∷ a') b b' l e = ground arith
append-parts (x ∷ a) [] b b' l e = ground arith
append-parts (x ∷ a) (y ∷ a') b b' l e =
    let (same, rest) = append-parts a a' b b' (ground arith) (ground arith) in
    let head : x ≡ y = ground arith in (ap (λ z. z ∷ a) head ∙ ap (λ zs. y ∷ zs) same, rest)

flat : (w x y z s : Bytes) → (w ++ (x ++ (y ++ z))) ++ s ≡ w ++ (x ++ (y ++ (z ++ s)))
flat w x y z s =
    append_assoc w (x ++ (y ++ z)) s
    ∙ ap (λ r. w ++ r) (append_assoc x (y ++ z) s ∙ ap (λ r. x ++ r) (append_assoc y z s))

-- What is signed of a file.
pub record Seal : Type 0 where
  pub name : Bytes
  pub size : ℕ
  pub digest : Bytes

abbrev covered : Files → Files
covered [] = []
covered (f ∷ files) = let rest = covered files in if is_signature_file f then rest else f ∷ rest

module _ {Value : Type 0} (V : Values Value) (pki : Pki) (utf8 : Text → Bytes) where
  abbrev pub seal_of : Text × Bytes → Seal
  seal_of f = record { name = utf8 f.0; size = length f.1; digest = pki.digest f.1 }

  -- The files but the signature, as they are signed.
  abbrev pub seals : Files → List Seal
  seals [] = []
  seals (f ∷ files) =
      let rest = seals files in if is_signature_file f then rest else seal_of f ∷ rest

  -- Lengths that fit u32 and u64.
  abbrev pub IsSized : Text × Bytes → Type 0
  IsSized f = (length (utf8 f.0) < scale 4) × (length f.1 < scale 8)

  abbrev records : Files → Bytes
  records [] = []
  records (f ∷ files) = file_record V pki utf8 f ++ records files

  payload_records-covered :
      (files : Files) → payload_records V pki utf8 files ≡ records (covered files)
  unfolding payload_records
  payload_records-covered [] = refl
  payload_records-covered (f ∷ files) = elim (Bool-cases (is_signature_file f)) [
    | inl signature ↦ let rest = payload_records-covered files in ground arith
    | inr file ↦ let rest = payload_records-covered files in ground arith
  ]

  seals-covered : (files : Files) → seals files ≡ map seal_of (covered files)
  seals-covered [] = refl
  seals-covered (f ∷ files) = elim (Bool-cases (is_signature_file f)) [
    | inl signature ↦ let rest = seals-covered files in ground arith
    | inr file ↦ let rest = seals-covered files in ground arith
  ]

  covered-IsSized : (files : Files) → All IsSized files → All IsSized (covered files)
  covered-IsSized [] h = tt
  covered-IsSized (f ∷ files) (sized, h) = elim (Bool-cases (is_signature_file f)) [
    | inl signature ↦ rw signature (covered-IsSized files h)
    | inr file ↦ rw file (sized, covered-IsSized files h)
  ]

  not_empty :
      {A : Type 0} {x y : A} (f : Text × Bytes) (s : Bytes)
      → [] ≡ file_record V pki utf8 f ++ s
      → x ≡ y
  unfolding file_record to_le_bytes
  not_empty f s e = ground arith

  module _ (width : ℕ) (length-digest : (bytes : Bytes) → length (pki.digest bytes) ≡ width) where
    file_record-parts :
        (f g : Text × Bytes) (s t : Bytes)
        → IsSized f
        → IsSized g
        → file_record V pki utf8 f ++ s ≡ file_record V pki utf8 g ++ t
        → (seal_of f ≡ seal_of g) × (s ≡ t)
    unfolding file_record
    file_record-parts (n, b) (m, c) s t (fn, fb) (gm, gc) e =
        let flat_e =
          sym (
            flat (to_le_bytes 4 (length (utf8 n))) (utf8 n) (to_le_bytes 8 (length b))
              (pki.digest b) s)
          ∙ e
          ∙ flat (to_le_bytes 4 (length (utf8 m))) (utf8 m) (to_le_bytes 8 (length c))
              (pki.digest c) t in
        let (sizes, e1) =
          append-parts (to_le_bytes 4 (length (utf8 n))) (to_le_bytes 4 (length (utf8 m))) _ _
            (length-to_le_bytes 4 (length (utf8 n)) ∙ sym (length-to_le_bytes 4 (length (utf8 m))))
            flat_e in
        let name_length = to_le_bytes-injective 4 (length (utf8 n)) (length (utf8 m)) fn gm sizes in
        let (names, e2) = append-parts (utf8 n) (utf8 m) _ _ name_length e1 in
        let (lengths, e3) =
          append-parts (to_le_bytes 8 (length b)) (to_le_bytes 8 (length c)) _ _
            (length-to_le_bytes 8 (length b) ∙ sym (length-to_le_bytes 8 (length c))) e2 in
        let size = to_le_bytes-injective 8 (length b) (length c) fb gc lengths in
        let (digests, rest) =
          append-parts (pki.digest b) (pki.digest c) s t (length-digest b ∙ sym (length-digest c))
            e3 in
        (rw (names, size, digests) refl, rest)

    records-seals :
        (fs gs : Files)
        → All IsSized fs
        → All IsSized gs
        → records fs ≡ records gs
        → map seal_of fs ≡ map seal_of gs
    records-seals [] [] hf hg e = refl
    records-seals [] (g ∷ gs) hf hg e = not_empty g (records gs) e
    records-seals (f ∷ fs) [] hf hg e = not_empty f (records fs) (sym e)
    records-seals (f ∷ fs) (g ∷ gs) (f_sized, hf) (g_sized, hg) e =
        let (same, rest) = file_record-parts f g (records fs) (records gs) f_sized g_sized e in
        let others = records-seals fs gs hf hg rest in
        ap (λ x. x ∷ map seal_of fs) same ∙ ap (λ xs. seal_of g ∷ xs) others

    -- Two packages, of files whose lengths fit their fields, that put the same bytes under the digest
    -- which is signed have the same files but the signature: the same names, sizes and digests in the
    -- same order.
    pub payload_records-seals :
        (fs gs : Files)
        → All IsSized fs
        → All IsSized gs
        → payload_records V pki utf8 fs ≡ payload_records V pki utf8 gs
        → seals fs ≡ seals gs
    payload_records-seals fs gs hf hg e =
        seals-covered fs
        ∙ records-seals (covered fs) (covered gs) (covered-IsSized fs hf) (covered-IsSized gs hg)
            (sym (payload_records-covered fs) ∙ e ∙ payload_records-covered gs)
        ∙ sym (seals-covered gs)
