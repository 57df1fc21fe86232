-- ===== src/Package/Signing/Rollback.antt =====
-- src/package/signing.rs, `check_revocations`: the list that is kept never goes back, and what is
-- accepted has been held against the list that is kept.
use pishoo.Base.{
  Bool, true, false, Option, none, some, List, ◌∷◌, Text, ◌⊎◌, inl, inr, ok, err, ◌≡◌, refl, sym,
  ap, ◌∙◌, subst, Result-cases, arith,
}
use pishoo.Failure.{Error}
use pishoo.Values.{ℤ}
use pishoo.Package.Archive.Checks.{Bytes}
use pishoo.Package.Signing.{Pki}
use pishoo.Package.Signing.Revocation.{
  list_above, Writing, not_written, written, written_unsynced, Stored, absent, unreadable, held,
  validate_crl, validate_optional, read_stored, decode_supplied, keep_selected, check_lists,
  check_chain, check_chain_of,
}
use pishoo.Package.Signing.Selection.{
  stored_of, IsEnforced, IsNotOlder, keep_selected-old, keep_selected-new, check_lists-both,
  check_lists-new, check_lists-old, check_lists-none, numbers, validate_optional-some,
  check_chain-cases,
}

module _ (pki : Pki) (leaf issuer : Bytes) (now : ℤ) where
  check_lists-IsEnforced :
      (writing : Writing) (cached incoming old new : Option Bytes) {after : Stored}
      → numbers pki leaf issuer now cached ≡ ok old
      → numbers pki leaf issuer now incoming ≡ ok new
      → check_lists pki leaf issuer now writing (stored_of cached) cached incoming old new
        ≡ (after, ok tt)
      → IsEnforced pki leaf issuer now after
  unfolding validate_optional
  check_lists-IsEnforced writing none none old new {after} e1 e2 h =
      let no_old : none ≡ old = ground arith in
      let no_new : none ≡ new = ground arith in
      let start =
        subst (λ o. check_lists pki leaf issuer now writing absent none none o new ≡ (after, ok tt))
          (sym no_old) h in
      let begin =
        subst
          (λ o. check_lists pki leaf issuer now writing absent none none none o ≡ (after, ok tt))
          (sym no_new) start in
      inl (ap (λ r. r.0) (sym begin ∙ check_lists-none pki leaf issuer now writing))
  check_lists-IsEnforced writing none (some i) old new {after} e1 e2 h =
      let no_old : none ≡ old = ground arith in
      let (m, is_new, f) = validate_optional-some pki leaf issuer now i e2 in
      let start =
        subst
          (λ o. check_lists pki leaf issuer now writing absent none (some i) o new ≡ (after, ok tt))
          (sym no_old) h in
      let begin =
        subst
          (λ o.
            check_lists pki leaf issuer now writing absent none (some i) none o ≡ (after, ok tt))
          is_new start in
      keep_selected-new pki leaf issuer now writing absent i
        (sym (check_lists-new pki leaf issuer now writing i m) ∙ begin)
  check_lists-IsEnforced writing (some c) none old new {after} e1 e2 h =
      let no_new : none ≡ new = ground arith in
      let (n, is_old, f) = validate_optional-some pki leaf issuer now c e1 in
      let start =
        subst
          (λ o.
            check_lists pki leaf issuer now writing (held c) (some c) none o new ≡ (after, ok tt))
          is_old h in
      let begin =
        subst
          (λ o.
            check_lists pki leaf issuer now writing (held c) (some c) none (some n) o
            ≡ (after, ok tt))
          (sym no_new) start in
      keep_selected-old pki leaf issuer now writing c
        (sym (check_lists-old pki leaf issuer now writing c n) ∙ begin)
  check_lists-IsEnforced writing (some c) (some i) old new {after} e1 e2 h =
      let (n, is_old, f) = validate_optional-some pki leaf issuer now c e1 in
      let (m, is_new, g) = validate_optional-some pki leaf issuer now i e2 in
      let start =
        subst
          (λ o.
            check_lists pki leaf issuer now writing (held c) (some c) (some i) o new
            ≡ (after, ok tt))
          is_old h in
      let begin =
        subst
          (λ o.
            check_lists pki leaf issuer now writing (held c) (some c) (some i) (some n) o
            ≡ (after, ok tt))
          is_new start in
      elim (check_lists-both pki leaf issuer now writing c i n m) [
        | inl (same, keeps) ↦ keep_selected-old pki leaf issuer now writing c (sym keeps ∙ begin)
        | inr (newer, keeps) ↦
            keep_selected-new pki leaf issuer now writing (held c) i (sym keeps ∙ begin)
      ]

  pub check_chain-IsEnforced :
      (writing : Writing) (cached incoming : Option Bytes) {after : Stored}
      → check_chain pki leaf issuer now writing (stored_of cached) cached incoming ≡ (after, ok tt)
      → IsEnforced pki leaf issuer now after
  check_chain-IsEnforced writing cached incoming {after} h =
      elim (check_chain-cases pki leaf issuer now writing (stored_of cached) cached incoming) [
        | inl (e, stops) ↦ ground arith
        | inr (old, new, e1, e2, goes) ↦
            check_lists-IsEnforced writing cached incoming old new e1 e2 (sym goes ∙ h)
      ]

  keep_selected-IsNotOlder :
      (writing : Writing) (c n bytes m : Bytes) (newer : Bool)
      → (newer ≡ true
          → (validate_crl pki leaf issuer bytes now false ≡ ok m)
            × (list_above (some m) (some n) ≡ true))
      → IsNotOlder pki leaf issuer now c n
          (keep_selected pki leaf issuer now writing (held c) newer bytes).0
  unfolding keep_selected
  keep_selected-IsNotOlder writing c n bytes m false later = (c, refl, inl refl)
  keep_selected-IsNotOlder not_written c n bytes m true later = (c, refl, inl refl)
  keep_selected-IsNotOlder written c n bytes m true later =
      (bytes, refl, (let (valid, above) = later refl in inr (m, valid, above)))
  keep_selected-IsNotOlder written_unsynced c n bytes m true later =
      (bytes, refl, (let (valid, above) = later refl in inr (m, valid, above)))

  check_lists-IsNotOlder :
      (writing : Writing) (c : Bytes) (incoming : Option Bytes) (new : Option Bytes) (n : Bytes)
      → numbers pki leaf issuer now incoming ≡ ok new
      → IsNotOlder pki leaf issuer now c n
          (check_lists pki leaf issuer now writing (held c) (some c) incoming (some n) new).0
  unfolding validate_optional
  check_lists-IsNotOlder writing c none new n e =
      let no_new : none ≡ new = ground arith in
      subst
        (λ o.
          IsNotOlder pki leaf issuer now c n
            (check_lists pki leaf issuer now writing (held c) (some c) none (some n) o).0)
        no_new
        (subst (λ r. IsNotOlder pki leaf issuer now c n r.0)
          (sym (check_lists-old pki leaf issuer now writing c n))
          (keep_selected-IsNotOlder writing c n c n false (λ t. ground arith)))
  check_lists-IsNotOlder writing c (some i) new n e =
      let (m, is_new, valid) = validate_optional-some pki leaf issuer now i e in
      subst
        (λ o.
          IsNotOlder pki leaf issuer now c n
            (check_lists pki leaf issuer now writing (held c) (some c) (some i) (some n) o).0)
        (sym is_new)
        (elim (check_lists-both pki leaf issuer now writing c i n m) [
          | inl (same, keeps) ↦
              subst (λ r. IsNotOlder pki leaf issuer now c n r.0) (sym keeps)
                (keep_selected-IsNotOlder writing c n c n false (λ t. ground arith))
          | inr (newer, keeps) ↦
              subst (λ r. IsNotOlder pki leaf issuer now c n r.0) (sym keeps)
                (keep_selected-IsNotOlder writing c n i m true (λ t. (valid, newer)))
        ])

  pub check_chain-IsNotOlder :
      (writing : Writing) (c : Bytes) (incoming : Option Bytes) {n : Bytes}
      → validate_crl pki leaf issuer c now false ≡ ok n
      → IsNotOlder pki leaf issuer now c n
          (check_chain pki leaf issuer now writing (held c) (some c) incoming).0
  check_chain-IsNotOlder writing c incoming {n} valid =
      elim (check_chain-cases pki leaf issuer now writing (held c) (some c) incoming) [
        | inl (e, stops) ↦
            subst (λ r. IsNotOlder pki leaf issuer now c n r.0) (sym stops) (c, refl, inl refl)
        | inr (old, new, e1, e2, goes) ↦
            let (n2, is_old, f) = validate_optional-some pki leaf issuer now c e1 in
            let same : n2 ≡ n = ground arith in
            subst (λ r. IsNotOlder pki leaf issuer now c n r.0) (sym goes)
              (subst
                (λ o.
                  IsNotOlder pki leaf issuer now c n
                    (check_lists pki leaf issuer now writing (held c) (some c) incoming o new).0)
                (sym (is_old ∙ ap some same)) (check_lists-IsNotOlder writing c incoming new n e2))
      ]

  read_stored-ok :
      (stored : Stored) {cached : Option Bytes}
      → read_stored pki stored ≡ ok cached
      → stored ≡ stored_of cached
  unfolding read_stored
  read_stored-ok absent h = ground arith
  read_stored-ok unreadable h = ground arith
  read_stored-ok (held bytes) h = ground arith

  check_chain_of-cases :
      (rest : List Bytes) (supplied : Option Text) (writing : Writing) (stored : Stored)
      → ((e : Error) × (check_chain_of pki (leaf ∷ issuer ∷ rest) supplied now writing stored
            ≡ (stored, err e)))
        ⊎ ((cached incoming : Option Bytes) × (stored ≡ stored_of cached)
            × (check_chain_of pki (leaf ∷ issuer ∷ rest) supplied now writing stored
                ≡ check_chain pki leaf issuer now writing stored cached incoming))
  unfolding check_chain_of
  check_chain_of-cases rest supplied writing stored = elim (Result-cases (read_stored pki stored)) [
    | inr (e, fails) ↦ inl (e, ground arith)
    | inl (cached, e1) ↦ elim (Result-cases (decode_supplied pki supplied)) [
      | inr (e, fails) ↦ inl (e, ground arith)
      | inl (incoming, e2) ↦ inr (cached, incoming, read_stored-ok stored e1, ground arith)
    ]
  ]

  -- Where the check accepts, the file holds no list, or one of the issuer that is signed with the key
  -- of the issuer's certificate, does not name the serial number of the leaf, has begun and has an end
  -- that is later than now.
  pub check_chain_of-IsEnforced :
      (rest : List Bytes) (supplied : Option Text) (writing : Writing) (stored : Stored)
      {after : Stored}
      → check_chain_of pki (leaf ∷ issuer ∷ rest) supplied now writing stored ≡ (after, ok tt)
      → IsEnforced pki leaf issuer now after
  check_chain_of-IsEnforced rest supplied writing stored {after} h =
      elim (check_chain_of-cases rest supplied writing stored) [
        | inl (e, stops) ↦ ground arith
        | inr (cached, incoming, holds, goes) ↦
            check_chain-IsEnforced writing cached incoming {after = after} (
              subst
                (λ s. check_chain pki leaf issuer now writing s cached incoming ≡ (after, ok tt))
                holds (sym goes ∙ h))
      ]

  -- Whatever the check answers, and however the writing of the file goes, a list that is valid is
  -- still held after it, or a valid one with a higher number is.
  pub check_chain_of-IsNotOlder :
      (rest : List Bytes) (supplied : Option Text) (writing : Writing) (list : Bytes)
      {number : Bytes}
      → validate_crl pki leaf issuer list now false ≡ ok number
      → IsNotOlder pki leaf issuer now list number
          (check_chain_of pki (leaf ∷ issuer ∷ rest) supplied now writing (held list)).0
  check_chain_of-IsNotOlder rest supplied writing list {number} valid =
      elim (check_chain_of-cases rest supplied writing (held list)) [
        | inl (e, stops) ↦
            subst (λ r. IsNotOlder pki leaf issuer now list number r.0) (sym stops)
              (list, refl, inl refl)
        | inr (none, incoming, holds, goes) ↦ ground arith
        | inr (some cached, incoming, holds, goes) ↦
            let same : cached ≡ list = ground arith in
            subst (λ r. IsNotOlder pki leaf issuer now list number r.0) (sym goes)
              (subst
                (λ c.
                  IsNotOlder pki leaf issuer now list number
                    (check_chain pki leaf issuer now writing (held list) (some c) incoming).0)
                (sym same) (check_chain-IsNotOlder writing list incoming valid))
      ]
