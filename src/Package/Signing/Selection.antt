-- ===== src/Package/Signing/Selection.antt =====
-- src/package/signing.rs, `check_revocations`: which of two lists is selected, and what is kept.
use pishoo.Base.{
  Bool, true, false, Option, none, some, text_eq, text_eq_refl, ◌⊎◌, inl, inr, ok, err, ◌≡◌, refl,
  Bool-cases, Result-cases, arith,
}
use pishoo.Failure.{Error, Fallible}
use pishoo.Values.{ℤ, below}
use pishoo.Package.Archive.Checks.{Bytes}
use pishoo.Package.Signing.{Pki}
use pishoo.Package.Signing.Revocation.{
  bytes_leb, list_at_least, list_above, Writing, not_written, written, written_unsynced, Stored,
  absent, held, validate_crl, validate_optional, select_list, is_incoming, keep_selected,
  check_lists, check_chain,
}
use pishoo.Package.Signing.InForce.{IsInForce, validate_crl-IsInForce}

abbrev pub stored_of : Option Bytes → Stored
stored_of none = absent
stored_of (some bytes) = held bytes

module _ (pki : Pki) (leaf issuer : Bytes) (now : ℤ) where
  -- The file holds no list, or one that is in force and does not name the leaf.
  abbrev pub IsEnforced : Stored → Type 0
  IsEnforced after =
      (after ≡ absent)
      ⊎ ((bytes : Bytes) × (after ≡ held bytes) × IsInForce pki leaf issuer now bytes)

  -- The file holds the list that it held, or a later one.
  abbrev pub IsNotOlder : Bytes → Bytes → Stored → Type 0
  IsNotOlder old number after =
      (bytes : Bytes) × (after ≡ held bytes)
      × ((bytes ≡ old)
          ⊎ ((later : Bytes) × (validate_crl pki leaf issuer bytes now false ≡ ok later)
              × (list_above (some later) (some number) ≡ true)))

  pub keep_selected-old :
      (writing : Writing) (bytes : Bytes) {after : Stored}
      → keep_selected pki leaf issuer now writing (held bytes) false bytes ≡ (after, ok tt)
      → IsEnforced after
  unfolding keep_selected
  keep_selected-old writing bytes {after} h =
      elim (Result-cases (validate_crl pki leaf issuer bytes now true)) [
        | inl (number, e) ↦
            inr (bytes, ground arith, validate_crl-IsInForce pki leaf issuer now bytes e)
        | inr (e, fails) ↦ ground arith
      ]

  pub keep_selected-new :
      (writing : Writing) (stored : Stored) (bytes : Bytes) {after : Stored}
      → keep_selected pki leaf issuer now writing stored true bytes ≡ (after, ok tt)
      → IsEnforced after
  unfolding keep_selected
  keep_selected-new not_written stored bytes h = ground arith
  keep_selected-new written_unsynced stored bytes h = ground arith
  keep_selected-new written stored bytes {after} h =
      elim (Result-cases (validate_crl pki leaf issuer bytes now true)) [
        | inl (number, e) ↦
            inr (bytes, ground arith, validate_crl-IsInForce pki leaf issuer now bytes e)
        | inr (e, fails) ↦ ground arith
      ]

  abbrev KeepIs :
      Writing → Option Bytes → Option Bytes → Option Bytes → Option Bytes → Bool → Bytes → Type 0
  KeepIs writing cached incoming old new newer bytes =
      check_lists pki leaf issuer now writing (stored_of cached) cached incoming old new
      ≡ keep_selected pki leaf issuer now writing (stored_of cached) newer bytes

  -- Which list is selected, of a list that is held and one that is supplied.
  pub check_lists-both :
      (writing : Writing) (c i n m : Bytes)
      → ((list_above (some m) (some n) ≡ false)
          × KeepIs writing (some c) (some i) (some n) (some m) false c)
        ⊎ ((list_above (some m) (some n) ≡ true)
            × KeepIs writing (some c) (some i) (some n) (some m) true i)
  unfolding check_lists select_list is_incoming list_at_least
  check_lists-both writing c i n m = elim (Bool-cases (bytes_leb m n)) [
    | inl above ↦ inl (
      ground arith,
      elim (Bool-cases (text_eq i c)) [ inl same ↦ ground arith | inr other ↦ ground arith ],
    )
    | inr below ↦ inr (ground arith, let self = text_eq_refl i in ground arith)
  ]

  pub check_lists-new :
      (writing : Writing) (i m : Bytes) → KeepIs writing none (some i) none (some m) true i
  unfolding check_lists select_list is_incoming list_at_least
  check_lists-new writing i m = rw (text_eq_refl i) refl

  pub check_lists-old :
      (writing : Writing) (c n : Bytes) → KeepIs writing (some c) none (some n) none false c
  unfolding check_lists select_list is_incoming list_at_least
  check_lists-old writing c n = refl

  pub check_lists-none :
      (writing : Writing)
      → check_lists pki leaf issuer now writing absent none none none none ≡ (absent, ok tt)
  unfolding check_lists select_list
  check_lists-none writing = refl

  abbrev pub numbers : Option Bytes → Fallible (Option Bytes)
  numbers list = validate_optional pki leaf issuer now list

  pub validate_optional-some :
      (bytes : Bytes) {found : Option Bytes}
      → numbers (some bytes) ≡ ok found
      → (n : Bytes) × (found ≡ some n) × (validate_crl pki leaf issuer bytes now false ≡ ok n)
  unfolding validate_optional
  validate_optional-some bytes {found} h =
      elim (Result-cases (validate_crl pki leaf issuer bytes now false)) [
        | inl (n, e) ↦ (n, ground arith, e)
        | inr (e, fails) ↦ ground arith
      ]

  -- Both lists have numbers, or nothing was done.
  pub check_chain-cases :
      (writing : Writing) (stored : Stored) (cached incoming : Option Bytes)
      → ((e : Error) × (check_chain pki leaf issuer now writing stored cached incoming
            ≡ (stored, err e)))
        ⊎ ((old new : Option Bytes) × (numbers cached ≡ ok old)
            × (numbers incoming ≡ ok new)
            × (check_chain pki leaf issuer now writing stored cached incoming
                ≡ check_lists pki leaf issuer now writing stored cached incoming old new))
  unfolding check_chain
  check_chain-cases writing stored cached incoming = elim (Result-cases (numbers cached)) [
    | inr (e, fails) ↦ inl (e, ground arith)
    | inl (old, e1) ↦ elim (Result-cases (numbers incoming)) [
      | inr (e, fails) ↦ inl (e, ground arith)
      | inl (new, e2) ↦ inr (old, new, e1, e2, ground arith)
    ]
  ]
