-- ===== src/Package/Signing/Revocation.antt =====
-- src/package/signing.rs, `check_revocations` and `validate_crl`: the revocation list that is kept
-- for an issuer. The file of the list is a state: what it holds before and after.
use pishoo.Base.{
  ℕ, ◌*◌, Bool, true, false, not, ◌&&◌, ◌||◌, Option, none, some, List, [], ◌∷◌, ◌++◌, Text, chars,
  text_eq, any, length, leb, ltb, ◌==◌, if◌then◌else◌, is_nil, ok, err, ◌>>=◌, ◌>>◌, refuse_if,
  ok_or,
}
use pishoo.Failure.{Error, Fallible, package_policy, io}
use pishoo.Values.{Values, ℤ, at_most, below}
use pishoo.Package.Archive.Checks.{Bytes}
use pishoo.Package.Archive.{Files}
use pishoo.Package.Signing.{KeyUsage, Certificate, Revoked, Crl, Pki, required, certificates}
use pishoo.Package.Signing.Chain.{bit}

abbrev pub invalid_list : Error
invalid_list = required "signing_revocation_list_invalid"

abbrev pub crl_limit : ℕ
crl_limit = 4 * 1024 * 1024

-- `a <= b` of `Vec<u8>`, which is lexicographic
unfoldable pub bytes_leb : Bytes → Bytes → Bool
bytes_leb [] b = true
bytes_leb (x ∷ a) [] = false
bytes_leb (x ∷ a) (y ∷ b) = let rest = bytes_leb a b in ltb x y || (x == y && rest)

-- `a >= b` and `a > b` of `Option<Vec<u8>>`, where nothing is the least
unfoldable pub list_at_least : Option Bytes → Option Bytes → Bool
unfolding bytes_leb
list_at_least a none = true
list_at_least none (some b) = false
list_at_least (some a) (some b) = bytes_leb b a

abbrev pub list_above : Option Bytes → Option Bytes → Bool
list_above a b = not (list_at_least b a)

-- `ku.value.crl_sign()`
abbrev pub signs_crls : Option (Option KeyUsage) → Bool
signs_crls none = false
signs_crls (some none) = false
signs_crls (some (some ku)) = bit 6 ku.flags == 1

-- `crl.next_update().is_none_or(...)`
abbrev pub has_ended : Option ℤ → ℤ → ℤ → Bool
has_ended none start now = true
has_ended (some end) start now = at_most end now || at_most end start

abbrev pub is_revoked : Bytes → Revoked → Bool
is_revoked serial r = text_eq r.raw_serial serial

-- What became of the new file: it was not put in place, it was, or it was and the last step failed.
pub data Writing : Type 0 where
  not_written written written_unsynced : Writing

-- The file of an issuer's list.
pub data Stored : Type 0 where
  absent unreadable : Stored
  held : Bytes → Stored

module _ (pki : Pki) where
  abbrev pub is_signed : Certificate → Crl → Bool
  is_signed issuer crl = elim (pki.verify_signature issuer.public_key crl.tbs crl.signature_value) [
    | none ↦ false
    | some good ↦ good
  ]

  unfoldable pub list_refused : Bytes → Certificate → Crl → Bool
  unfolding text_eq
  list_refused remaining issuer crl =
      not (is_nil remaining)
      || not (text_eq crl.issuer issuer.subject)
      || not (signs_crls issuer.key_usage)
      || not (text_eq crl.algorithm (chars "1.2.840.10045.4.3.3"))
      || not (text_eq crl.tbs_signature crl.signature)
      || not crl.has_extensions_map
      || crl.has_critical
      || any (λ r. r.has_critical) crl.revoked
      || not (is_signed issuer crl)

  unfoldable pub enforce_crl : Crl → Certificate → ℤ → Fallible (Unit {0})
  unfolding text_eq
  enforce_crl crl leaf now =
      refuse_if (any (is_revoked leaf.raw_serial) crl.revoked)
        (package_policy "signing_certificate_revoked" 403)
      >> refuse_if (below now crl.last_update || has_ended crl.next_update crl.last_update now)
          (package_policy "signing_revocation_list_stale" 503)

  -- What is known of a list before its entries are enforced.
  unfoldable pub authenticate_crl : Bytes → Bytes → Bytes → Fallible (Crl × Certificate)
  unfolding list_refused
  authenticate_crl bytes leaf issuer =
      refuse_if (ltb crl_limit (length bytes)) invalid_list
      >> ok_or (pki.parse_crl bytes) invalid_list
      >>= λ parsed. ok_or (pki.parse_certificate issuer) invalid_list >>= λ authority.
          ok_or (pki.parse_certificate leaf) invalid_list >>= λ subject.
          refuse_if (list_refused parsed.0 authority.1 parsed.1) invalid_list
          >> ok (parsed.1, subject.1)

  -- The number of a list with its length before it.
  unfoldable pub ordered_number : Crl → Fallible Bytes
  ordered_number crl = ok_or crl.crl_number invalid_list >>= λ number.
      refuse_if (ltb 20 (length number)) invalid_list >> ok (length number ∷ number)

  unfoldable pub validate_crl : Bytes → Bytes → Bytes → ℤ → Bool → Fallible Bytes
  unfolding authenticate_crl ordered_number enforce_crl
  validate_crl leaf issuer bytes now enforce = authenticate_crl bytes leaf issuer >>= λ found.
      ordered_number found.0 >>= λ ordered.
      (if enforce then enforce_crl found.0 found.1 now else ok tt) >> ok ordered

  -- `.map(|b| validate_crl(b, ..., false)).transpose()`
  unfoldable pub validate_optional : Bytes → Bytes → ℤ → Option Bytes → Fallible (Option Bytes)
  unfolding validate_crl
  validate_optional leaf issuer now none = ok none
  validate_optional leaf issuer now (some bytes) =
      validate_crl leaf issuer bytes now false >>= λ n. ok (some n)

  unfoldable pub read_stored : Stored → Fallible (Option Bytes)
  read_stored absent = ok none
  read_stored unreadable = err io
  read_stored (held bytes) =
      if leb (length bytes) crl_limit then ok (some bytes) else err invalid_list

  unfoldable pub select_list :
      Option Bytes → Option Bytes → Option Bytes → Option Bytes → Option Bytes
  unfolding list_at_least
  select_list (some old) (some new) cached incoming =
      if list_at_least (some old) (some new) then cached else incoming
  select_list none (some new) cached incoming = incoming
  select_list old none cached incoming = cached

  unfoldable pub is_incoming : Option Bytes → Bytes → Bool
  unfolding text_eq
  is_incoming none bytes = false
  is_incoming (some incoming) bytes = text_eq incoming bytes

  abbrev pub store_list : Writing → Stored → Bytes → Stored × Fallible (Unit {0})
  store_list not_written stored bytes = (stored, err io)
  store_list written stored bytes = (held bytes, ok tt)
  store_list written_unsynced stored bytes = (held bytes, err io)

  -- The selected list is stored where it is newer, and is enforced then.
  unfoldable pub keep_selected :
      Bytes → Bytes → ℤ → Writing → Stored → Bool → Bytes → Stored × Fallible (Unit {0})
  unfolding validate_crl
  keep_selected leaf issuer now writing stored newer bytes =
      let kept = if newer then store_list writing stored bytes else (stored, ok tt) in
      (kept.0, kept.1 >> validate_crl leaf issuer bytes now true >>= λ number. ok tt)

  unfoldable pub check_lists :
      Bytes
      → Bytes
      → ℤ
      → Writing
      → Stored
      → Option Bytes
      → Option Bytes
      → Option Bytes
      → Option Bytes
      → Stored × Fallible (Unit {0})
  unfolding select_list is_incoming list_at_least keep_selected
  check_lists leaf issuer now writing stored cached incoming old new =
      elim (select_list old new cached incoming) [
        | none ↦ (stored, ok tt)
        | some bytes ↦
            keep_selected leaf issuer now writing stored
              (is_incoming incoming bytes && list_above new old) bytes
      ]

  -- Both lists are authenticated before their numbers are compared.
  unfoldable pub check_chain :
      Bytes
      → Bytes
      → ℤ
      → Writing
      → Stored
      → Option Bytes
      → Option Bytes
      → Stored × Fallible (Unit {0})
  unfolding validate_optional check_lists
  check_chain leaf issuer now writing stored cached incoming =
      elim (validate_optional leaf issuer now cached) [
        | err e ↦ (stored, err e)
        | ok old ↦ elim (validate_optional leaf issuer now incoming) [
          | err e ↦ (stored, err e)
          | ok new ↦ check_lists leaf issuer now writing stored cached incoming old new
        ]
      ]

  abbrev pub decode_supplied : Option Text → Fallible (Option Bytes)
  decode_supplied none = ok none
  decode_supplied (some s) = elim (pki.decode s) [
    | none ↦ err invalid_list
    | some bytes ↦ ok (some bytes)
  ]

  unfoldable pub check_chain_of :
      List Bytes → Option Text → ℤ → Writing → Stored → Stored × Fallible (Unit {0})
  unfolding read_stored check_chain
  check_chain_of (leaf ∷ issuer ∷ rest) supplied now writing stored = elim (read_stored stored) [
    | err e ↦ (stored, err e)
    | ok cached ↦ elim (decode_supplied supplied) [
      | err e ↦ (stored, err e)
      | ok incoming ↦ check_chain leaf issuer now writing stored cached incoming
    ]
  ]
  check_chain_of chain supplied now writing stored =
      (stored, err (required "developer_certificate_required"))

  -- `directory.join(format!("{issuer_id}.crl"))`
  abbrev pub list_file : Bytes → Text
  list_file issuer = pki.sha256 issuer ++ chars ".crl"

  abbrev pub with_file : (Text → Stored) → Text → Stored → Text → Stored
  with_file directory name stored other = if text_eq other name then stored else directory other

  module _ {Value : Type 0} (V : Values Value) (parse : Bytes → Option Value) where
    abbrev pub check_in :
        ℤ
        → Writing
        → (Text → Stored)
        → Option Text
        → List Bytes
        → (Text → Stored) × Fallible (Unit {0})
    check_in now writing directory supplied (leaf ∷ issuer ∷ rest) =
        let r =
          check_chain_of (leaf ∷ issuer ∷ rest) supplied now writing
            (directory (list_file issuer)) in
        (with_file directory (list_file issuer) r.0, r.1)
    check_in now writing directory supplied chain =
        (directory, err (required "developer_certificate_required"))

    -- The directory of the lists, by the names of its files, before and after.
    unfoldable pub check_revocations :
        Files → Value → ℤ → Writing → (Text → Stored) → (Text → Stored) × Fallible (Unit {0})
    unfolding certificates check_chain_of text_eq
    check_revocations files supplied now writing directory = elim (certificates V pki parse files) [
      | err e ↦ (directory, err e)
      | ok chain ↦ check_in now writing directory (V.as_str supplied) chain
    ]
