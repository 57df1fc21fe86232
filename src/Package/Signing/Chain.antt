-- ===== src/Package/Signing/Chain.antt =====
-- src/package/signing.rs, `verify_chain_with_root` and `facts`: which chains of certificates sign
-- packages.
use pishoo.Base.{
  ℕ, ◌+◌, ◌*◌, ◌/◌, ◌%◌, ◌^◌, Bool, true, false, not, ◌&&◌, ◌||◌, Option, none, some, List, [], ◌∷◌,
  Text, chars, text_eq, length, leb, ◌==◌, if◌then◌else◌, is_some, is_nil, ok, err, ◌>>=◌, ◌>>◌,
  refuse_if, ok_or,
}
use pishoo.Failure.{Error, Fallible, package_policy}
use pishoo.Values.{Values, ℤ, pos}
use pishoo.Package.Archive.Checks.{Bytes}
use pishoo.Package.Archive.{Files}
use pishoo.Package.Signing.{
  BasicConstraints, KeyUsage, ExtendedKeyUsage, GeneralName, dns_name, Certificate, SubjectKey,
  code_signing, Pki, required, certificates,
}

abbrev pub untrusted : Error
untrusted = required "signing_certificate_untrusted"

abbrev pub mismatch : Error
mismatch = package_policy "signing_identity_mismatch" 403

abbrev pub bit : ℕ → ℕ → ℕ
bit k flags = flags / 2 ^ k % 2

-- `flags & 33 == 33`
abbrev pub has_issuer_bits : ℕ → Bool
has_issuer_bits flags = bit 0 flags == 1 && bit 5 flags == 1

-- `flags & !97 == 0`
abbrev pub has_no_other_bits : ℕ → Bool
has_no_other_bits flags = flags == bit 0 flags + 32 * bit 5 flags + 64 * bit 6 flags

abbrev pub is_just : Option Text → Text → Bool
is_just none t = false
is_just (some s) t = text_eq s t

abbrev pub is_zero_length : Option ℕ → Bool
is_zero_length none = false
is_zero_length (some n) = n == 0

unfoldable pub wrong_algorithm : Certificate → Bool
unfolding text_eq
wrong_algorithm cert =
    not (text_eq cert.key_algorithm (chars "1.2.840.10045.2.1"))
    || not (is_just cert.key_curve (chars "1.3.132.0.34"))
    || not (text_eq cert.signature_algorithm (chars "1.2.840.10045.4.3.3"))

unfoldable pub wrong_usage : Bool → BasicConstraints → KeyUsage → ExtendedKeyUsage → Bool
wrong_usage is_leaf bc ku eku =
    not bc.critical
    || not ku.critical
    || not eku.code_signing
    || eku.any
    || (if eku.server_auth then not eku.client_auth else eku.client_auth)
    || eku.email_protection
    || eku.time_stamping
    || eku.ocsp_signing
    || eku.has_other
    || (if is_leaf
        then bc.ca || is_some bc.path_len_constraint || not (ku.flags == 1)
        else not bc.ca
          || not (is_zero_length bc.path_len_constraint)
          || not (has_issuer_bits ku.flags)
          || not (has_no_other_bits ku.flags))

-- `.map_err(|_| bad())?.ok_or_else(bad)?`
abbrev pub extension_of : {A : Type 0} → Option (Option A) → Fallible A
extension_of none = err untrusted
extension_of (some none) = err untrusted
extension_of (some (some a)) = ok a

unfoldable pub check_certificate : Bool → Certificate → Fallible (Unit {0})
unfolding wrong_algorithm wrong_usage
check_certificate is_leaf cert =
    refuse_if (wrong_algorithm cert) untrusted >> extension_of cert.basic_constraints >>= λ bc.
    extension_of cert.key_usage >>= λ ku. extension_of cert.extended_key_usage >>= λ eku.
    refuse_if (wrong_usage is_leaf bc ku eku) (required "developer_certificate_required")

abbrev pub is_single_name : Text → List GeneralName → Bool
is_single_name domain (dns_name name ∷ []) = text_eq name domain
is_single_name domain names = false

abbrev pub is_single_common : Text → List (Option Text) → Bool
is_single_common domain (some name ∷ []) = text_eq name domain
is_single_common domain names = false

-- The third certificate, where there is one, is the root.
unfoldable pub is_rooted : Bytes → List Bytes → Bool
unfolding text_eq
is_rooted root [] = true
is_rooted root (third ∷ rest) = text_eq third root

-- What `facts` says of the leaf.
pub record Facts : Type 0 where
  pub leaf_fingerprint_sha256 : Text
  pub issuer_id : Text
  pub serial_number : Text
  pub ski : Text
  pub sequence : ℕ
  pub leaf_der : Text
  pub author_owner_hash : Text
  pub valid_not_before : ℤ
  pub valid_not_after : ℤ

module _ (pki : Pki) where
  unfoldable pub parse_one : Bytes → Fallible Certificate
  parse_one der = elim (pki.parse_certificate der) [
    | none ↦ err untrusted
    | some (remaining, cert) ↦ if is_nil remaining then ok cert else err untrusted
  ]

  unfoldable pub parse_all : List Bytes → Fallible (List Certificate)
  unfolding parse_one
  parse_all [] = ok []
  parse_all (der ∷ chain) = parse_one der >>= λ cert. parse_all chain >>= λ certs. ok (cert ∷ certs)

  abbrev pub is_normal : Text → Bool
  is_normal domain = is_just (pki.normalize_name domain) domain

  unfoldable pub check_names : Text → Certificate → Fallible (Unit {0})
  unfolding text_eq
  check_names domain leaf = extension_of leaf.alternative_names >>= λ names.
      refuse_if (not (is_single_name domain names) || not (is_normal domain)) mismatch
      >> refuse_if (not (is_single_common domain leaf.common_names)) mismatch

  unfoldable pub check_path :
      List Bytes → Bytes → Bytes → List Bytes → Bytes → ℕ → Fallible (Unit {0})
  unfolding is_rooted
  check_path chain leaf issuer rest root seconds =
      ok_or (pki.subject_key chain) untrusted >>= λ ski.
      refuse_if (not ski.is_client_and_server) untrusted
      >> refuse_if (not (is_rooted root rest)) untrusted
      >> refuse_if (not (pki.is_anchor root)) untrusted
      >> refuse_if (not (pki.is_end_entity leaf)) untrusted
      >> refuse_if (not (pki.verify_for_usage leaf root (issuer ∷ []) seconds code_signing))
          untrusted

  -- `parsed.iter().take(2).enumerate()`; the others of the chain have only been parsed.
  unfoldable pub check_parsed : Text → List Certificate → Fallible (Unit {0})
  unfolding check_certificate check_names
  check_parsed domain (leaf ∷ issuer ∷ others) =
      check_certificate true leaf >> check_certificate false issuer >> check_names domain leaf
  check_parsed domain certs = err untrusted

  unfoldable pub verify_chain_with_root : List Bytes → Text → ℤ → Bytes → Fallible (Unit {0})
  unfolding parse_all check_parsed check_path
  verify_chain_with_root (leaf ∷ issuer ∷ rest) domain (pos seconds) root =
      refuse_if (not (leb (length rest) 1)) untrusted
      >> parse_all (leaf ∷ issuer ∷ rest)
      >>= λ certs.
          check_parsed domain certs
          >> check_path (leaf ∷ issuer ∷ rest) leaf issuer rest root seconds
  verify_chain_with_root chain domain seconds root = err untrusted

  abbrev pub facts_of : Bytes → Bytes → Certificate → SubjectKey → Facts
  facts_of leaf issuer cert key = record {
    leaf_fingerprint_sha256 = pki.sha256 leaf;
    issuer_id = pki.sha256 issuer;
    serial_number = pki.upper_hex cert.raw_serial;
    ski = key.ski;
    sequence = key.sequence;
    leaf_der = pki.encode leaf;
    author_owner_hash = key.owner_hash;
    valid_not_before = cert.not_before;
    valid_not_after = cert.not_after;
  }

  -- A chain that is verified has two certificates at least, and its leaf parses.
  unfoldable pub leaf_facts : List Bytes → Fallible Facts
  leaf_facts (leaf ∷ issuer ∷ rest) = elim (pki.parse_certificate leaf) [
    | none ↦ err untrusted
    | some (remaining, cert) ↦ ok_or (pki.subject_key (leaf ∷ issuer ∷ rest)) mismatch >>= λ key.
        ok (facts_of leaf issuer cert key)
  ]
  leaf_facts chain = err untrusted

  module _ {Value : Type 0} (V : Values Value) (parse : Bytes → Option Value) (root : Bytes) where
    unfoldable pub facts : Files → Text → ℤ → Fallible Facts
    unfolding certificates verify_chain_with_root leaf_facts
    facts files domain seconds = certificates V pki parse files >>= λ chain.
        verify_chain_with_root chain domain seconds root >> leaf_facts chain
