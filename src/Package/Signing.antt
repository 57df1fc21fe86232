-- ===== src/Package/Signing.antt =====
-- src/package/signing.rs: what the code asks of the crates for certificates, revocation lists and
-- signatures, as an interface, and the certificates of a package.
pub mod Chain
pub mod Trust
pub mod Receipt
pub mod Revocation
pub mod InForce
pub mod Selection
pub mod Rollback
pub mod Numbers
mod Tests
use pishoo.Base.{
  text_eq, any, ℕ, ◌/◌, ◌%◌, ◌^◌, Bool, true, false, not, ◌&&◌, ◌||◌, Option, none, some, List, [],
  ◌∷◌, Text, chars, length, leb, ltb, ◌==◌, if◌then◌else◌, String, ok, err, ◌>>=◌, ◌>>◌, refuse_if,
  ok_or,
}
use pishoo.Failure.{Error, Fallible, invalid_component, package_policy}
use pishoo.Values.{Values, ℤ, lookup, at}
use pishoo.Package.Archive.Checks.{Bytes}
use pishoo.Package.Archive.{Files}

pub record BasicConstraints : Type 0 where
  pub critical : Bool
  pub ca : Bool
  pub path_len_constraint : Option ℕ

pub record KeyUsage : Type 0 where
  pub critical : Bool
  pub flags : ℕ

pub record ExtendedKeyUsage : Type 0 where
  pub code_signing : Bool
  pub any : Bool
  pub server_auth : Bool
  pub client_auth : Bool
  pub email_protection : Bool
  pub time_stamping : Bool
  pub ocsp_signing : Bool
  pub has_other : Bool

pub data GeneralName : Type 0 where
  dns_name : Text → GeneralName
  other_name : GeneralName

-- A parsed certificate. An extension is none where it does not parse, some none where it is absent.
pub record Certificate : Type 0 where
  pub key_algorithm : Text
  pub key_curve : Option Text
  pub signature_algorithm : Text
  pub basic_constraints : Option (Option BasicConstraints)
  pub key_usage : Option (Option KeyUsage)
  pub extended_key_usage : Option (Option ExtendedKeyUsage)
  pub alternative_names : Option (Option (List GeneralName))
  pub common_names : List (Option Text)
  pub subject : Bytes
  pub public_key : Bytes
  pub raw_serial : Bytes
  pub not_before : ℤ
  pub not_after : ℤ

-- `extract_dhttp_subject_key_identifier`
pub record SubjectKey : Type 0 where
  pub owner_hash : Text
  pub is_client_and_server : Bool
  pub sequence : ℕ
  pub ski : Text

pub record Revoked : Type 0 where
  pub raw_serial : Bytes
  pub has_critical : Bool

-- A parsed revocation list.
pub record Crl : Type 0 where
  pub issuer : Bytes
  pub algorithm : Text
  pub signature : Bytes
  pub tbs_signature : Bytes
  pub has_extensions_map : Bool
  pub has_critical : Bool
  pub revoked : List Revoked
  pub tbs : Bytes
  pub signature_value : Bytes
  pub crl_number : Option Bytes
  pub last_update : ℤ
  pub next_update : Option ℤ

pub data Usage : Type 0 where
  code_signing server_auth : Usage

-- The crates x509_parser, webpki, dhttp_home, sha2 and base64.
pub record Pki : Type 0 where
  pub parse_certificate : Bytes → Option (Bytes × Certificate)
  pub parse_crl : Bytes → Option (Bytes × Crl)
  pub is_anchor : Bytes → Bool
  pub is_end_entity : Bytes → Bool
  pub verify_for_usage : Bytes → Bytes → List Bytes → ℕ → Usage → Bool
  pub verify_subject_name : Bytes → Text → Bool
  pub subject_key : List Bytes → Option SubjectKey
  pub verify_signature : Bytes → Bytes → Bytes → Option Bool
  pub normalize_name : Text → Option Text
  -- `Sha256::digest`, and its lower case hexadecimal
  pub digest : Bytes → Bytes
  pub sha256 : Bytes → Text
  pub decode : Text → Option Bytes
  pub encode : Bytes → Text
  pub upper_hex : Bytes → Text

abbrev pub required : String → Error
required code = package_policy code 422

abbrev pub has_chain_length : {A : Type 0} → List A → Bool
has_chain_length chain = leb 2 (length chain) && leb (length chain) 3

abbrev pub is_name_of : Text → GeneralName → Bool
is_name_of domain (dns_name name) = text_eq name domain
is_name_of domain n = false

-- `is_none_or(|names| !names.any(...))`
abbrev pub names_publisher : Text → Option (List GeneralName) → Bool
names_publisher domain none = false
names_publisher domain (some names) = any (is_name_of domain) names

abbrev pub is_version_one : Option ℕ → Bool
is_version_one none = false
is_version_one (some n) = n == 1

module _ {Value : Type 0} (V : Values Value) (pki : Pki) where
  abbrev pub decode_text : Error → Option Text → Fallible Bytes
  decode_text e none = err e
  decode_text e (some s) = ok_or (pki.decode s) e

  unfoldable pub decode_all : Error → List Value → Fallible (List Bytes)
  decode_all e [] = ok []
  decode_all e (value ∷ values) = decode_text e (V.as_str value) >>= λ bytes.
      decode_all e values >>= λ chain. ok (bytes ∷ chain)

  -- The certificates of a signer, as `verify_release` and `verify_component_signature` decode them.
  unfoldable pub decode_signers : List Value → Fallible (List Bytes)
  decode_signers [] = ok []
  decode_signers (value ∷ values) =
      ok_or (V.as_str value) (invalid_component "invalid signer certificate") >>= λ encoded.
      ok_or (pki.decode encoded) (invalid_component "invalid signer certificate encoding")
      >>= λ bytes. decode_signers values >>= λ chain. ok (bytes ∷ chain)

  -- The array of two or three certificates.
  unfoldable pub read_chain : Error → Value → Fallible (List Bytes)
  unfolding decode_all
  read_chain e value = ok_or (V.as_array value) e >>= λ values.
      refuse_if (not (has_chain_length values)) e >> decode_all e values

  unfoldable pub certificates : (Bytes → Option Value) → Files → Fallible (List Bytes)
  unfolding lookup at read_chain
  certificates parse files =
      ok_or (lookup (chars "signature.json") files) (required "developer_certificate_required")
      >>= λ bytes. ok_or (parse bytes) (required "developer_certificate_required") >>= λ envelope.
          read_chain (required "developer_certificate_required")
            (at V (chars "certificates") envelope)
