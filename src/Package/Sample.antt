-- ===== src/Package/Sample.antt =====
-- A package of the store and the crates' answers on it: the data of the tests of the modules that
-- read, verify and install packages.
use pishoo.Base.{
  ℕ, Bool, true, false, ◌&&◌, Option, none, some, List, [], ◌∷◌, Text, chars, text_eq, ◌==◌,
  if◌then◌else◌,
}
use pishoo.Values.{Values, ℤ, pos, negsuc}
use pishoo.Package.Archive.Checks.{Bytes, Entry, Archive, stored}
use pishoo.Package.Archive.{Files}
use pishoo.Package.Signing.{ExtendedKeyUsage, dns_name, Certificate, Crl, Pki}
use pishoo.Package.Signing.Receipt.{expected_receipt}
use pishoo.Package.Store.{store_name, store_owner}
use pishoo.Package.Store.Transfer.{Response, data_frame}
use pishoo.Package.Reader.{Crates}

mutual
  pub data Node : Type 0 where
    null : Node
    str : Text → Node
    int : ℤ → Node
    boolean : Bool → Node
    arr : Nodes → Node
    obj : Fields → Node

  pub data Nodes : Type 0 where
    nil : Nodes
    cons : Node → Nodes → Nodes

  pub data Fields : Type 0 where
    end : Fields
    field : Text → Node → Fields → Fields

abbrev pub nodes : Nodes → List Node
nodes nil = []
nodes (cons n ns) = n ∷ nodes ns

abbrev pub of_nodes : List Node → Nodes
of_nodes [] = nil
of_nodes (n ∷ ns) = cons n (of_nodes ns)

abbrev pub rows : Fields → List (Text × Node)
rows end = []
rows (field key n fs) = (key, n) ∷ rows fs

abbrev pub of_rows : List (Text × Node) → Fields
of_rows [] = end
of_rows ((key, n) ∷ fs) = field key n (of_rows fs)

abbrev pub same_int : ℤ → ℤ → Bool
same_int (pos m) (pos n) = m == n
same_int (negsuc m) (negsuc n) = m == n
same_int a b = false

abbrev pub same_bool : Bool → Bool → Bool
same_bool true b = b
same_bool false b = if b then false else true

unfoldable mutual
  unfolding text_eq

  pub same : Node → Node → Bool
  same null null = true
  same (str s) (str t) = text_eq s t
  same (int m) (int n) = same_int m n
  same (boolean a) (boolean b) = same_bool a b
  same (arr xs) (arr ys) = same_nodes xs ys
  same (obj fs) (obj gs) = same_fields fs gs
  same a b = false

  pub same_nodes : Nodes → Nodes → Bool
  same_nodes nil nil = true
  same_nodes (cons x xs) (cons y ys) = same x y && same_nodes xs ys
  same_nodes xs ys = false

  pub same_fields : Fields → Fields → Bool
  same_fields end end = true
  same_fields (field a x xs) (field b y ys) = text_eq a b && (same x y && same_fields xs ys)
  same_fields xs ys = false

abbrev as_object : Node → Option (List (Text × Node))
as_object (obj fs) = some (rows fs)
as_object n = none

abbrev as_array : Node → Option (List Node)
as_array (arr ns) = some (nodes ns)
as_array n = none

abbrev as_str : Node → Option Text
as_str (str s) = some s
as_str n = none

abbrev as_i64 : Node → Option ℤ
as_i64 (int n) = some n
as_i64 n = none

abbrev as_u64 : Node → Option ℕ
as_u64 (int (pos n)) = some n
as_u64 n = none

abbrev as_bool : Node → Option Bool
as_bool (boolean b) = some b
as_bool n = none

abbrev pub values : Values Node
values = record {
  null = null;
  as_object = as_object;
  as_array = as_array;
  as_str = as_str;
  as_i64 = as_i64;
  as_u64 = as_u64;
  as_bool = as_bool;
  same = same;
  text = str;
  number = int;
  boolean = boolean;
  array = λ ns. arr (of_nodes ns);
  object = λ fs. obj (of_rows fs);
}

-- Certificates: L is the publisher's, and any other one the issuer's.
abbrev publisher : Text
publisher = chars "a.net"

abbrev code_only : ExtendedKeyUsage
code_only = record {
  code_signing = true;
  any = false;
  server_auth = false;
  client_auth = false;
  email_protection = false;
  time_stamping = false;
  ocsp_signing = false;
  has_other = false;
}

abbrev certificate : Bool → Option ℕ → ℕ → Bytes → Certificate
certificate ca path_len flags serial = record {
  key_algorithm = chars "1.2.840.10045.2.1";
  key_curve = some (chars "1.3.132.0.34");
  signature_algorithm = chars "1.2.840.10045.4.3.3";
  basic_constraints =
      some (some (record { critical = true; ca = ca; path_len_constraint = path_len }));
  key_usage = some (some (record { critical = true; flags = flags }));
  extended_key_usage = some (some code_only);
  alternative_names = some (some (dns_name publisher ∷ []));
  common_names = some publisher ∷ [];
  subject = chars "S";
  public_key = chars "K";
  raw_serial = serial;
  not_before = pos 1;
  not_after = pos 900;
}

abbrev pub leaf_cert : Certificate
leaf_cert = certificate false none 1 (1 ∷ [])

abbrev pub issuer_cert : Certificate
issuer_cert = certificate true (some 0) 97 (2 ∷ [])

unfoldable pub parse_certificate : Bytes → Option (Bytes × Certificate)
unfolding text_eq
parse_certificate der =
    if text_eq der (chars "L") then some ([], leaf_cert) else some ([], issuer_cert)

-- The list of number n is n itself.
abbrev parse_crl : Bytes → Option (Bytes × Crl)
parse_crl [] = none
parse_crl (n ∷ rest) = some (
  rest,
  record {
    issuer = chars "S";
    algorithm = chars "1.2.840.10045.4.3.3";
    signature = chars "A";
    tbs_signature = chars "A";
    has_extensions_map = true;
    has_critical = false;
    revoked = [];
    tbs = n ∷ [];
    signature_value = chars "G";
    crl_number = some (n ∷ []);
    last_update = pos 1;
    next_update = some (pos 2000);
  },
)

abbrev pub pki : Pki
pki = record {
  parse_certificate = parse_certificate;
  parse_crl = parse_crl;
  is_anchor = λ r. true;
  is_end_entity = λ r. true;
  verify_for_usage = λ leaf root chain seconds usage. true;
  verify_subject_name = λ leaf name. true;
  subject_key = λ chain. some (record {
    owner_hash = store_owner;
    is_client_and_server = true;
    sequence = 1;
    ski = chars "k";
  });
  verify_signature = λ key input signature. some true;
  normalize_name = λ name. some name;
  digest = λ bytes. 7 ∷ [];
  sha256 = λ bytes. chars "d";
  decode = λ s. some s;
  encode = λ bytes. bytes;
  upper_hex = λ bytes. bytes;
}

abbrev object : List (Text × Node) → Node
object fs = obj (of_rows fs)

abbrev pub manifest : Node
manifest = object (
    (chars "format", str (chars "waz/1"))
    ∷ (
      chars "package",
      object (
          (chars "author", str publisher)
          ∷ (chars "name", str (chars "demo"))
          ∷ (chars "version", str (chars "1.0.0"))
          ∷ (chars "title", str (chars "T"))
          ∷ (chars "description", str (chars "D"))
          ∷ (chars "license", str (chars "X"))
          ∷ (chars "release-notes", str (chars "N"))
          ∷ []),
    )
    ∷ (chars "dependencies", arr nil)
    ∷ (chars "frontend", str (chars "public"))
    ∷ [])

abbrev chain_node : Node
chain_node = arr (cons (str (chars "L")) (cons (str (chars "I")) nil))

abbrev pub envelope : Node
envelope = object (
    (chars "version", int (pos 1))
    ∷ (chars "signature", str (chars "G"))
    ∷ (chars "certificates", chain_node)
    ∷ [])

abbrev pub metadata : Node
metadata = object (
    (chars "id", str (chars "a.net/demo"))
    ∷ (chars "author", str publisher)
    ∷ (chars "name", str (chars "demo"))
    ∷ (chars "version", str (chars "1.0.0"))
    ∷ (chars "status", str (chars "published"))
    ∷ (
      chars "download_path",
      str (chars "/store/v1/packages/a.net/demo/versions/1.0.0/package.waz"),
    )
    ∷ (chars "size", int (pos 341))
    ∷ (chars "package_sha256", str (chars "d"))
    ∷ (chars "author_owner_hash", str store_owner)
    ∷ (chars "signer_certificates", chain_node)
    ∷ (chars "dependencies", arr nil)
    ∷ (chars "title", str (chars "T"))
    ∷ (chars "description", str (chars "D"))
    ∷ (chars "changelog", str (chars "N"))
    ∷ (chars "license", str (chars "X"))
    ∷ (
      chars "signature",
      object (
          (chars "verified_at", int (pos 500))
          ∷ (chars "purpose", str (chars "code_signing"))
          ∷ (chars "leaf_fingerprint_sha256", str (chars "d"))
          ∷ (chars "issuer_id", str (chars "d"))
          ∷ (chars "ski", str (chars "k"))
          ∷ (chars "serial_number", str (1 ∷ []))
          ∷ []),
    )
    ∷ (
      chars "publication_receipt",
      object (
          (chars "payload", str (chars "P"))
          ∷ (chars "signature", str (chars "G"))
          ∷ (chars "certificates", chain_node)
          ∷ []),
    )
    ∷ [])

-- What the names of JSON texts stand for.
unfoldable pub parse_json : Bytes → Option Node
unfolding text_eq expected_receipt
parse_json bytes =
    if text_eq bytes (chars "M")
    then some manifest
    else if text_eq bytes (chars "S")
    then some envelope
    else if text_eq bytes (chars "R")
    then some metadata
    else if text_eq bytes (chars "P")
    then some (expected_receipt values pki (λ b. none) metadata (pos 500))
    else none

abbrev pub archive_bytes : Bytes
archive_bytes =
    80 ∷ 75 ∷ 3 ∷ 4 ∷ 20 ∷ 0 ∷ 0 ∷ 0 ∷ 0 ∷ 0 ∷ 0 ∷ 0 ∷ 33 ∷ 0 ∷ 160 ∷ 210 ∷ 111 ∷ 218 ∷ 1 ∷ 0 ∷ 0
    ∷ 0 ∷ 1 ∷ 0 ∷ 0 ∷ 0 ∷ 13 ∷ 0 ∷ 0 ∷ 0 ∷ 109 ∷ 97 ∷ 110 ∷ 105 ∷ 102 ∷ 101 ∷ 115 ∷ 116 ∷ 46 ∷ 106
    ∷ 115 ∷ 111 ∷ 110 ∷ 77 ∷ 80 ∷ 75 ∷ 3 ∷ 4 ∷ 20 ∷ 0 ∷ 0 ∷ 0 ∷ 0 ∷ 0 ∷ 0 ∷ 0 ∷ 33 ∷ 0 ∷ 185 ∷ 22
    ∷ 2 ∷ 221 ∷ 1 ∷ 0 ∷ 0 ∷ 0 ∷ 1 ∷ 0 ∷ 0 ∷ 0 ∷ 17 ∷ 0 ∷ 0 ∷ 0 ∷ 112 ∷ 117 ∷ 98 ∷ 108 ∷ 105 ∷ 99
    ∷ 47 ∷ 105 ∷ 110 ∷ 100 ∷ 101 ∷ 120 ∷ 46 ∷ 104 ∷ 116 ∷ 109 ∷ 108 ∷ 73 ∷ 80 ∷ 75 ∷ 3 ∷ 4 ∷ 20 ∷ 0
    ∷ 0 ∷ 0 ∷ 0 ∷ 0 ∷ 0 ∷ 0 ∷ 33 ∷ 0 ∷ 195 ∷ 239 ∷ 96 ∷ 32 ∷ 1 ∷ 0 ∷ 0 ∷ 0 ∷ 1 ∷ 0 ∷ 0 ∷ 0 ∷ 14 ∷ 0
    ∷ 0 ∷ 0 ∷ 115 ∷ 105 ∷ 103 ∷ 110 ∷ 97 ∷ 116 ∷ 117 ∷ 114 ∷ 101 ∷ 46 ∷ 106 ∷ 115 ∷ 111 ∷ 110 ∷ 83
    ∷ 80 ∷ 75 ∷ 1 ∷ 2 ∷ 20 ∷ 3 ∷ 20 ∷ 0 ∷ 0 ∷ 0 ∷ 0 ∷ 0 ∷ 0 ∷ 0 ∷ 33 ∷ 0 ∷ 160 ∷ 210 ∷ 111 ∷ 218 ∷ 1
    ∷ 0 ∷ 0 ∷ 0 ∷ 1 ∷ 0 ∷ 0 ∷ 0 ∷ 13 ∷ 0 ∷ 0 ∷ 0 ∷ 0 ∷ 0 ∷ 0 ∷ 0 ∷ 0 ∷ 0 ∷ 0 ∷ 0 ∷ 128 ∷ 129 ∷ 0 ∷ 0
    ∷ 0 ∷ 0 ∷ 109 ∷ 97 ∷ 110 ∷ 105 ∷ 102 ∷ 101 ∷ 115 ∷ 116 ∷ 46 ∷ 106 ∷ 115 ∷ 111 ∷ 110 ∷ 80 ∷ 75
    ∷ 1 ∷ 2 ∷ 20 ∷ 3 ∷ 20 ∷ 0 ∷ 0 ∷ 0 ∷ 0 ∷ 0 ∷ 0 ∷ 0 ∷ 33 ∷ 0 ∷ 185 ∷ 22 ∷ 2 ∷ 221 ∷ 1 ∷ 0 ∷ 0 ∷ 0
    ∷ 1 ∷ 0 ∷ 0 ∷ 0 ∷ 17 ∷ 0 ∷ 0 ∷ 0 ∷ 0 ∷ 0 ∷ 0 ∷ 0 ∷ 0 ∷ 0 ∷ 0 ∷ 0 ∷ 128 ∷ 129 ∷ 44 ∷ 0 ∷ 0 ∷ 0
    ∷ 112 ∷ 117 ∷ 98 ∷ 108 ∷ 105 ∷ 99 ∷ 47 ∷ 105 ∷ 110 ∷ 100 ∷ 101 ∷ 120 ∷ 46 ∷ 104 ∷ 116 ∷ 109
    ∷ 108 ∷ 80 ∷ 75 ∷ 1 ∷ 2 ∷ 20 ∷ 3 ∷ 20 ∷ 0 ∷ 0 ∷ 0 ∷ 0 ∷ 0 ∷ 0 ∷ 0 ∷ 33 ∷ 0 ∷ 195 ∷ 239 ∷ 96 ∷ 32
    ∷ 1 ∷ 0 ∷ 0 ∷ 0 ∷ 1 ∷ 0 ∷ 0 ∷ 0 ∷ 14 ∷ 0 ∷ 0 ∷ 0 ∷ 0 ∷ 0 ∷ 0 ∷ 0 ∷ 0 ∷ 0 ∷ 0 ∷ 0 ∷ 128 ∷ 129
    ∷ 92 ∷ 0 ∷ 0 ∷ 0 ∷ 115 ∷ 105 ∷ 103 ∷ 110 ∷ 97 ∷ 116 ∷ 117 ∷ 114 ∷ 101 ∷ 46 ∷ 106 ∷ 115 ∷ 111
    ∷ 110 ∷ 80 ∷ 75 ∷ 5 ∷ 6 ∷ 0 ∷ 0 ∷ 0 ∷ 0 ∷ 3 ∷ 0 ∷ 3 ∷ 0 ∷ 182 ∷ 0 ∷ 0 ∷ 0 ∷ 137 ∷ 0 ∷ 0 ∷ 0 ∷ 0
    ∷ 0 ∷ []

abbrev pub manifest_entry : Entry
manifest_entry = record {
  name_raw = chars "manifest.json";
  is_dir = false;
  encrypted = false;
  compression = stored;
  unix_mode = some 0o100600;
  size = 1;
  compressed_size = 1;
  crc32 = 3664761504;
  header_start = 0;
  data_start = 43;
  central_header_start = 137;
  content = some (77 ∷ []);
}

abbrev pub index_entry : Entry
index_entry = record {
  name_raw = chars "public/index.html";
  is_dir = false;
  encrypted = false;
  compression = stored;
  unix_mode = some 0o100600;
  size = 1;
  compressed_size = 1;
  crc32 = 3707901625;
  header_start = 44;
  data_start = 91;
  central_header_start = 196;
  content = some (73 ∷ []);
}

abbrev pub signature_entry : Entry
signature_entry = record {
  name_raw = chars "signature.json";
  is_dir = false;
  encrypted = false;
  compression = stored;
  unix_mode = some 0o100600;
  size = 1;
  compressed_size = 1;
  crc32 = 543223747;
  header_start = 92;
  data_start = 136;
  central_header_start = 259;
  content = some (83 ∷ []);
}

abbrev pub archive : Archive
archive = record {
  entries = some manifest_entry ∷ some index_entry ∷ some signature_entry ∷ [];
  offset = 0;
}

abbrev pub crates : Crates Node
crates = record {
  values = values;
  pki = pki;
  parse = parse_json;
  parse_url = λ s. none;
  payloads = λ b. [];
  parse_openapi = λ b. none;
  parse_grantee = λ s. true;
  parse_effect = λ s. true;
  utf8 = λ s. s;
  from_utf8 = λ b. some b;
  open_zip = λ b. some archive;
  root = chars "Z";
}

abbrev pub sample_files : Files
sample_files =
    (chars "signature.json", chars "S")
    ∷ (chars "public/index.html", chars "I")
    ∷ (chars "manifest.json", chars "M")
    ∷ []

abbrev pub response : Text → Bytes → Response
response content_type bytes = record {
  remote = some (record { name = store_name; owner_hash = some store_owner });
  status = 200;
  content_type = some content_type;
  frames = data_frame bytes ∷ [];
}

-- The store has the one release.
unfoldable pub store_answer : Text → Option Response
unfolding text_eq
store_answer path =
    if text_eq path (chars "/store/v1/packages/a.net/demo/versions/1.0.0")
    then some (response (chars "application/json") (chars "R"))
    else some (response (chars "application/zip") archive_bytes)
