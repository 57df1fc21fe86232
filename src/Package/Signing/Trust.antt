-- ===== src/Package/Signing/Trust.antt =====
-- src/package/signing.rs, `verify_chain_with_root`: what a chain that is verified is known to be.
use pishoo.Base.{
  ℕ, ◌≤◌, Bool, true, false, not, Option, none, some, List, [], ◌∷◌, Text, eq_of_text_eq, length,
  leb, leb→le, ==_iff, is_some, All, ok, bind-ok, passed, refuse_if-ok, ok_or, ◌≡◌, refl, sym, ap,
  ◌∙◌, subst, inl, inr, Bool-cases, Option-cases, arith,
}
use pishoo.Values.{ℤ, pos, negsuc}
use pishoo.Package.Archive.Checks.{Bytes}
use pishoo.Package.Signing.{
  BasicConstraints, KeyUsage, ExtendedKeyUsage, GeneralName, dns_name, other_name, Certificate,
  code_signing, Pki,
}
use pishoo.Package.Signing.Chain.{
  untrusted, has_issuer_bits, is_zero_length, wrong_algorithm, wrong_usage, extension_of,
  check_certificate, is_single_name, is_single_common, is_rooted, parse_one, parse_all, check_names,
  check_path, check_parsed, verify_chain_with_root,
}

-- The part of a certificate in a chain: the leaf signs and is no authority, the issuer is one for
-- leaves only.
abbrev pub HasRole : Bool → BasicConstraints → KeyUsage → Type 0
HasRole true bc ku = (bc.ca ≡ false) × (bc.path_len_constraint ≡ none) × (ku.flags ≡ 1)
HasRole false bc ku =
    (bc.ca ≡ true) × (bc.path_len_constraint ≡ some 0) × (has_issuer_bits ku.flags ≡ true)

pub record IsCodeSigner (is_leaf : Bool) (cert : Certificate) : Type 0 where
  pub bc : BasicConstraints
  pub ku : KeyUsage
  pub eku : ExtendedKeyUsage
  pub has_bc : cert.basic_constraints ≡ some (some bc)
  pub has_ku : cert.key_usage ≡ some (some ku)
  pub has_eku : cert.extended_key_usage ≡ some (some eku)
  pub critical : (bc.critical ≡ true) × (ku.critical ≡ true)
  pub signs_code : eku.code_signing ≡ true
  pub no_other_purpose :
      (eku.any ≡ false)
      × (eku.email_protection ≡ false)
      × (eku.time_stamping ≡ false)
      × (eku.ocsp_signing ≡ false)
      × (eku.has_other ≡ false)
  pub role : HasRole is_leaf bc ku

extension_of-ok :
    {A : Type 0} (o : Option (Option A)) {a : A} → extension_of o ≡ ok a → o ≡ some (some a)
extension_of-ok none h = cc
extension_of-ok (some none) h = cc
extension_of-ok (some (some x)) h = cc

path_len : (n : Option ℕ) → is_zero_length n ≡ true → n ≡ some 0
path_len none h = cc
path_len (some n) h = ap some ((==_iff n 0).0 h)

no_path_len : (n : Option ℕ) → is_some n ≡ false → n ≡ none
no_path_len none h = refl
no_path_len (some n) h = cc

role_of_usage :
    (is_leaf : Bool) (bc : BasicConstraints) (ku : KeyUsage) (eku : ExtendedKeyUsage)
    → wrong_usage is_leaf bc ku eku ≡ false
    → HasRole is_leaf bc ku
unfolding wrong_usage
role_of_usage true bc ku eku h =
    (ground arith, no_path_len bc.path_len_constraint (ground arith), ground arith)
role_of_usage false bc ku eku h =
    (ground arith, path_len bc.path_len_constraint (ground arith), ground arith)

usage-IsCodeSigner :
    (is_leaf : Bool) (cert : Certificate) (bc : BasicConstraints) (ku : KeyUsage)
    (eku : ExtendedKeyUsage)
    → cert.basic_constraints ≡ some (some bc)
    → cert.key_usage ≡ some (some ku)
    → cert.extended_key_usage ≡ some (some eku)
    → wrong_usage is_leaf bc ku eku ≡ false
    → IsCodeSigner is_leaf cert
unfolding wrong_usage
usage-IsCodeSigner is_leaf cert bc ku eku has_bc has_ku has_eku h = record {
  bc = bc;
  ku = ku;
  eku = eku;
  has_bc = has_bc;
  has_ku = has_ku;
  has_eku = has_eku;
  critical = (ground arith, ground arith);
  signs_code = ground arith;
  no_other_purpose = (ground arith, ground arith, ground arith, ground arith, ground arith);
  role = role_of_usage is_leaf bc ku eku h;
}

check_certificate-IsCodeSigner :
    (is_leaf : Bool) (cert : Certificate)
    → check_certificate is_leaf cert ≡ ok tt
    → IsCodeSigner is_leaf cert
unfolding check_certificate
check_certificate-IsCodeSigner is_leaf cert h =
    let (algorithm, h1) = refuse_if-ok (wrong_algorithm cert) untrusted _ h in
    elim (bind-ok (extension_of cert.basic_constraints) _ h1) [
      | passed bc e2 h2 ↦ elim (bind-ok (extension_of cert.key_usage) _ h2) [
        | passed ku e3 h3 ↦ elim (bind-ok (extension_of cert.extended_key_usage) _ h3) [
          | passed eku e4 h4 ↦
              usage-IsCodeSigner is_leaf cert bc ku eku (extension_of-ok _ e2)
                (extension_of-ok _ e3) (extension_of-ok _ e4)
                (elim (Bool-cases (wrong_usage is_leaf bc ku eku)) [
                  | inl wrong ↦ ground arith
                  | inr fine ↦ fine
                ])
        ]
      ]
    ]

is_single_name-ok :
    (domain : Text) (names : List GeneralName)
    → is_single_name domain names ≡ true
    → names ≡ dns_name domain ∷ []
is_single_name-ok domain [] h = cc
is_single_name-ok domain (dns_name name ∷ []) h =
    ap (λ n. dns_name n ∷ []) (eq_of_text_eq name domain h)
is_single_name-ok domain (dns_name name ∷ x ∷ names) h = cc
is_single_name-ok domain (other_name ∷ names) h = cc

is_single_common-ok :
    (domain : Text) (names : List (Option Text))
    → is_single_common domain names ≡ true
    → names ≡ some domain ∷ []
is_single_common-ok domain [] h = cc
is_single_common-ok domain (some name ∷ []) h = ap (λ n. some n ∷ []) (eq_of_text_eq name domain h)
is_single_common-ok domain (some name ∷ x ∷ names) h = cc
is_single_common-ok domain (none ∷ names) h = cc

pub is_rooted-All :
    (root : Bytes) (rest : List Bytes)
    → length rest ≤ 1
    → is_rooted root rest ≡ true
    → All (λ c. c ≡ root) rest
unfolding is_rooted
is_rooted-All root [] short h = tt
is_rooted-All root (c ∷ []) short h = (eq_of_text_eq c root h, tt)
is_rooted-All root (c ∷ d ∷ rest) short h = ground arith

module _ (pki : Pki) where
  pub record IsTrusted (chain : List Bytes) (domain : Text) (at : ℤ) (root : Bytes) : Type 0 where
    pub leaf : Bytes
    pub issuer : Bytes
    pub rest : List Bytes
    pub seconds : ℕ
    pub leaf_cert : Certificate
    pub issuer_cert : Certificate
    pub is_chain : chain ≡ leaf ∷ issuer ∷ rest
    pub is_time : at ≡ pos seconds
    pub leaf_parses : pki.parse_certificate leaf ≡ some ([], leaf_cert)
    pub issuer_parses : pki.parse_certificate issuer ≡ some ([], issuer_cert)
    pub leaf_signs : IsCodeSigner true leaf_cert
    pub issuer_signs : IsCodeSigner false issuer_cert
    pub name : leaf_cert.alternative_names ≡ some (some (dns_name domain ∷ []))
    pub common_name : leaf_cert.common_names ≡ some domain ∷ []
    pub rooted : All (λ c. c ≡ root) rest
    pub path : pki.verify_for_usage leaf root (issuer ∷ []) seconds code_signing ≡ true

  parse_one-ok :
      (der : Bytes) {cert : Certificate}
      → parse_one pki der ≡ ok cert
      → pki.parse_certificate der ≡ some ([], cert)
  unfolding parse_one
  parse_one-ok der {cert} h = elim (Option-cases (pki.parse_certificate der)) [
    | inl nothing ↦ ground arith
    | inr (([], c), e) ↦ ground arith
    | inr ((x ∷ more, c), e) ↦ ground arith
  ]

  check_names-ok :
      (domain : Text) (leaf : Certificate)
      → check_names pki domain leaf ≡ ok tt
      → (leaf.alternative_names ≡ some (some (dns_name domain ∷ [])))
        × (leaf.common_names ≡ some domain ∷ [])
  unfolding check_names
  check_names-ok domain leaf h = elim (bind-ok (extension_of leaf.alternative_names) _ h) [
    | passed names e1 h1 ↦ elim (Bool-cases (is_single_name domain names)) [
      | inr other ↦ ground arith
      | inl single ↦ elim (Bool-cases (is_single_common domain leaf.common_names)) [
        | inr other ↦ ground arith
        | inl common ↦ (
          extension_of-ok leaf.alternative_names e1
              ∙ ap (λ n. some (some n)) (is_single_name-ok domain names single),
          is_single_common-ok domain leaf.common_names common,
        )
      ]
    ]
  ]

  check_path-ok :
      (chain : List Bytes) (leaf issuer : Bytes) (rest : List Bytes) (root : Bytes) (seconds : ℕ)
      → check_path pki chain leaf issuer rest root seconds ≡ ok tt
      → (is_rooted root rest ≡ true)
        × (pki.verify_for_usage leaf root (issuer ∷ []) seconds code_signing ≡ true)
  unfolding check_path
  check_path-ok chain leaf issuer rest root seconds h =
      elim (bind-ok (ok_or (pki.subject_key chain) untrusted) _ h) [
        | passed ski e1 h1 ↦ (ground arith, ground arith)
      ]

  check_parsed-signers :
      (domain : Text) (leaf issuer : Certificate) (others : List Certificate)
      → check_parsed pki domain (leaf ∷ issuer ∷ others) ≡ ok tt
      → IsCodeSigner true leaf
        × IsCodeSigner false issuer
        × (leaf.alternative_names ≡ some (some (dns_name domain ∷ [])))
        × (leaf.common_names ≡ some domain ∷ [])
  unfolding check_parsed
  check_parsed-signers domain leaf issuer others h =
      elim (bind-ok (check_certificate true leaf) _ h) [
        | passed u1 e1 h1 ↦ elim (bind-ok (check_certificate false issuer) _ h1) [
          | passed u2 e2 h2 ↦
              let (name, common) = check_names-ok domain leaf h2 in
              (
                check_certificate-IsCodeSigner true leaf e1,
                check_certificate-IsCodeSigner false issuer e2,
                name,
                common,
              )
        ]
      ]

  parse_all-two :
      (leaf issuer : Bytes) (rest : List Bytes) {certs : List Certificate}
      → parse_all pki (leaf ∷ issuer ∷ rest) ≡ ok certs
      → (l i : Certificate) × (others : List Certificate) × (certs ≡ l ∷ i ∷ others)
        × (parse_one pki leaf ≡ ok l)
        × (parse_one pki issuer ≡ ok i)
  unfolding parse_all
  parse_all-two leaf issuer rest {certs} h = elim (bind-ok (parse_one pki leaf) _ h) [
    | passed l e1 h1 ↦ elim (bind-ok (parse_all pki (issuer ∷ rest)) _ h1) [
      | passed more e2 h2 ↦ elim (bind-ok (parse_one pki issuer) _ e2) [
        | passed i e3 h3 ↦ elim (bind-ok (parse_all pki rest) _ h3) [
          | passed others e4 h4 ↦
              let inner : i ∷ others ≡ more = ground arith in
              let outer : l ∷ more ≡ certs = ground arith in
              (l, i, others, sym outer ∙ ap (λ m. l ∷ m) (sym inner), e1, e3)
        ]
      ]
    ]
  ]

  -- A chain that is verified is a leaf that signs code only and carries the domain as its one name, an
  -- authority for such leaves, and at most the root behind it, and it is a path to the root.
  pub verify_chain_with_root-IsTrusted :
      (chain : List Bytes) (domain : Text) (at : ℤ) (root : Bytes)
      → verify_chain_with_root pki chain domain at root ≡ ok tt
      → IsTrusted chain domain at root
  unfolding verify_chain_with_root
  verify_chain_with_root-IsTrusted [] domain at root h = cc
  verify_chain_with_root-IsTrusted (leaf ∷ []) domain at root h = cc
  verify_chain_with_root-IsTrusted (leaf ∷ issuer ∷ rest) domain (negsuc n) root h = cc
  verify_chain_with_root-IsTrusted (leaf ∷ issuer ∷ rest) domain (pos seconds) root h =
      let (short, h1) = refuse_if-ok (not (leb (length rest) 1)) untrusted _ h in
      elim (bind-ok (parse_all pki (leaf ∷ issuer ∷ rest)) _ h1) [
        | passed certs e2 h2 ↦ elim (bind-ok (check_parsed pki domain certs) _ h2) [
          | passed u e3 h3 ↦
              let (l, i, others, shape, parses_l, parses_i) = parse_all-two leaf issuer rest e2 in
              let (leaf_signs, issuer_signs, name, common) =
                check_parsed-signers domain l i others
                  (subst (λ cs. check_parsed pki domain cs ≡ ok tt) shape e3) in
              let (rooted, path) =
                check_path-ok (leaf ∷ issuer ∷ rest) leaf issuer rest root seconds h3 in
              record {
                leaf = leaf;
                issuer = issuer;
                rest = rest;
                seconds = seconds;
                leaf_cert = l;
                issuer_cert = i;
                is_chain = refl;
                is_time = refl;
                leaf_parses = parse_one-ok leaf parses_l;
                issuer_parses = parse_one-ok issuer parses_i;
                leaf_signs = leaf_signs;
                issuer_signs = issuer_signs;
                name = name;
                common_name = common;
                rooted = is_rooted-All root rest (leb→le (length rest) 1 (ground arith)) rooted;
                path = path;
              }
        ]
      ]
