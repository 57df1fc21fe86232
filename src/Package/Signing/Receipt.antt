-- ===== src/Package/Signing/Receipt.antt =====
-- src/package/signing.rs, `verify_receipt`: the store's signed proof of when a release was published.
use pishoo.Base.{
  nil_of_is_nil, ℕ, String, ◌*◌, true, not, ◌||◌, Option, some, List, [], ◌∷◌, ◌++◌, chars, text_eq,
  eq_of_text_eq, length, leb, is_nil, ok, err, ◌>>=◌, ◌>>◌, refuse_if, ok_or, bind-ok, passed,
  refuse_if-ok, ok_or-ok, ◌≡◌, refl, ap, ◌∙◌, subst, arith,
}
use pishoo.Failure.{Error, Fallible}
use pishoo.Values.{Values, ℤ, pos, negsuc, at_most, at, is_text}
use pishoo.Package.Archive.Checks.{Bytes}
use pishoo.Package.Store.{store_name, store_owner}
use pishoo.Package.Signing.{
  Certificate, SubjectKey, server_auth, Pki, required, decode_text, read_chain,
}
use pishoo.Package.Signing.Chain.{is_rooted}

abbrev pub unpublished : Error
unpublished = required "package_publication_invalid"

-- `b"pishoo-publication-receipt-v1\\0"`
abbrev pub receipt_prefix : Bytes
receipt_prefix = chars "pishoo-publication-receipt-v1" ++ 0 ∷ []

module _ {Value : Type 0} (V : Values Value) (pki : Pki) (parse : Bytes → Option Value) where
  abbrev pub field : String → Value → Value
  field key value = at V (chars key) value

  -- What the receipt has to say of a release.
  unfoldable pub expected_receipt : Value → ℤ → Value
  unfolding at
  expected_receipt metadata verified_at = V.object (
      (chars "format", V.text (chars "pishoo-publication/1"))
      ∷ (chars "registry", V.text store_name)
      ∷ (chars "registry_owner_hash", V.text store_owner)
      ∷ (chars "author", field "author" metadata)
      ∷ (chars "name", field "name" metadata)
      ∷ (chars "version", field "version" metadata)
      ∷ (chars "package_sha256", field "package_sha256" metadata)
      ∷ (chars "size", field "size" metadata)
      ∷ (chars "author_owner_hash", field "author_owner_hash" metadata)
      ∷ (
        chars "leaf_fingerprint_sha256",
        field "leaf_fingerprint_sha256" (field "signature" metadata),
      )
      ∷ (chars "issuer_id", field "issuer_id" (field "signature" metadata))
      ∷ (chars "verified_at", V.number verified_at)
      ∷ [])

  -- The signed bytes, which are those of the value that is expected.
  unfoldable pub read_payload_value : Value → ℤ → Fallible Bytes
  unfolding expected_receipt
  read_payload_value metadata verified_at =
      decode_text V pki unpublished
        (V.as_str (field "payload" (field "publication_receipt" metadata)))
      >>= λ payload.
          refuse_if (not (leb (length payload) (16 * 1024))) unpublished
          >> ok_or (parse payload) unpublished
          >>= λ value.
              refuse_if (not (V.same value (expected_receipt metadata verified_at))) unpublished
              >> ok payload

  -- The chain of the store at the time, in seconds.
  unfoldable pub check_store : List Bytes → ℤ → Bytes → Fallible Bytes
  unfolding is_rooted text_eq
  check_store (leaf ∷ issuer ∷ rest) (pos seconds) root =
      refuse_if (not (is_rooted root rest)) unpublished
      >> refuse_if (not (pki.is_anchor root)) unpublished
      >> refuse_if (not (pki.is_end_entity leaf)) unpublished
      >> refuse_if (not (pki.verify_for_usage leaf root (issuer ∷ []) seconds server_auth))
          unpublished
      >> refuse_if (not (pki.verify_subject_name leaf store_name)) unpublished
      >> ok_or (pki.subject_key (leaf ∷ issuer ∷ rest)) unpublished
      >>= λ ski. refuse_if (not (text_eq ski.owner_hash store_owner)) unpublished >> ok leaf
  check_store chain seconds root = err unpublished

  unfoldable pub check_receipt_signature : Value → Bytes → Bytes → Fallible (Unit {0})
  check_receipt_signature receipt leaf payload =
      ok_or (pki.parse_certificate leaf) unpublished >>= λ parsed.
      refuse_if (not (is_nil parsed.0)) unpublished
      >> decode_text V pki unpublished (V.as_str (field "signature" receipt))
      >>= λ signature.
          ok_or (pki.verify_signature parsed.1.public_key (receipt_prefix ++ payload) signature)
            unpublished
          >>= λ good. refuse_if (not good) unpublished

  unfoldable pub verify_receipt_with_root : Value → ℤ → Bytes → Fallible (Unit {0})
  unfolding read_payload_value read_chain check_store check_receipt_signature
  verify_receipt_with_root metadata verified_at root =
      read_payload_value metadata verified_at >>= λ payload.
      read_chain V pki unpublished (field "certificates" (field "publication_receipt" metadata))
      >>= λ chain. check_store chain verified_at root >>= λ leaf.
          check_receipt_signature (field "publication_receipt" metadata) leaf payload

  unfoldable pub verify_receipt : ℤ → Bytes → Value → ℤ → Fallible (Unit {0})
  unfolding verify_receipt_with_root is_text
  verify_receipt now root metadata verified_at =
      refuse_if
        (at_most verified_at (pos 0)
          || not (at_most verified_at now)
          || not (is_text V (chars "code_signing") (field "purpose" (field "signature" metadata))))
        unpublished
      >> verify_receipt_with_root metadata verified_at root

  -- The store has signed, with a certificate of its own that was good at the time, that the release was
  -- published then.
  pub record IsPublished (now : ℤ) (root : Bytes) (metadata : Value) (verified_at : ℤ)
      : Type 0 where
    pub leaf : Bytes
    pub issuer : Bytes
    pub rest : List Bytes
    pub seconds : ℕ
    pub payload : Bytes
    pub signature : Bytes
    pub value : Value
    pub cert : Certificate
    pub key : SubjectKey
    pub is_time : verified_at ≡ pos seconds
    pub past : at_most verified_at now ≡ true
    pub says :
        (parse payload ≡ some value) × (V.same value (expected_receipt metadata verified_at) ≡ true)
    pub path : pki.verify_for_usage leaf root (issuer ∷ []) seconds server_auth ≡ true
    pub names_store : pki.verify_subject_name leaf store_name ≡ true
    pub of_owner :
        (pki.subject_key (leaf ∷ issuer ∷ rest) ≡ some key) × (key.owner_hash ≡ store_owner)
    pub parses : pki.parse_certificate leaf ≡ some ([], cert)
    pub signed :
        pki.verify_signature cert.public_key (receipt_prefix ++ payload) signature ≡ some true

  read_payload_value-ok :
      (metadata : Value) (verified_at : ℤ) {payload : Bytes}
      → read_payload_value metadata verified_at ≡ ok payload
      → (value : Value) × (parse payload ≡ some value)
        × (V.same value (expected_receipt metadata verified_at) ≡ true)
  unfolding read_payload_value
  read_payload_value-ok metadata verified_at {payload} h =
      elim (bind-ok
        (decode_text V pki unpublished
          (V.as_str (field "payload" (field "publication_receipt" metadata))))
        _ h) [
          | passed bytes e1 h1 ↦
              let (short, h2) =
                refuse_if-ok (not (leb (length bytes) (16 * 1024))) unpublished _ h1 in
              elim (bind-ok (ok_or (parse bytes) unpublished) _ h2) [
                | passed value e3 h3 ↦
                    let (agrees, h4) =
                      refuse_if-ok (not (V.same value (expected_receipt metadata verified_at)))
                        unpublished _ h3 in
                    let same : bytes ≡ payload = ground arith in
                    (
                      value,
                      subst (λ b. parse b ≡ some value) same
                          (ok_or-ok (parse bytes) unpublished e3),
                      ground arith,
                    )
              ]
        ]

  check_store-ok :
      (leaf issuer : Bytes) (rest : List Bytes) (seconds : ℕ) (root : Bytes) {result : Bytes}
      → check_store (leaf ∷ issuer ∷ rest) (pos seconds) root ≡ ok result
      → (key : SubjectKey) × (result ≡ leaf)
        × (pki.verify_for_usage leaf root (issuer ∷ []) seconds server_auth ≡ true)
        × (pki.verify_subject_name leaf store_name ≡ true)
        × (pki.subject_key (leaf ∷ issuer ∷ rest) ≡ some key)
        × (key.owner_hash ≡ store_owner)
  unfolding check_store
  check_store-ok leaf issuer rest seconds root {result} h =
      let (rooted, h1) = refuse_if-ok (not (is_rooted root rest)) unpublished _ h in
      let (anchor, h2) = refuse_if-ok (not (pki.is_anchor root)) unpublished _ h1 in
      let (entity, h3) = refuse_if-ok (not (pki.is_end_entity leaf)) unpublished _ h2 in
      let (path, h4) =
        refuse_if-ok (not (pki.verify_for_usage leaf root (issuer ∷ []) seconds server_auth))
          unpublished _ h3 in
      let (names, h5) =
        refuse_if-ok (not (pki.verify_subject_name leaf store_name)) unpublished _ h4 in
      elim (bind-ok (ok_or (pki.subject_key (leaf ∷ issuer ∷ rest)) unpublished) _ h5) [
        | passed key e6 h6 ↦
            let (owner, h7) =
              refuse_if-ok (not (text_eq key.owner_hash store_owner)) unpublished _ h6 in
            (
              key,
              ground arith,
              ground arith,
              ground arith,
              ok_or-ok (pki.subject_key (leaf ∷ issuer ∷ rest)) unpublished e6,
              eq_of_text_eq key.owner_hash store_owner (ground arith),
            )
      ]

  check_receipt_signature-ok :
      (receipt : Value) (leaf payload : Bytes)
      → check_receipt_signature receipt leaf payload ≡ ok tt
      → (cert : Certificate) × (signature : Bytes) × (pki.parse_certificate leaf ≡ some ([], cert))
        × (pki.verify_signature cert.public_key (receipt_prefix ++ payload) signature ≡ some true)
  unfolding check_receipt_signature
  check_receipt_signature-ok receipt leaf payload h =
      elim (bind-ok (ok_or (pki.parse_certificate leaf) unpublished) _ h) [
        | passed parsed e1 h1 ↦
            let (whole, h2) = refuse_if-ok (not (is_nil parsed.0)) unpublished _ h1 in
            elim (bind-ok (decode_text V pki unpublished (V.as_str (field "signature" receipt))) _
              h2) [
                | passed signature e3 h3 ↦
                    elim (bind-ok
                      (ok_or
                        (pki.verify_signature parsed.1.public_key (receipt_prefix ++ payload)
                          signature)
                        unpublished)
                      _ h3) [
                        | passed good e4 h4 ↦ (
                          parsed.1,
                          signature,
                          ok_or-ok (pki.parse_certificate leaf) unpublished e1
                              ∙ ap (λ r. some (r, parsed.1))
                                  (nil_of_is_nil parsed.0 (ground arith)),
                          ok_or-ok _ unpublished e4 ∙ ap some (ground arith),
                        )
                      ]
              ]
      ]

  chain-IsPublished :
      (now : ℤ) (root : Bytes) (metadata : Value) (verified_at : ℤ) (chain : List Bytes)
      (payload leaf : Bytes)
      → at_most verified_at now ≡ true
      → read_payload_value metadata verified_at ≡ ok payload
      → check_store chain verified_at root ≡ ok leaf
      → check_receipt_signature (field "publication_receipt" metadata) leaf payload ≡ ok tt
      → IsPublished now root metadata verified_at
  unfolding check_store
  chain-IsPublished now root metadata verified_at [] payload leaf past reads store signs = cc
  chain-IsPublished now root metadata verified_at (l ∷ []) payload leaf past reads store signs = cc
  chain-IsPublished now root metadata (negsuc n) (l ∷ issuer ∷ rest) payload leaf past reads store
        signs =
      cc
  chain-IsPublished now root metadata (pos seconds) (l ∷ issuer ∷ rest) payload leaf past reads
        store signs =
      let (value, parses, agrees) = read_payload_value-ok metadata (pos seconds) reads in
      let (key, is_leaf, path, names, keyed, owner) =
        check_store-ok l issuer rest seconds root store in
      let (cert, signature, parses_leaf, signed) =
        check_receipt_signature-ok (field "publication_receipt" metadata) leaf payload signs in
      record {
        leaf = l;
        issuer = issuer;
        rest = rest;
        seconds = seconds;
        payload = payload;
        signature = signature;
        value = value;
        cert = cert;
        key = key;
        is_time = refl;
        past = past;
        says = (parses, agrees);
        path = path;
        names_store = names;
        of_owner = (keyed, owner);
        parses = subst (λ x. pki.parse_certificate x ≡ some ([], cert)) is_leaf parses_leaf;
        signed = signed;
      }

  -- A receipt that is verified is the store's signed word on this release at this time, which is past.
  pub verify_receipt-IsPublished :
      (now : ℤ) (root : Bytes) (metadata : Value) (verified_at : ℤ)
      → verify_receipt now root metadata verified_at ≡ ok tt
      → IsPublished now root metadata verified_at
  unfolding verify_receipt verify_receipt_with_root
  verify_receipt-IsPublished now root metadata verified_at h =
      let (timely, h1) =
        refuse_if-ok
          (at_most verified_at (pos 0)
            || not (at_most verified_at now)
            || not
                (is_text V (chars "code_signing") (field "purpose" (field "signature" metadata))))
          unpublished _ h in
      elim (bind-ok (read_payload_value metadata verified_at) _ h1) [
        | passed payload e2 h2 ↦
            elim (bind-ok
              (read_chain V pki unpublished
                (field "certificates" (field "publication_receipt" metadata)))
              _ h2) [
                | passed chain e3 h3 ↦ elim (bind-ok (check_store chain verified_at root) _ h3) [
                  | passed leaf e4 h4 ↦
                      chain-IsPublished now root metadata verified_at chain payload leaf
                        (ground arith) e2 e4 h4
                ]
              ]
      ]
