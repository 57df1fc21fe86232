-- ===== src/Package/Contents/Signed.antt =====
-- src/package/format.rs, `verify_signature`: whose key has signed the files.
use pishoo.Base.{
  nil_of_is_nil, ◌*◌, ◌<◌, true, not, ◌||◌, Option, none, some, List, [], ◌∷◌, ◌++◌, Text, chars,
  All, length, leb, ltb, is_nil, ◌≡◌, refl, sym, ap, ◌∙◌, subst, inl, inr, ok, bind-ok, passed,
  refuse_if-ok, ok_or, ok_or-ok, Bool-cases, Option-cases, arith,
}
use pishoo.Failure.{Error, invalid_component}
use pishoo.Values.{Values, lookup, at}
use pishoo.Package.Archive.Checks.{Bytes}
use pishoo.Package.Archive.{Files}
use pishoo.Package.Metadata.{text}
use pishoo.Package.Signing.{
  GeneralName, names_publisher, Certificate, Pki, required, decode_text, decode_all,
  has_chain_length, read_chain, certificates,
}
use pishoo.Package.Contents.{
  payload_records, by_name, waz_payload, signed_input, bad_envelope, certificate_values,
  decode_filled, check_signed, bounded_envelope, verify_signature,
}
use pishoo.Package.Contents.Digits.{unhex-hex}

module _ {Value : Type 0} (V : Values Value) (pki : Pki) (utf8 : Text → Bytes) where
  abbrev payload_digest : Files → Bytes
  payload_digest files = pki.digest (
      (chars "pishoo-waz-payload-v1" ++ 0 ∷ [])
      ++ payload_records V pki utf8 (by_name V pki utf8 files))

  -- The hexadecimal digits of the payload are always read back: the input that is signed is the
  -- prefix and the digest.
  pub signed_input-digest :
      (files : Files)
      → ((bytes : Bytes) → All (λ b. b < 256) (pki.digest bytes))
      → signed_input V pki utf8 files
        ≡ some (
            (chars "pishoo-waz-signature-v1" ++ 0 ∷ [])
            ++ pki.digest (
                (chars "pishoo-waz-payload-v1" ++ 0 ∷ [])
                ++ payload_records V pki utf8 (by_name V pki utf8 files)))
  unfolding signed_input waz_payload
  signed_input-digest files digest-IsByte =
      rw (unhex-hex (payload_digest files) (digest-IsByte _), signed_input) refl

  -- The first certificate's key has signed the files, and the certificate names the publisher.
  pub record IsSigned (files : Files) (publisher : Text) (chain : List Bytes) : Type 0 where
    pub first : Bytes
    pub others : List Bytes
    pub cert : Certificate
    pub input : Bytes
    pub signature : Bytes
    pub is_chain : chain ≡ first ∷ others
    pub parses : pki.parse_certificate first ≡ some ([], cert)
    pub names : Option (List GeneralName)
    pub has_names : cert.alternative_names ≡ some names
    pub names_it : names_publisher publisher names ≡ true
    pub covers : signed_input V pki utf8 files ≡ some input
    pub signed : pki.verify_signature cert.public_key input signature ≡ some true

  check_signed-IsSigned :
      (files : Files) (publisher : Text) (chain : List Bytes) (signature : Bytes)
      → check_signed V pki utf8 files publisher chain signature ≡ ok tt
      → IsSigned files publisher chain
  unfolding check_signed
  check_signed-IsSigned files publisher [] signature h = cc
  check_signed-IsSigned files publisher (first ∷ others) signature h =
      elim (bind-ok
        (ok_or (pki.parse_certificate first) (invalid_component "invalid signer certificate")) _
        h) [
          | passed parsed e1 h1 ↦
              let (whole, h2) =
                refuse_if-ok (not (is_nil parsed.0))
                  (invalid_component "trailing signer certificate data") _ h1 in
              elim (bind-ok
                (ok_or (pki.subject_key (first ∷ others))
                  (invalid_component "invalid signer owner_hash"))
                _ h2) [
                  | passed key e3 h3 ↦
                      elim (bind-ok
                        (ok_or parsed.1.alternative_names
                          (invalid_component "invalid signer names"))
                        _ h3) [
                          | passed names e0 h0 ↦
                              let (named, h4) =
                                refuse_if-ok (not (names_publisher publisher names))
                                  (invalid_component "signer certificate and publisher disagree") _
                                  h0 in
                              elim (bind-ok
                                (ok_or (signed_input V pki utf8 files)
                                  (invalid_component "unreachable"))
                                _ h4) [
                                  | passed input e5 h5 ↦
                                      elim (bind-ok
                                        (ok_or
                                          (pki.verify_signature parsed.1.public_key input signature)
                                          (invalid_component "unsupported publisher signing key"))
                                        _ h5) [
                                          | passed good e6 h6 ↦ record {
                                            first = first;
                                            others = others;
                                            cert = parsed.1;
                                            input = input;
                                            signature = signature;
                                            is_chain = refl;
                                            parses =
                                                ok_or-ok _ _ e1
                                                ∙ ap (λ r. some (r, parsed.1))
                                                    (nil_of_is_nil parsed.0 (ground arith));
                                            names = names;
                                            has_names = ok_or-ok _ _ e0;
                                            names_it = ground arith;
                                            covers = ok_or-ok _ _ e5;
                                            signed = ok_or-ok _ _ e6 ∙ ap some (ground arith);
                                          }
                                        ]
                                ]
                        ]
                ]
        ]

  decode_text-same :
      (e : Error) (t : Option Text) {x y : Bytes}
      → decode_text V pki (invalid_component "invalid certificate encoding") t ≡ ok x
      → decode_text V pki e t ≡ ok y
      → x ≡ y
  decode_text-same e none f g = ground arith
  decode_text-same e (some s) f g = elim (Option-cases (pki.decode s)) [
    | inl nothing ↦ ground arith
    | inr (b, d) ↦ ground arith
  ]

  -- The certificates that two readers decode from the same values are the same.
  decode_filled-same :
      (e : Error) (values : List Value) {xs ys : List Bytes}
      → decode_filled V pki utf8 values ≡ ok xs
      → decode_all V pki e values ≡ ok ys
      → xs ≡ ys
  unfolding decode_filled decode_all
  decode_filled-same e [] f g = ground arith
  decode_filled-same e (value ∷ values) {xs} {ys} f g =
      elim (bind-ok
        (decode_text V pki (invalid_component "invalid certificate encoding") (V.as_str value)) _
        f) [
          | passed x e1 f1 ↦
              let (filled, f2) =
                refuse_if-ok (is_nil x) (invalid_component "empty signer certificate") _ f1 in
              elim (bind-ok (decode_filled V pki utf8 values) _ f2) [
                | passed xs1 e3 f3 ↦ elim (bind-ok (decode_text V pki e (V.as_str value)) _ g) [
                  | passed y e4 g1 ↦ elim (bind-ok (decode_all V pki e values) _ g1) [
                    | passed ys1 e5 g2 ↦
                        let rest = decode_filled-same e values e3 e5 in
                        let head = decode_text-same e (V.as_str value) e1 e4 in
                        let left : x ∷ xs1 ≡ xs = ground arith in
                        let right : y ∷ ys1 ≡ ys = ground arith in
                        sym left ∙ ap (λ z. z ∷ xs1) head ∙ ap (λ zs. y ∷ zs) rest ∙ right
                  ]
                ]
              ]
        ]

  envelope-certificates :
      (e : Error) (value : Value) {chain : List Bytes}
      → read_chain V pki e value ≡ ok chain
      → (values : List Value) × (V.as_array value ≡ some values)
        × (decode_all V pki e values ≡ ok chain)
  unfolding read_chain
  envelope-certificates e value {chain} h = elim (bind-ok (ok_or (V.as_array value) e) _ h) [
    | passed values e1 h1 ↦
        let (two, h2) = refuse_if-ok (not (has_chain_length values)) e _ h1 in
        (values, ok_or-ok _ _ e1, h2)
  ]

  certificate_values-some :
      (envelope : Value) {values : List Value}
      → V.as_array (at V (chars "certificates") envelope) ≡ some values
      → certificate_values V pki utf8 envelope ≡ values
  unfolding certificate_values
  certificate_values-some envelope {values} h = rw (h, certificate_values) refl

  module _ (parse : Bytes → Option Value) where
    bounded_envelope-lookup :
        (files : Files) {bytes : Bytes}
        → bounded_envelope V pki utf8 parse files ≡ some bytes
        → lookup (chars "signature.json") files ≡ some bytes
    bounded_envelope-lookup files {bytes} h =
        elim (Option-cases (lookup (chars "signature.json") files)) [
          | inl nothing ↦ ground arith
          | inr (b, e) ↦ elim (Bool-cases (leb (length b) (64 * 1024))) [
            | inl fits ↦ ground arith
            | inr over ↦ ground arith
          ]
        ]

    -- The chain of the package is the one of the signature.
    certificates-values :
        (files : Files) {bytes : Bytes} {envelope : Value} {chain : List Bytes}
        → lookup (chars "signature.json") files ≡ some bytes
        → parse bytes ≡ some envelope
        → certificates V pki parse files ≡ ok chain
        → decode_all V pki
            (required "developer_certificate_required")
            (certificate_values V pki utf8 envelope)
          ≡ ok chain
    unfolding certificates certificate_values
    certificates-values files {bytes} {envelope} {chain} found parsed h =
        elim (bind-ok
          (ok_or (lookup (chars "signature.json") files)
            (required "developer_certificate_required"))
          _ h) [
            | passed b e1 h1 ↦
                elim (bind-ok (ok_or (parse b) (required "developer_certificate_required")) _ h1) [
                  | passed v e2 h2 ↦
                      let same_bytes : b ≡ bytes =
                        let f =
                          ok_or-ok (lookup (chars "signature.json") files)
                            (required "developer_certificate_required") e1 in
                        ground arith in
                      let same_value : v ≡ envelope =
                        let f = ok_or-ok (parse b) (required "developer_certificate_required") e2 in
                        ground arith in
                      let (values, arr, decoded) =
                        envelope-certificates (required "developer_certificate_required")
                          (at V (chars "certificates") v) h2 in
                      subst
                        (λ x.
                          decode_all V pki (required "developer_certificate_required")
                            (certificate_values V pki utf8 x)
                          ≡ ok chain)
                        same_value
                        (subst
                          (λ vs.
                            decode_all V pki (required "developer_certificate_required") vs
                            ≡ ok chain)
                          (sym (certificate_values-some v arr)) decoded)
                ]
          ]

    -- A package that is accepted is signed with the key of the first certificate of its chain.
    pub verify_signature-IsSigned :
        (files : Files) (publisher : Text) {chain : List Bytes}
        → certificates V pki parse files ≡ ok chain
        → verify_signature V pki utf8 parse files publisher ≡ ok tt
        → IsSigned files publisher chain
    unfolding verify_signature
    verify_signature-IsSigned files publisher {chain} chained h =
        elim (bind-ok
          (ok_or (bounded_envelope V pki utf8 parse files)
            (invalid_component "missing or oversized publisher signature"))
          _ h) [
            | passed bytes e1 h1 ↦
                elim (bind-ok (ok_or (parse bytes) (invalid_component "invalid signature envelope"))
                  _ h1) [
                    | passed envelope e2 h2 ↦
                        let (good, h3) =
                          refuse_if-ok (bad_envelope V pki utf8 envelope)
                            (invalid_component "unsupported signature envelope") _ h2 in
                        elim (bind-ok (text V envelope (chars "signature")) _ h3) [
                          | passed encoded e4 h4 ↦
                              elim (bind-ok
                                (ok_or (pki.decode encoded)
                                  (invalid_component "invalid signature encoding"))
                                _ h4) [
                                  | passed signature e5 h5 ↦
                                      let (sized, h6) =
                                        refuse_if-ok
                                          (is_nil signature || ltb 8192 (length signature))
                                          (invalid_component "invalid signature size") _ h5 in
                                      elim (bind-ok
                                        (decode_filled V pki utf8
                                          (certificate_values V pki utf8 envelope))
                                        _ h6) [
                                          | passed own e7 h7 ↦
                                              let same =
                                                decode_filled-same
                                                  (required "developer_certificate_required")
                                                  (certificate_values V pki utf8 envelope) e7
                                                  (certificates-values files
                                                    (bounded_envelope-lookup files
                                                      (ok_or-ok _ _ e1))
                                                    (ok_or-ok _ _ e2) chained) in
                                              subst (IsSigned files publisher) same (
                                                check_signed-IsSigned files publisher own signature
                                                  h7)
                                        ]
                                ]
                        ]
                  ]
          ]
