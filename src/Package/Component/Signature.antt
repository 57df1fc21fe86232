-- ===== src/Package/Component/Signature.antt =====
-- src/package/manifest.rs, `verify_component_signature`: the publisher's signature of a component.
use pishoo.Base.{
  nil_of_is_nil, refl, subst, In, any-In, eq_of_text_eq, Bool-cases, ℕ, ◌*◌, Bool, true, not, ◌||◌,
  Option, none, some, List, [], ◌∷◌, ◌++◌, Text, chars, text_eq, length, ltb, ◌==◌, is_nil,
  if◌then◌else◌, ◌≡◌, sym, ap, ◌∙◌, ◌⊎◌, inl, inr, ok, err, ◌>>=◌, ◌>>◌, refuse_if, ok_or, bind-ok,
  passed, refuse_if-ok, ok_or-ok, Option-cases, arith,
}
use pishoo.Failure.{Fallible, invalid_component}
use pishoo.Values.{Values, at}
use pishoo.Package.Archive.Checks.{take}
use pishoo.Package.Signing.{
  GeneralName, dns_name, other_name, is_name_of, names_publisher, is_version_one, Certificate, Pki,
  decode_signers,
}
use pishoo.Package.Component.{
  Bytes, Event, start_sections, read_payloads, OpenApi, check_signature, validate_lib,
}
use pishoo.Package.Component.Documents.{held, top_documents, read_payloads-held}
use pishoo.Package.Component.Sealing.{seals, recorded, read_payloads-seals}

abbrev pub nonempty : {A : Type 0} → Option (List A) → Option (List A)
nonempty none = none
nonempty (some []) = none
nonempty (some (x ∷ xs)) = some (x ∷ xs)

abbrev pub lib_prefix : Bytes
lib_prefix = chars "pishoo-lib-signature-v1" ++ 0 ∷ []

is_name_of-same : (t : Text) (n : GeneralName) → is_name_of t n ≡ true → n ≡ dns_name t
is_name_of-same t (dns_name name) h = ap dns_name (eq_of_text_eq name t h)
is_name_of-same t other_name h = ground arith

module _ {Value : Type 0} (V : Values Value) (pki : Pki) (parse : Bytes → Option Value) where
  unfoldable pub wrong_envelope : Value → Bool
  unfolding at
  wrong_envelope envelope =
      elim (V.as_object envelope) [ none ↦ true | some fields ↦ not (length fields == 3) ]
      || not (is_version_one (V.as_u64 (at V (chars "version") envelope)))

  abbrev pub normal_name : Option Text → Option Text
  normal_name none = none
  normal_name (some name) = elim (pki.normalize_name name) [
    | none ↦ none
    | some normal ↦ if text_eq normal name then some name else none
  ]

  -- The publisher whom the OpenAPI document names.
  unfoldable pub signed_publisher : Bytes → Fallible Text
  unfolding at text_eq
  signed_publisher document =
      ok_or (parse document) (invalid_component "invalid signed OpenAPI") >>= λ value.
      ok_or (normal_name (V.as_str (at V (chars "publisher") (at V (chars "x-pishoo") value))))
        (invalid_component "invalid signed publisher")

  unfoldable pub read_signature : Value → Fallible Bytes
  unfolding at
  read_signature envelope =
      ok_or (V.as_str (at V (chars "signature") envelope)) (invalid_component "missing signature")
      >>= λ encoded.
          ok_or (pki.decode encoded) (invalid_component "invalid signature encoding")
          >>= λ signature.
              refuse_if (is_nil signature || ltb 8192 (length signature))
                (invalid_component "invalid signature size")
              >> ok signature

  unfoldable pub check_signers : Bytes → Value → Bytes → List Bytes → Fallible (Unit {0})
  unfolding signed_publisher text_eq read_signature
  check_signers covered envelope document [] = err (invalid_component "invalid signer certificate")
  check_signers covered envelope document (first ∷ others) =
      ok_or (pki.parse_certificate first) (invalid_component "invalid signer certificate")
      >>= λ parsed.
          refuse_if (not (is_nil parsed.0)) (invalid_component "trailing signer certificate data")
          >> signed_publisher document
          >>= λ publisher.
              ok_or (pki.subject_key (first ∷ others))
                (invalid_component "invalid signer owner_hash")
              >>= λ key.
                  ok_or parsed.1.alternative_names (invalid_component "invalid signer names")
                  >>= λ names.
                      refuse_if (not (names_publisher publisher names))
                        (invalid_component "signer certificate and publisher disagree")
                      >> read_signature envelope
                      >>= λ signature.
                          ok_or
                            (pki.verify_signature parsed.1.public_key
                              (lib_prefix ++ pki.digest covered) signature)
                            (invalid_component "unsupported publisher signing key")
                          >>= λ good.
                              refuse_if (not good)
                                (invalid_component "publisher signature verification failed")

  unfoldable pub verify_component_signature : Bytes → ℕ → Bytes → Bytes → Fallible (Unit {0})
  unfolding wrong_envelope at decode_signers check_signers take
  verify_component_signature bytes signed_end data_of_envelope document =
      ok_or (parse data_of_envelope) (invalid_component "invalid signature envelope")
      >>= λ envelope.
          refuse_if (wrong_envelope envelope) (invalid_component "unsupported signature envelope")
          >> ok_or (nonempty (V.as_array (at V (chars "certificates") envelope)))
              (invalid_component "missing signer certificates")
          >>= λ values. decode_signers V pki values >>= λ chain.
              check_signers (take signed_end bytes) envelope document chain

  -- The document names the publisher, in the form that names are kept in.
  abbrev pub IsNamedIn : Bytes → Text → Type 0
  IsNamedIn document publisher =
      (value : Value) × (parse document ≡ some value)
      × (V.as_str (at V (chars "publisher") (at V (chars "x-pishoo") value)) ≡ some publisher)
      × (pki.normalize_name publisher ≡ some publisher)

  normal_name-same :
      (found : Option Text) {name : Text}
      → normal_name found ≡ some name
      → (found ≡ some name) × (pki.normalize_name name ≡ some name)
  normal_name-same none h = ground arith
  normal_name-same (some given) {name} h = elim (Option-cases (pki.normalize_name given)) [
    | inl bad ↦ ground arith
    | inr (normal, e) ↦ elim (Bool-cases (text_eq normal given)) [
      | inr other ↦ ground arith
      | inl same ↦
          let kept : given ≡ name = ground arith in
          let is_normal = e ∙ ap some (eq_of_text_eq normal given same) in
          (ap some kept, subst (λ t. pki.normalize_name t ≡ some t) kept is_normal)
    ]
  ]

  signed_publisher-IsNamedIn :
      (document : Bytes) {publisher : Text}
      → signed_publisher document ≡ ok publisher
      → IsNamedIn document publisher
  unfolding signed_publisher
  signed_publisher-IsNamedIn document h =
      elim (bind-ok (ok_or (parse document) (invalid_component "invalid signed OpenAPI")) _ h) [
        | passed value e1 h1 ↦
            let (same, normal) =
              normal_name-same (V.as_str (at V (chars "publisher") (at V (chars "x-pishoo") value)))
                (ok_or-ok _ _ h1) in
            (value, ok_or-ok _ _ e1, same, normal)
      ]

  names_publisher-In :
      (publisher : Text) (names : Option (List GeneralName))
      → names_publisher publisher names ≡ true
      → (list : List GeneralName) × (names ≡ some list) × In (dns_name publisher) list
  names_publisher-In publisher none h = ground arith
  names_publisher-In publisher (some list) h =
      let (found, m, e) = any-In (is_name_of publisher) list h in
      (list, refl, subst (λ n. In n list) (is_name_of-same publisher found e) m)

  -- A key whose certificate names the publisher of the document has signed the bytes.
  pub record IsPublishedBy (covered document : Bytes) : Type 0 where
    pub publisher : Text
    pub leaf : Bytes
    pub cert : Certificate
    pub names : Option (List GeneralName)
    pub signature : Bytes
    pub named : IsNamedIn document publisher
    pub parses : pki.parse_certificate leaf ≡ some ([], cert)
    pub has_names : cert.alternative_names ≡ some names
    pub names_it : (list : List GeneralName) × (names ≡ some list) × In (dns_name publisher) list
    pub signed :
        pki.verify_signature cert.public_key (lib_prefix ++ pki.digest covered) signature
        ≡ some true

  check_signers-IsPublishedBy :
      (covered : Bytes) (envelope : Value) (document : Bytes) (chain : List Bytes)
      → check_signers covered envelope document chain ≡ ok tt
      → IsPublishedBy covered document
  unfolding check_signers
  check_signers-IsPublishedBy covered envelope document [] h = cc
  check_signers-IsPublishedBy covered envelope document (first ∷ others) h =
      elim (bind-ok
        (ok_or (pki.parse_certificate first) (invalid_component "invalid signer certificate")) _
        h) [
          | passed parsed e1 h1 ↦
              let (whole, h2) =
                refuse_if-ok (not (is_nil parsed.0))
                  (invalid_component "trailing signer certificate data") _ h1 in
              elim (bind-ok (signed_publisher document) _ h2) [
                | passed publisher e3 h3 ↦
                    elim (bind-ok
                      (ok_or (pki.subject_key (first ∷ others))
                        (invalid_component "invalid signer owner_hash"))
                      _ h3) [
                        | passed key e4 h4 ↦
                            elim (bind-ok
                              (ok_or parsed.1.alternative_names
                                (invalid_component "invalid signer names"))
                              _ h4) [
                                | passed names e5 h5 ↦
                                    let (named, h6) =
                                      refuse_if-ok (not (names_publisher publisher names))
                                        (invalid_component
                                          "signer certificate and publisher disagree")
                                        _ h5 in
                                    elim (bind-ok (read_signature envelope) _ h6) [
                                      | passed signature e7 h7 ↦
                                          elim (bind-ok
                                            (ok_or
                                              (pki.verify_signature parsed.1.public_key
                                                (lib_prefix ++ pki.digest covered) signature)
                                              (invalid_component
                                                "unsupported publisher signing key"))
                                            _ h7) [
                                              | passed good e8 h8 ↦ record {
                                                publisher = publisher;
                                                leaf = first;
                                                cert = parsed.1;
                                                names = names;
                                                signature = signature;
                                                named = signed_publisher-IsNamedIn document e3;
                                                parses =
                                                    ok_or-ok _ _ e1
                                                    ∙ ap (λ r. some (r, parsed.1))
                                                        (nil_of_is_nil parsed.0 (ground arith));
                                                has_names = ok_or-ok _ _ e5;
                                                names_it =
                                                    names_publisher-In publisher names
                                                      (ground arith);
                                                signed = ok_or-ok _ _ e8 ∙ ap some (ground arith);
                                              }
                                            ]
                                    ]
                              ]
                      ]
              ]
        ]

  verify_component_signature-IsPublishedBy :
      (bytes : Bytes) (signed_end : ℕ) (data_of_envelope document : Bytes)
      → verify_component_signature bytes signed_end data_of_envelope document ≡ ok tt
      → IsPublishedBy (take signed_end bytes) document
  unfolding verify_component_signature
  verify_component_signature-IsPublishedBy bytes signed_end data_of_envelope document h =
      elim (bind-ok
        (ok_or (parse data_of_envelope) (invalid_component "invalid signature envelope")) _ h) [
          | passed envelope e1 h1 ↦
              let (right, h2) =
                refuse_if-ok (wrong_envelope envelope)
                  (invalid_component "unsupported signature envelope") _ h1 in
              elim (bind-ok
                (ok_or (nonempty (V.as_array (at V (chars "certificates") envelope)))
                  (invalid_component "missing signer certificates"))
                _ h2) [
                  | passed values e3 h3 ↦ elim (bind-ok (decode_signers V pki values) _ h3) [
                    | passed chain e4 h4 ↦
                        check_signers-IsPublishedBy (take signed_end bytes) envelope document chain
                          h4
                  ]
                ]
        ]

  -- Of the sections of a component that is accepted, exactly one at the top level is an OpenAPI
  -- document. No section at any depth is a signature, or exactly one is: then it ends the component,
  -- and the bytes up to the end of the section before it are signed by a key whose certificate names
  -- the publisher of the document.
  pub validate_lib-IsPublishedBy :
      (parse_openapi : Bytes → Option OpenApi) (payloads : Bytes → List (Option Event))
      (bytes : Bytes) {api : OpenApi}
      → validate_lib parse_openapi payloads verify_component_signature bytes ≡ ok api
      → (document : Bytes) × (top_documents 0 (payloads bytes) ≡ document ∷ [])
        × ((seals 0 8 (payloads bytes) ≡ [])
            ⊎ ((before : ℕ) × (envelope : Bytes) × (seals 0 8 (payloads bytes)
                  ≡ (before, envelope, length bytes) ∷ [])
                × IsPublishedBy (take before bytes) document))
  unfolding validate_lib
  validate_lib-IsPublishedBy parse_openapi payloads bytes {api} h =
      let (small, h1) =
        refuse_if-ok (ltb (64 * 1024 * 1024) (length bytes))
          (invalid_component "component exceeds 64 MiB") _ h in
      elim (bind-ok (read_payloads (length bytes) start_sections (payloads bytes)) _ h1) [
        | passed s e2 h2 ↦
            let (component, h3) =
              refuse_if-ok (not s.component) (invalid_component "lib.wasm must be a component") _
                h2 in
            elim (bind-ok (ok_or s.document (invalid_component "missing pishoo:openapi section")) _
              h3) [
                | passed document e4 h4 ↦
                    elim (bind-ok
                      (check_signature parse_openapi payloads verify_component_signature bytes
                        s.signature document)
                      _ h4) [
                        | passed u e5 h5 ↦ (
                          document,
                          sym (read_payloads-held (length bytes) start_sections (payloads bytes) e2)
                              ∙ ap held (ok_or-ok _ _ e4),
                          let seal_lem = sym (
                                read_payloads-seals (length bytes) start_sections (payloads bytes)
                                  e2) in
                              elim (Option-cases s.signature) [
                                | inl unsigned ↦
                                    inl (seal_lem ∙ ap (recorded (length bytes)) unsigned)
                                | inr ((end, envelope), e) ↦ inr (
                                  end,
                                  envelope,
                                  seal_lem ∙ ap (recorded (length bytes)) e,
                                  verify_component_signature-IsPublishedBy bytes end envelope
                                      document (ground arith),
                                )
                              ],
                        )
                      ]
              ]
      ]
