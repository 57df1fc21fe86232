-- ===== src/Package/Signing/InForce.antt =====
-- src/package/signing.rs, `validate_crl`: what a revocation list that is enforced says.
use pishoo.Base.{
  ◌≢◌, List, [], ◌∷◌, All, any, is_nil, nil_of_is_nil, eq_of_text_eq, length, ltb, subst, sym, ap,
  ◌∙◌, or-false, Option-cases, bind-ok, passed, refuse_if-ok, ok_or, ok_or-ok, true, false, Option,
  none, some, text_eq, text_eq_refl, inl, inr, ok, ◌≡◌, refl, arith,
}
use pishoo.Failure.{package_policy}
use pishoo.Values.{ℤ, at_most, below}
use pishoo.Package.Archive.Checks.{Bytes}
use pishoo.Package.Signing.{Pki, Crl, Certificate, Revoked}
use pishoo.Package.Signing.Revocation.{
  list_refused, is_signed, is_revoked, has_ended, enforce_crl, authenticate_crl, ordered_number,
  crl_limit, invalid_list, validate_crl,
}

module _ (pki : Pki) (leaf issuer : Bytes) (now : ℤ) where
  -- The list of the issuer is signed by its key, does not name the leaf and is neither from the
  -- future nor at its end.
  pub record IsInForce (bytes : Bytes) : Type 0 where
    pub list : Crl
    pub authority : Certificate
    pub subject : Certificate
    pub end : ℤ
    pub parses : pki.parse_crl bytes ≡ some ([], list)
    pub issuer_parses : (rest : Bytes) × (pki.parse_certificate issuer ≡ some (rest, authority))
    pub leaf_parses : (rest : Bytes) × (pki.parse_certificate leaf ≡ some (rest, subject))
    pub issued : list.issuer ≡ authority.subject
    pub signed : pki.verify_signature authority.public_key list.tbs list.signature_value ≡ some true
    pub not_revoked : All (λ r. r.raw_serial ≢ subject.raw_serial) list.revoked
    pub begun : below now list.last_update ≡ false
    pub ends : list.next_update ≡ some end
    pub not_ended : at_most end now ≡ false

  not_among :
      (serial : Bytes) (rs : List Revoked)
      → any (is_revoked serial) rs ≡ false
      → All (λ r. r.raw_serial ≢ serial) rs
  not_among serial [] h = tt
  not_among serial (r ∷ rs) h = (
    (λ e.
        ground
          (arith, text_eq_refl serial, subst (λ t. text_eq t serial ≡ false) e (ground arith))),
    not_among serial rs (ground arith),
  )

  signed_true :
      (authority : Certificate) (list : Crl)
      → is_signed pki authority list ≡ true
      → pki.verify_signature authority.public_key list.tbs list.signature_value ≡ some true
  signed_true authority list h =
      elim (Option-cases
        (pki.verify_signature authority.public_key list.tbs list.signature_value)) [
          | inl nothing ↦ ground arith
          | inr (good, e) ↦ ground arith
        ]

  not_ended-cases :
      (next : Option ℤ) (start : ℤ)
      → has_ended next start now ≡ false
      → (end : ℤ) × (next ≡ some end) × (at_most end now ≡ false)
  not_ended-cases none start h = ground arith
  not_ended-cases (some end) start h =
      (end, refl, (or-false (at_most end now) (at_most end start) h).0)

  -- What is refused before the entries of the list are looked at.
  list_refused-parts :
      (remaining : Bytes) (authority : Certificate) (list : Crl)
      → list_refused pki remaining authority list ≡ false
      → (is_nil remaining ≡ true)
        × (text_eq list.issuer authority.subject ≡ true)
        × (is_signed pki authority list ≡ true)
  unfolding list_refused
  list_refused-parts remaining authority list h = (ground arith, ground arith, ground arith)

  pub validate_crl-IsInForce :
      (bytes : Bytes) {number : Bytes}
      → validate_crl pki leaf issuer bytes now true ≡ ok number
      → IsInForce bytes
  unfolding validate_crl authenticate_crl enforce_crl
  validate_crl-IsInForce bytes {number} h =
      elim (bind-ok (authenticate_crl pki bytes leaf issuer) _ h) [
        | passed found e0 h0 ↦
            let (small, h1) = refuse_if-ok (ltb crl_limit (length bytes)) invalid_list _ e0 in
            elim (bind-ok (ok_or (pki.parse_crl bytes) invalid_list) _ h1) [
              | passed parsed e2 h2 ↦
                  elim (bind-ok (ok_or (pki.parse_certificate issuer) invalid_list) _ h2) [
                    | passed authority e3 h3 ↦
                        elim (bind-ok (ok_or (pki.parse_certificate leaf) invalid_list) _ h3) [
                          | passed subject e4 h4 ↦
                              let (fine, h5) =
                                refuse_if-ok (list_refused pki parsed.0 authority.1 parsed.1)
                                  invalid_list _ h4 in
                              let same : (parsed.1, subject.1) ≡ found = ground arith in
                              let (whole, by_issuer, signed) =
                                list_refused-parts parsed.0 authority.1 parsed.1 fine in
                              elim (bind-ok (ordered_number pki found.0) _ h0) [
                                | passed ordered e6 h6 ↦
                                    elim (bind-ok (enforce_crl pki found.0 found.1 now) _ h6) [
                                      | passed u e7 h7 ↦
                                          let enforced : enforce_crl pki parsed.1 subject.1 now
                                              ≡ ok u =
                                            subst (λ f. enforce_crl pki f.0 f.1 now ≡ ok u)
                                              (sym same) e7 in
                                          let (stays, h8) =
                                            refuse_if-ok
                                              (any (is_revoked subject.1.raw_serial)
                                                parsed.1.revoked)
                                              (package_policy "signing_certificate_revoked" 403) _
                                              enforced in
                                          let current =
                                            or-false (below now parsed.1.last_update)
                                              (has_ended parsed.1.next_update parsed.1.last_update
                                                now)
                                              (ground arith) in
                                          let (end, ends, not_yet) =
                                            not_ended-cases parsed.1.next_update
                                              parsed.1.last_update current.1 in
                                          record {
                                            list = parsed.1;
                                            authority = authority.1;
                                            subject = subject.1;
                                            end = end;
                                            parses =
                                                ok_or-ok _ _ e2
                                                ∙ ap (λ r. some (r, parsed.1))
                                                    (nil_of_is_nil parsed.0 whole);
                                            issuer_parses = (authority.0, ok_or-ok _ _ e3);
                                            leaf_parses = (subject.0, ok_or-ok _ _ e4);
                                            issued =
                                                eq_of_text_eq parsed.1.issuer authority.1.subject
                                                  by_issuer;
                                            signed = signed_true authority.1 parsed.1 signed;
                                            not_revoked =
                                                not_among subject.1.raw_serial parsed.1.revoked
                                                  stays;
                                            begun = current.0;
                                            ends = ends;
                                            not_ended = not_yet;
                                          }
                                    ]
                              ]
                        ]
                  ]
            ]
      ]
