-- ===== src/Package/Signing/Tests.antt =====
-- A chain of certificates and two revocation lists.
use pishoo.Base.{
  none, some, [], ◌∷◌, List, chars, text_eq, ok, ◌≡◌, ◌≤◌, ◌↔◌, refl, true, false, arith,
}
use pishoo.Package.Signing.{Crl}
use pishoo.Values.{pos}
use pishoo.Package.Archive.Checks.{Bytes}
use pishoo.Package.Sample.{parse_certificate, pki}
use pishoo.Package.Signing.Chain.{verify_chain_with_root}
use pishoo.Package.Signing.Revocation.{
  list_at_least, ordered_number, written, held, validate_crl, check_chain_of,
}
use pishoo.Package.Signing.Selection.{IsEnforced, IsNotOlder}
use pishoo.Package.Signing.Rollback.{check_chain_of-IsEnforced, check_chain_of-IsNotOlder}
use pishoo.Package.Signing.Numbers.{number_of, ordered_number-list_at_least_iff}

reading : Unit {0}
unfolding text_eq parse_certificate verify_chain_with_root ordered_number validate_crl
    check_chain_of
reading = tt

abbrev chain : List Bytes
chain = chars "L" ∷ chars "I" ∷ []

sample_newer :
    check_chain_of pki chain (some (2 ∷ [])) (pos 1000) written (held (1 ∷ []))
    ≡ (held (2 ∷ []), ok tt)
unfolding reading
sample_newer = refl

check_chain_of-IsEnforced_example :
    IsEnforced pki (chars "L") (chars "I") (pos 1000) (held (2 ∷ []))
check_chain_of-IsEnforced_example =
    check_chain_of-IsEnforced pki (chars "L") (chars "I") (pos 1000) [] (some (2 ∷ [])) written
      (held (1 ∷ [])) sample_newer

sample_valid : validate_crl pki (chars "L") (chars "I") (3 ∷ []) (pos 1000) false ≡ ok (1 ∷ 3 ∷ [])
unfolding reading
sample_valid = refl

check_chain_of-IsNotOlder_example :
    IsNotOlder pki
      (chars "L")
      (chars "I")
      (pos 1000)
      (3 ∷ [])
      (1 ∷ 3 ∷ [])
      (check_chain_of pki chain (some (2 ∷ [])) (pos 1000) written (held (3 ∷ []))).0
check_chain_of-IsNotOlder_example =
    check_chain_of-IsNotOlder pki (chars "L") (chars "I") (pos 1000) [] (some (2 ∷ [])) written
      (3 ∷ []) sample_valid

abbrev numbered : Bytes → Crl
numbered number = record {
  issuer = [];
  algorithm = [];
  signature = [];
  tbs_signature = [];
  has_extensions_map = true;
  has_critical = false;
  revoked = [];
  tbs = [];
  signature_value = [];
  crl_number = some number;
  last_update = pos 0;
  next_update = none;
}

sample_long : ordered_number pki (numbered (1 ∷ 0 ∷ [])) ≡ ok (2 ∷ 1 ∷ 0 ∷ [])
unfolding reading
sample_long = refl

sample_short : ordered_number pki (numbered (200 ∷ [])) ≡ ok (1 ∷ 200 ∷ [])
unfolding reading
sample_short = refl

ordered_number-list_at_least_iff_example :
    (list_at_least (some (2 ∷ 1 ∷ 0 ∷ [])) (some (1 ∷ 200 ∷ [])) ≡ true)
    ↔ (number_of (200 ∷ []) ≤ number_of (1 ∷ 0 ∷ []))
ordered_number-list_at_least_iff_example =
    ordered_number-list_at_least_iff pki (numbered (1 ∷ 0 ∷ [])) (numbered (200 ∷ [])) refl refl
      (omega arith, (omega arith, (omega arith, tt))) (omega arith) sample_long sample_short
