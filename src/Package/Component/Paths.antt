-- ===== src/Package/Component/Paths.antt =====
-- src/package/manifest.rs, `validate_openapi`: the paths and operations of an accepted document.
use pishoo.Base.{
  ◌*◌, true, false, not, ◌||◌, Option, none, some, List, [], ◌∷◌, ◌++◌, Text, chars, text_eq,
  text_eq_iff, any, All, starts_with, length, ltb, ◌≡◌, ◌≢◌, sym, ap, ◌∙◌, inl, inr, ok, Bool-cases,
  Option-cases, Result-cases, or-false, arith,
}
use pishoo.Setup.{valid_path}
use pishoo.Package.Component.{
  Bytes, PathItem, OpenApi, brace, check_ids, check_paths, validate_openapi,
}

-- The ids of the operations, in the order of the document.
abbrev pub present : List (Option Text) → List Text
present [] = []
present (none ∷ ids) = present ids
present (some id ∷ ids) = id ∷ present ids

abbrev pub all_ids : List (Text × PathItem) → List (Option Text)
all_ids [] = []
all_ids ((path, item) ∷ paths) = item.operation_ids ++ all_ids paths

abbrev pub AreDistinctTexts : List Text → Type 0
AreDistinctTexts [] = Unit
AreDistinctTexts (x ∷ xs) = All (λ y. y ≢ x) xs × AreDistinctTexts xs

abbrev pub IsApiPath : Text × PathItem → Type 0
IsApiPath row =
    (valid_path row.0 ≡ true) × (any brace row.0 ≡ false) × (row.1.has_reference ≡ false)

check_ids-append :
    (seen : List Text) (a b : List (Option Text)) {middle : List Text}
    → check_ids seen a ≡ ok middle
    → check_ids seen (a ++ b) ≡ check_ids middle b
unfolding check_ids
check_ids-append seen [] b {middle} h =
    let same : seen ≡ middle = ground arith in ap (λ s. check_ids s b) same
check_ids-append seen (none ∷ a) b h = check_ids-append seen a b h
check_ids-append seen (some id ∷ a) b {middle} h = elim (Bool-cases (any (text_eq id) seen)) [
  | inl repeated ↦ ground arith
  | inr new ↦ rw new (check_ids-append (id ∷ seen) a b {middle = middle} (ground arith))
]

unseen_parts :
    (id : Text) (seen ids : List Text)
    → All (λ x. any (text_eq x) (id ∷ seen) ≡ false) ids
    → All (λ x. x ≢ id) ids × All (λ x. any (text_eq x) seen ≡ false) ids
unseen_parts id seen [] h = (tt, tt)
unseen_parts id seen (x ∷ ids) (h, hs) =
    let parts = or-false (text_eq x id) (any (text_eq x) seen) h in
    let rest = unseen_parts id seen ids hs in
    (((λ e. ground (arith, parts.0, (text_eq_iff x id).1 e)), rest.0), (parts.1, rest.1))

check_ids-AreDistinctTexts :
    (seen : List Text) (ids : List (Option Text)) {last : List Text}
    → check_ids seen ids ≡ ok last
    → All (λ x. any (text_eq x) seen ≡ false) (present ids) × AreDistinctTexts (present ids)
unfolding check_ids
check_ids-AreDistinctTexts seen [] h = (tt, tt)
check_ids-AreDistinctTexts seen (none ∷ ids) h = check_ids-AreDistinctTexts seen ids h
check_ids-AreDistinctTexts seen (some id ∷ ids) {last} h =
    elim (Bool-cases (any (text_eq id) seen)) [
      | inl repeated ↦ ground arith
      | inr new ↦
          let rest = check_ids-AreDistinctTexts (id ∷ seen) ids {last = last} (ground arith) in
          let parts = unseen_parts id seen (present ids) rest.0 in
          ((new, parts.1), (parts.0, rest.1))
    ]

check_paths-IsApiPath :
    (seen : List Text) (paths : List (Text × PathItem)) {last : List Text}
    → check_paths seen paths ≡ ok last
    → All IsApiPath paths × (check_ids seen (all_ids paths) ≡ ok last)
unfolding check_paths check_ids
check_paths-IsApiPath seen [] h = (tt, h)
check_paths-IsApiPath seen ((path, item) ∷ paths) {last} h =
    elim (Bool-cases (not (valid_path path) || any brace path)) [
      | inl bad ↦ ground arith
      | inr fine ↦ elim (Bool-cases item.has_reference) [
        | inl refers ↦ ground arith
        | inr direct ↦ elim (Result-cases (check_ids seen item.operation_ids)) [
          | inr (e, fails) ↦ ground arith
          | inl (next, e) ↦
              let rest = check_paths-IsApiPath next paths {last = last} (ground arith) in
              let parts = or-false (not (valid_path path)) (any brace path) fine in
              (
                ((ground (arith, parts.0), parts.1, direct), rest.0),
                check_ids-append seen item.operation_ids (all_ids paths) e ∙ rest.1,
              )
        ]
      ]
    ]

-- The paths of an accepted document are valid, without parameters and references, and no two
-- operations have the same id.
pub validate_openapi-AreDistinctTexts :
    (parse_openapi : Bytes → Option OpenApi) (bytes : Bytes) {openapi : OpenApi}
    → validate_openapi parse_openapi bytes ≡ ok openapi
    → (parse_openapi bytes ≡ some openapi)
      × ((paths : List (Text × PathItem)) × (openapi.paths ≡ some paths)
          × All IsApiPath paths
          × AreDistinctTexts (present (all_ids paths)))
unfolding validate_openapi
validate_openapi-AreDistinctTexts parse_openapi bytes {openapi} h =
    elim (Bool-cases (ltb (1024 * 1024) (length bytes))) [
      | inl big ↦ ground arith
      | inr fits ↦ elim (Option-cases (parse_openapi bytes)) [
        | inl bad ↦ ground arith
        | inr (parsed, e) ↦ elim (Bool-cases (not (starts_with (chars "3.1.") parsed.openapi))) [
          | inl version ↦ ground arith
          | inr fine ↦ elim (Option-cases parsed.paths) [
            | inl missing ↦ ground arith
            | inr (paths, found) ↦ elim (Result-cases (check_paths [] paths)) [
              | inr (e2, fails) ↦ ground arith
              | inl (ids, checked) ↦
                  let same : parsed ≡ openapi = ground arith in
                  let holds = check_paths-IsApiPath [] paths checked in
                  (
                    e ∙ ap (λ o. some o) same,
                    (
                      paths,
                      ap (λ o. o.paths) (sym same) ∙ found,
                      holds.0,
                      (check_ids-AreDistinctTexts [] (all_ids paths) holds.1).1,
                    ),
                  )
            ]
          ]
        ]
      ]
    ]
