-- ===== src/Package/Declarations/Ids.antt =====
-- src/package/format.rs, `validate_declarations`: the ids of the operations of a document.
use pishoo.Base.{
  none, ap, ◌∙◌, false, map, Bool, ◌||◌, some, List, [], ◌∷◌, Text, chars, ok, bind-ok, passed,
  refuse_if-ok, ◌≡◌, sym, subst, inl, inr, Option-cases, Result-cases, arith,
}
use pishoo.Failure.{invalid_component}
use pishoo.Values.{Values, get, at}
use pishoo.Package.Metadata.{text}
use pishoo.Package.Declarations.{
  is_under, methods, is_among, Operations, has_foreign, one_of, annotate, check_initial,
  read_operation, read_methods, read_paths,
}
use pishoo.Package.Declarations.Grouping.{AreDistinct, annotate-ids}

module _ {Value : Type 0} (V : Values Value) where
  -- The operations of a path item and of all paths, the last one first.
  abbrev operations_at : List Text → List Value → Value → List Value
  operations_at [] before item = before
  operations_at (method ∷ rest) before item = elim (get V method item) [
    | none ↦ operations_at rest before item
    | some operation ↦ operations_at rest (operation ∷ before) item
  ]

  abbrev pub operations_of : List Value → List (Text × Value) → List Value
  operations_of before [] = before
  operations_of before ((path, item) ∷ paths) =
      operations_of (operations_at methods before item) paths

  -- The ids are those of the operations.
  abbrev pub AreIds : List Value → List Text → Type 0
  AreIds found ids = map (λ o. text V o (chars "operationId")) found ≡ map ok ids

  module _ (parse_grantee parse_effect : Text → Bool) where
    read_operation-fresh :
        (ops : Operations) (operation : Value) {next : Operations}
        → read_operation V parse_grantee parse_effect ops operation ≡ ok next
        → (id : Text) × (text V operation (chars "operationId") ≡ ok id)
          × (next.ids ≡ id ∷ ops.ids)
          × (is_among id ops.ids ≡ false)
    unfolding read_operation
    read_operation-fresh ops operation {next} h =
        elim (bind-ok (text V operation (chars "operationId")) _ h) [
          | passed id e1 h1 ↦ elim (bind-ok (text V operation (chars "summary")) _ h1) [
            | passed summary e2 h2 ↦
                let (fresh, h3) =
                  refuse_if-ok (is_among id ops.ids) (invalid_component "duplicate operationId") _
                    h2 in
                let (own, h4) =
                  refuse_if-ok
                    (has_foreign V (chars "access-group" ∷ chars "initial-access" ∷ [])
                      (at V (chars "x-pishoo") operation))
                    (invalid_component "template operations are unsupported") _ h3 in
                elim (bind-ok
                  (one_of V "duplicate access-group declarations"
                    (get V (chars "x-access-group") operation)
                    (get V (chars "access-group") (at V (chars "x-pishoo") operation)))
                  _ h4) [
                    | passed group e5 h5 ↦
                        elim (bind-ok (annotate V id group (record ops { ids = id ∷ ops.ids })) _
                          h5) [
                            | passed middle e6 h6 ↦
                                elim (bind-ok
                                  (check_initial V parse_grantee parse_effect (
                                    get V (chars "initial-access")
                                      (at V (chars "x-pishoo") operation)))
                                  _ h6) [
                                    | passed u e7 h7 ↦
                                        let same : middle ≡ next = ground arith in
                                        (
                                          id,
                                          e1,
                                          ap (λ n. n.ids) (sym same)
                                              ∙ annotate-ids V id group
                                                  (record ops { ids = id ∷ ops.ids }) e6,
                                          fresh,
                                        )
                                  ]
                          ]
                  ]
          ]
        ]

    read_operation-distinct :
        (ops : Operations) (operation : Value) {next : Operations}
        → AreDistinct ops.ids
        → read_operation V parse_grantee parse_effect ops operation ≡ ok next
        → AreDistinct next.ids
    read_operation-distinct ops operation fine h =
        let (id, named, ids, fresh) = read_operation-fresh ops operation h in
        subst AreDistinct (sym ids) (fresh, fine)

    read_methods-distinct :
        (rest : List Text) (ops : Operations) (item : Value) {last : Operations}
        → AreDistinct ops.ids
        → read_methods V parse_grantee parse_effect rest ops item ≡ ok last
        → AreDistinct last.ids
    unfolding read_methods
    read_methods-distinct [] ops item {last} fine h =
        let same : ops ≡ last = ground arith in subst (λ n. AreDistinct n.ids) same fine
    read_methods-distinct (method ∷ rest) ops item {last} fine h =
        elim (Option-cases (get V method item)) [
          | inl nothing ↦ read_methods-distinct rest ops item {last = last} fine (ground arith)
          | inr (operation, e) ↦
              elim (Result-cases (read_operation V parse_grantee parse_effect ops operation)) [
                | inr (failure, fails) ↦ ground arith
                | inl (next, reads) ↦
                    read_methods-distinct rest next item {last = last}
                      (read_operation-distinct ops operation fine reads) (ground arith)
              ]
        ]

    pub read_paths-distinct :
        (ops : Operations) (paths : List (Text × Value)) {last : Operations}
        → AreDistinct ops.ids
        → read_paths V parse_grantee parse_effect ops paths ≡ ok last
        → AreDistinct last.ids
    unfolding read_paths
    read_paths-distinct ops [] {last} fine h =
        let same : ops ≡ last = ground arith in subst (λ n. AreDistinct n.ids) same fine
    read_paths-distinct ops ((path, item) ∷ paths) fine h =
        let (free, h1) =
          refuse_if-ok (is_under (chars "/api") path || is_under (chars "/app") path)
            (invalid_component "business API cannot contain host mounting prefixes") _ h in
        elim (bind-ok (read_methods V parse_grantee parse_effect methods ops item) _ h1) [
          | passed next e2 h2 ↦
              read_paths-distinct next paths (read_methods-distinct methods ops item fine e2) h2
        ]

    read_operation-AreIds :
        (found : List Value) (ops : Operations) (operation : Value) {next : Operations}
        → AreIds found ops.ids
        → read_operation V parse_grantee parse_effect ops operation ≡ ok next
        → AreIds (operation ∷ found) next.ids
    read_operation-AreIds found ops operation {next} fine h =
        let (id, named, ids, fresh) = read_operation-fresh ops operation h in
        ap (λ r. r ∷ map (λ o. text V o (chars "operationId")) found) named
        ∙ ap (λ rs. ok id ∷ rs) fine
        ∙ ap (map ok) (sym ids)

    read_methods-AreIds :
        (rest : List Text) (found : List Value) (ops : Operations) (item : Value)
        {last : Operations}
        → AreIds found ops.ids
        → read_methods V parse_grantee parse_effect rest ops item ≡ ok last
        → AreIds (operations_at rest found item) last.ids
    unfolding read_methods
    read_methods-AreIds [] found ops item {last} fine h =
        let same : ops ≡ last = ground arith in subst (λ n. AreIds found n.ids) same fine
    read_methods-AreIds (method ∷ rest) found ops item {last} fine h =
        elim (Option-cases (get V method item)) [
          | inl nothing ↦
              subst (λ fs. AreIds fs last.ids) (ground arith)
                (read_methods-AreIds rest found ops item {last = last} fine (ground arith))
          | inr (operation, e) ↦
              elim (bind-ok (read_operation V parse_grantee parse_effect ops operation)
                (λ next. read_methods V parse_grantee parse_effect rest next item) (ground arith)) [
                  | passed next reads h1 ↦
                      subst (λ fs. AreIds fs last.ids) (ground arith)
                        (read_methods-AreIds rest (operation ∷ found) next item {last = last}
                          (read_operation-AreIds found ops operation fine reads) h1)
                ]
        ]

    pub read_paths-AreIds :
        (found : List Value) (ops : Operations) (paths : List (Text × Value)) {last : Operations}
        → AreIds found ops.ids
        → read_paths V parse_grantee parse_effect ops paths ≡ ok last
        → AreIds (operations_of found paths) last.ids
    unfolding read_paths
    read_paths-AreIds found ops [] {last} fine h =
        let same : ops ≡ last = ground arith in subst (λ n. AreIds found n.ids) same fine
    read_paths-AreIds found ops ((path, item) ∷ paths) fine h =
        let (free, h1) =
          refuse_if-ok (is_under (chars "/api") path || is_under (chars "/app") path)
            (invalid_component "business API cannot contain host mounting prefixes") _ h in
        elim (bind-ok (read_methods V parse_grantee parse_effect methods ops item) _ h1) [
          | passed next e2 h2 ↦
              read_paths-AreIds (operations_at methods found item) next paths
                (read_methods-AreIds methods found ops item fine e2) h2
        ]
