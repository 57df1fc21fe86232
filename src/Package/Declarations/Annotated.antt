-- ===== src/Package/Declarations/Annotated.antt =====
-- src/package/format.rs, `validate_declarations`: the annotations that are read are those of the
-- operations of the document.
use pishoo.Base.{
  Bool, ◌||◌, Option, none, some, List, [], ◌∷◌, String, Text, chars, In, here, there, ok, bind-ok,
  passed, refuse_if-ok, ok_or, ok_or-ok, ◌≡◌, ◌⊎◌, refl, ap, sym, ◌∙◌, subst, Bool-cases,
  Option-cases, inl, inr, arith,
}
use pishoo.Failure.{invalid_component}
use pishoo.Values.{Values, get, at}
use pishoo.Package.Names.{valid_name}
use pishoo.Package.Metadata.{text}
use pishoo.Package.Declarations.{
  is_under, methods, is_among, Operations, has_foreign, one_of, as_name, annotate, check_initial,
  read_operation, read_methods, read_paths,
}

module _ {Value : Type 0} (V : Values Value) where
  -- The operation names a group, in one of the two places for it.
  abbrev pub IsPlaced : Value → Value → Type 0
  IsPlaced operation value =
      (get V (chars "x-access-group") operation ≡ some value)
      ⊎ (get V (chars "access-group") (at V (chars "x-pishoo") operation) ≡ some value)

  -- The operation has this id and says that it is in this group.
  abbrev pub IsSaid : Value → Text × Text → Type 0
  IsSaid operation p =
      (text V operation (chars "operationId") ≡ ok p.1)
      × ((value : Value) × IsPlaced operation value × (V.as_str value ≡ some p.0))

  pub one_of-placed :
      (message : String) (first second : Option Value) {found : Option Value} (value : Value)
      → one_of V message first second ≡ ok found
      → (found ≡ some value → (first ≡ some value) ⊎ (second ≡ some value))
        × ((first ≡ some value) ⊎ (second ≡ some value) → found ≡ some value)
  one_of-placed message (some a) (some b) value h = ground arith
  one_of-placed message (some a) none {found} value h =
      let same : some a ≡ found = ground arith in
      ((λ e. inl (same ∙ e)), (λ c. elim c [ inl e ↦ sym same ∙ e | inr e ↦ ground arith ]))
  one_of-placed message none legacy {found} value h =
      let same : legacy ≡ found = ground arith in
      ((λ e. inr (same ∙ e)), (λ c. elim c [ inl e ↦ ground arith | inr e ↦ sym same ∙ e ]))

  as_name-as_str :
      (value : Value) {name : Text} → as_name V value ≡ some name → V.as_str value ≡ some name
  as_name-as_str value {name} h = elim (Option-cases (V.as_str value)) [
    | inl nothing ↦ ground arith
    | inr (s, e) ↦ elim (Bool-cases (valid_name s)) [
      | inl valid ↦ let same : s ≡ name = ground arith in e ∙ ap some same
      | inr bad ↦ ground arith
    ]
  ]

  -- The pairs after a step are those before it and those that the step adds.
  abbrev pub AreAdded : (Text × Text → Type 0) → List (Text × Text) → List (Text × Text) → Type 0
  AreAdded New before after =
      ((p : Text × Text) → In p after → In p before ⊎ New p)
      × ((p : Text × Text) → In p before → In p after)
      × ((p : Text × Text) → New p → In p after)

  -- The annotation of an operation with this id and this group.
  abbrev IsNoted : Text → Option Value → Text × Text → Type 0
  IsNoted id group p =
      (p.1 ≡ id) × ((value : Value) × (group ≡ some value) × (V.as_str value ≡ some p.0))

  annotate-AreAdded :
      (id : Text) (group : Option Value) (ops : Operations) {next : Operations}
      → annotate V id group ops ≡ ok next
      → AreAdded (IsNoted id group) ops.annotated next.annotated
  unfolding annotate
  annotate-AreAdded id none ops {next} h =
      let same : ops ≡ next = ground arith in
      (
        (λ p m. inl (subst (λ o. In p o.annotated) (sym same) m)),
        (λ p m. subst (λ o. In p o.annotated) same m),
        (λ p (is_id, (value, e, s)). ground arith),
      )
  annotate-AreAdded id (some group) ops {next} h =
      elim (bind-ok (ok_or (as_name V group) (invalid_component "invalid access-group")) _ h) [
        | passed name e1 h1 ↦
            let same : record ops { annotated = (name, id) ∷ ops.annotated } ≡ next =
              ground arith in
            let named = as_name-as_str group (ok_or-ok _ _ e1) in
            (
              (λ p m.
                  let listed : In p ((name, id) ∷ ops.annotated) =
                    subst (λ o. In p o.annotated) (sym same) m in
                  elim listed [
                    | here e ↦ inr (subst (IsNoted id (some group)) e (refl, (group, refl, named)))
                    | there n ↦ inl n
                  ]),
              (λ p m. subst (λ o. In p o.annotated) same (there m)),
              (λ p (is_id, (value, e, s)).
                  let of_group : group ≡ value = ground arith in
                  let at_group = subst (λ v. V.as_str v ≡ some p.0) (sym of_group) s in
                  let is_name : name ≡ p.0 = ground arith in
                  let one : (name, id) ≡ p =
                    ap (λ t. (t, id)) is_name ∙ ap (λ t. (p.0, t)) (sym is_id) in
                  subst (λ o. In p o.annotated) same (here one)),
            )
      ]

  -- The path item says it in the operation of one of the methods.
  abbrev pub IsSaidBy : List Text → Value → Text × Text → Type 0
  IsSaidBy ms item p =
      (method : Text) × In method ms
      × ((operation : Value) × (get V method item ≡ some operation) × IsSaid operation p)

  -- A path of the document says it.
  abbrev pub IsAnnotatedIn : List (Text × Value) → Text × Text → Type 0
  IsAnnotatedIn paths p =
      (path : Text) × (item : Value) × In (path, item) paths × IsSaidBy methods item p

  module _ (parse_grantee parse_effect : Text → Bool) where
    read_operation-AreAdded :
        (ops : Operations) (operation : Value) {next : Operations}
        → read_operation V parse_grantee parse_effect ops operation ≡ ok next
        → AreAdded (IsSaid operation) ops.annotated next.annotated
    unfolding read_operation
    read_operation-AreAdded ops operation {next} h =
        elim (bind-ok (text V operation (chars "operationId")) _ h) [
          | passed id e1 h1 ↦ elim (bind-ok (text V operation (chars "summary")) _ h1) [
            | passed summary e2 h2 ↦
                let (fresh, h3) =
                  refuse_if-ok (is_among id ops.ids) (invalid_component "duplicate operationId") _
                    h2 in
                let (own, h4) =
                  refuse_if-ok
                    (has_foreign V (chars "access-group" ∷ chars "initial-access" ∷ [])
                      (at V (chars "x-pishoo") operation))
                    (invalid_component "template operations are unsupported") _ h3 in
                elim (bind-ok
                  (one_of V "duplicate access-group declarations"
                    (get V (chars "x-access-group") operation)
                    (get V (chars "access-group") (at V (chars "x-pishoo") operation)))
                  _ h4) [
                    | passed group e5 h5 ↦
                        elim (bind-ok (annotate V id group (record ops { ids = id ∷ ops.ids })) _
                          h5) [
                            | passed middle e6 h6 ↦
                                elim (bind-ok
                                  (check_initial V parse_grantee parse_effect (
                                    get V (chars "initial-access")
                                      (at V (chars "x-pishoo") operation)))
                                  _ h6) [
                                    | passed u e7 h7 ↦
                                        let same : middle ≡ next = ground arith in
                                        let (fine, kept, added) =
                                          annotate-AreAdded id group
                                            (record ops { ids = id ∷ ops.ids }) e6 in
                                        let place = λ (value : Value).
                                          one_of-placed "duplicate access-group declarations"
                                            (get V (chars "x-access-group") operation)
                                            (get V (chars "access-group")
                                              (at V (chars "x-pishoo") operation))
                                            value e5 in
                                        subst
                                          (λ n.
                                            AreAdded (IsSaid operation) ops.annotated n.annotated)
                                          same
                                          (
                                            (λ p m. elim (fine p m) [
                                              | inl before ↦ inl before
                                              | inr (is_id, (value, e, s)) ↦ inr (
                                                e1 ∙ ap ok (sym is_id),
                                                (value, (place value).0 e, s),
                                              )
                                            ]),
                                            kept,
                                            (λ p (is_id, (value, placed, s)).
                                                let one : p.1 ≡ id = ground (arith, e1, is_id) in
                                                added p (one, (value, (place value).1 placed, s))),
                                          )
                                  ]
                          ]
                  ]
          ]
        ]

    read_methods-AreAdded :
        (ms : List Text) (ops : Operations) (item : Value) {last : Operations}
        → read_methods V parse_grantee parse_effect ms ops item ≡ ok last
        → AreAdded (IsSaidBy ms item) ops.annotated last.annotated
    unfolding read_methods
    read_methods-AreAdded [] ops item {last} h =
        let same : ops ≡ last = ground arith in
        subst (λ o. AreAdded (IsSaidBy [] item) ops.annotated o.annotated) same
          ((λ p m. inl m), (λ p m. m), (λ p (method, m, said). elim m [ ]))
    read_methods-AreAdded (method ∷ rest) ops item {last} h =
        elim (Option-cases (get V method item)) [
          | inl nothing ↦
              let (fine, kept, added) =
                read_methods-AreAdded rest ops item {last = last} (ground arith) in
              (
                (λ p m. elim (fine p m) [
                  | inl before ↦ inl before
                  | inr (t, at_t, said) ↦ inr (t, there at_t, said)
                ]),
                kept,
                (λ p (m, at_m, (operation, is_one, said)). elim at_m [
                  | here e ↦
                      let here_none = subst (λ t. get V t item ≡ none) e nothing in ground arith
                  | there n ↦ added p (m, n, (operation, is_one, said))
                ]),
              )
          | inr (operation, e) ↦
              elim (bind-ok (read_operation V parse_grantee parse_effect ops operation)
                (λ next. read_methods V parse_grantee parse_effect rest next item) (ground arith)) [
                  | passed next reads h1 ↦
                      let (first_fine, first_kept, first_added) =
                        read_operation-AreAdded ops operation reads in
                      let (fine, kept, added) =
                        read_methods-AreAdded rest next item {last = last} h1 in
                      (
                        (λ p m. elim (fine p m) [
                          | inl middle ↦ elim (first_fine p middle) [
                            | inl before ↦ inl before
                            | inr said ↦ inr (method, here refl, (operation, e, said))
                          ]
                          | inr (t, at_t, said) ↦ inr (t, there at_t, said)
                        ]),
                        (λ p m. kept p (first_kept p m)),
                        (λ p (m, at_m, (other, is_one, said)). elim at_m [
                          | here same ↦
                              let at_m = subst (λ t. get V t item ≡ some operation) same e in
                              let one : other ≡ operation = ground arith in
                              kept p (first_added p (subst (λ o. IsSaid o p) one said))
                          | there n ↦ added p (m, n, (other, is_one, said))
                        ]),
                      )
                ]
        ]

    pub read_paths-AreAdded :
        (ops : Operations) (paths : List (Text × Value)) {last : Operations}
        → read_paths V parse_grantee parse_effect ops paths ≡ ok last
        → AreAdded (IsAnnotatedIn paths) ops.annotated last.annotated
    unfolding read_paths
    read_paths-AreAdded ops [] {last} h =
        let same : ops ≡ last = ground arith in
        subst (λ o. AreAdded (IsAnnotatedIn []) ops.annotated o.annotated) same
          ((λ p m. inl m), (λ p m. m), (λ p (path, item, m, said). elim m [ ]))
    read_paths-AreAdded ops ((path, item) ∷ paths) {last} h =
        let (free, h1) =
          refuse_if-ok (is_under (chars "/api") path || is_under (chars "/app") path)
            (invalid_component "business API cannot contain host mounting prefixes") _ h in
        elim (bind-ok (read_methods V parse_grantee parse_effect methods ops item) _ h1) [
          | passed next e2 h2 ↦
              let (first_fine, first_kept, first_added) =
                read_methods-AreAdded methods ops item e2 in
              let (fine, kept, added) = read_paths-AreAdded next paths {last = last} h2 in
              (
                (λ p m. elim (fine p m) [
                  | inl middle ↦ elim (first_fine p middle) [
                    | inl before ↦ inl before
                    | inr said ↦ inr (path, item, here refl, said)
                  ]
                  | inr (t, i, at_t, said) ↦ inr (t, i, there at_t, said)
                ]),
                (λ p m. kept p (first_kept p m)),
                (λ p (t, i, m, said). elim m [
                  | here same ↦
                      let one : i ≡ item = sym (ap (λ r. r.1) same) in
                      kept p (first_added p (subst (λ v. IsSaidBy methods v p) one said))
                  | there n ↦ added p (t, i, n, said)
                ]),
              )
        ]
