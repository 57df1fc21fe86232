-- ===== src/Package/Declarations/Declared.antt =====
-- src/package/format.rs, `validate_declarations`: the groups that are read are those of the document.
use pishoo.Base.{
  not, ◌&&◌, Option, none, some, List, [], ◌∷◌, Text, chars, All, In, here, there, ok, bind-ok,
  passed, refuse_if-ok, ok_or, ok_or-ok, ◌≡◌, refl, ap, sym, ◌∙◌, subst, Bool-cases, Option-cases,
  inl, inr, arith,
}
use pishoo.Failure.{invalid_component}
use pishoo.Values.{Values, get, at, is_true}
use pishoo.Package.Names.{valid_name}
use pishoo.Package.Declarations.{
  is_among, Groups, check_title, not_boolean, read_app, known_operation, read_members, filled_array,
  read_group, read_groups, no_groups, read_declared,
}

module _ {Value : Type 0} (V : Values Value) where
  -- The group has this operation in its array of operations.
  abbrev pub HasOperation : Value → Text → Type 0
  HasOperation group id =
      (values : List Value) × (V.as_array (at V (chars "operations") group) ≡ some values)
      × (value : Value) × In value values
      × (V.as_str value ≡ some id)

  -- Some row of the table has the name of the group, and the group has the operation.
  abbrev pub IsRow : List (Text × Value) → Text × Text → Type 0
  IsRow rows p = (group : Value) × In (p.0, group) rows × HasOperation group p.1

  known_operation-as_str :
      (operations : List Text) (value : Value) {id : Text}
      → known_operation V operations value ≡ some id
      → V.as_str value ≡ some id
  known_operation-as_str operations value {id} h = elim (Option-cases (V.as_str value)) [
    | inl nothing ↦ ground arith
    | inr (s, e) ↦ elim (Bool-cases (is_among s operations)) [
      | inl among ↦ let same : s ≡ id = ground arith in e ∙ ap some same
      | inr other ↦ ground arith
    ]
  ]

  -- What is declared stays, and what is added is one of the values.
  read_members-exact :
      (P : Text × Text → Type 0) (operations : List Text) (name : Text) (groups : Groups)
      (values : List Value) {last : Groups}
      → ((value : Value) (id : Text) → In value values → V.as_str value ≡ some id → P (name, id))
      → All P groups.declared
      → read_members V operations name groups values ≡ ok last
      → All P last.declared
        × ((p : Text × Text) → In p groups.declared → In p last.declared)
        × ((value : Value) (id : Text)
            → In value values
            → V.as_str value ≡ some id
            → In (name, id) last.declared)
  unfolding read_members
  read_members-exact P operations name groups [] {last} each fine h =
      let same : groups ≡ last = ground arith in
      (
        subst (λ g. All P g.declared) same fine,
        (λ p m. subst (λ g. In p g.declared) same m),
        (λ value id m. elim m [ ]),
      )
  read_members-exact P operations name groups (value ∷ values) {last} each fine h =
      elim (bind-ok
        (ok_or (known_operation V operations value) (invalid_component "unknown group operation")) _
        h) [
          | passed id e1 h1 ↦
              let (fresh, h2) =
                refuse_if-ok (is_among id groups.members)
                  (invalid_component "overlapping or duplicate group operation") _ h1 in
              let is_id = known_operation-as_str operations value (ok_or-ok _ _ e1) in
              let (all_fine, kept, added) =
                read_members-exact P operations name
                  (record groups {
                    declared = (name, id) ∷ groups.declared;
                    members = id ∷ groups.members;
                  })
                  values (λ v i m e. each v i (there m) e) (each value id (here refl) is_id, fine)
                  h2 in
              (
                all_fine,
                (λ p m. kept p (there m)),
                (λ v i m e. elim m [
                  | here same ↦
                      let at_v = subst (λ w. V.as_str w ≡ some id) same is_id in
                      let one : id ≡ i = ground arith in
                      kept (name, i) (here (ap (λ t. (name, t)) one))
                  | there n ↦ added v i n e
                ]),
              )
        ]

  read_app-declared :
      (group : Value) (groups : Groups) {next : Groups}
      → read_app V group groups ≡ ok next
      → groups.declared ≡ next.declared
  unfolding read_app
  read_app-declared group groups {next} h =
      let (boolean, h1) =
        refuse_if-ok (not_boolean V (get V (chars "app") group))
          (invalid_component "group app must be a boolean") _ h in
      let (single, h2) =
        refuse_if-ok (is_true V (at V (chars "app") group) && groups.app_group)
          (invalid_component "app entry belongs to multiple groups") _ h1 in
      ground arith

  filled_array-some :
      (found : Option (List Value)) {values : List Value}
      → filled_array V found ≡ some values
      → found ≡ some values
  filled_array-some none h = ground arith
  filled_array-some (some []) h = ground arith
  filled_array-some (some (v ∷ vs)) h = h

  read_group-exact :
      (P : Text × Text → Type 0) (operations : List Text) (groups : Groups) (name : Text)
      (group : Value) {last : Groups}
      → ((id : Text) → HasOperation group id → P (name, id))
      → All P groups.declared
      → read_group V operations groups (name, group) ≡ ok last
      → All P last.declared
        × ((p : Text × Text) → In p groups.declared → In p last.declared)
        × ((id : Text) → HasOperation group id → In (name, id) last.declared)
  unfolding read_group
  read_group-exact P operations groups name group {last} each fine h =
      let (valid, h1) =
        refuse_if-ok (not (valid_name name)) (invalid_component "invalid group name") _ h in
      elim (bind-ok (check_title V group) _ h1) [
        | passed u e2 h2 ↦ elim (bind-ok (read_app V group groups) _ h2) [
          | passed middle e3 h3 ↦
              elim (bind-ok
                (ok_or (filled_array V (V.as_array (at V (chars "operations") group)))
                  (invalid_component "group must contain operations"))
                _ h3) [
                  | passed ids e4 h4 ↦
                      let listed = filled_array-some _ (ok_or-ok _ _ e4) in
                      let same = read_app-declared group groups e3 in
                      let (all_fine, kept, added) =
                        read_members-exact P operations name middle ids
                          (λ value id m e. each id (ids, listed, value, m, e))
                          (subst (λ d. All P d) same fine) h4 in
                      (
                        all_fine,
                        (λ p m. kept p (subst (λ d. In p d) same m)),
                        (λ id (values, there_are, value, m, e).
                            let one : values ≡ ids = ground arith in
                            added value id (subst (λ vs. In value vs) one m) e),
                      )
                ]
        ]
      ]

  read_groups-exact :
      (P : Text × Text → Type 0) (operations : List Text) (groups : Groups)
      (rows : List (Text × Value)) {last : Groups}
      → ((p : Text × Text) → IsRow rows p → P p)
      → All P groups.declared
      → read_groups V operations groups rows ≡ ok last
      → All P last.declared
        × ((p : Text × Text) → In p groups.declared → In p last.declared)
        × ((p : Text × Text) → IsRow rows p → In p last.declared)
  unfolding read_groups
  read_groups-exact P operations groups [] {last} each fine h =
      let same : groups ≡ last = ground arith in
      (
        subst (λ g. All P g.declared) same fine,
        (λ p m. subst (λ g. In p g.declared) same m),
        (λ p (group, m, has). elim m [ ]),
      )
  read_groups-exact P operations groups ((name, group) ∷ rows) {last} each fine h =
      elim (bind-ok (read_group V operations groups (name, group)) _ h) [
        | passed next e1 h1 ↦
            let (first_fine, first_kept, first_added) =
              read_group-exact P operations groups name group
                (λ id has. each (name, id) (group, here refl, has)) fine e1 in
            let (all_fine, kept, added) =
              read_groups-exact P operations next rows (λ p (g, m, has). each p (g, there m, has))
                first_fine h1 in
            (
              all_fine,
              (λ p m. kept p (first_kept p m)),
              (λ p (g, m, has). elim m [
                | here same ↦
                    let of_group : HasOperation group p.1 =
                      subst (λ v. HasOperation v p.1) (sym (ap (λ r. r.1) same)) has in
                    let one : (name, p.1) ≡ p = ap (λ t. (t, p.1)) (ap (λ r. r.0) same) in
                    subst (λ q. In q last.declared) one
                      (kept (name, p.1) (first_added p.1 of_group))
                | there n ↦ added p (g, n, has)
              ]),
            )
      ]

  -- The rows of the table, if there is one.
  abbrev pub IsDeclaredIn : Option Value → Text × Text → Type 0
  IsDeclaredIn declaration p =
      (table : Value) × (declaration ≡ some table)
      × (rows : List (Text × Value)) × (V.as_object table ≡ some rows)
      × IsRow rows p

  pub read_declared-exact :
      (operations : List Text) (declaration : Option Value) {groups : Groups}
      → read_declared V operations declaration ≡ ok groups
      → All (IsDeclaredIn declaration) groups.declared
        × ((p : Text × Text) → IsDeclaredIn declaration p → In p groups.declared)
  unfolding read_declared
  read_declared-exact operations none {groups} h =
      let same : no_groups V ≡ groups = ground arith in
      (
        subst (λ g. All (IsDeclaredIn none) g.declared) same tt,
        (λ p (table, is_table, rest, of_rest, row). ground arith),
      )
  read_declared-exact operations (some value) {groups} h =
      elim (bind-ok
        (ok_or (V.as_object value) (invalid_component "access-groups must be an object")) _ h) [
          | passed rows e1 h1 ↦
              let of_table = ok_or-ok _ _ e1 in
              let (all_fine, kept, added) =
                read_groups-exact (IsDeclaredIn (some value)) operations (no_groups V) rows
                  (λ p row. (value, refl, rows, of_table, row)) tt h1 in
              (
                all_fine,
                (λ p (table, is_table, found, of_found, row).
                    let same : table ≡ value = ground arith in
                    let at_value = subst (λ t. V.as_object t ≡ some found) same of_found in
                    let one : found ≡ rows = ground arith in
                    added p (subst (λ rs. IsRow rs p) one row)),
              )
        ]
