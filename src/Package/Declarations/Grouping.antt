-- ===== src/Package/Declarations/Grouping.antt =====
-- src/package/format.rs, `validate_declarations`: the groups of a document.
use pishoo.Base.{
  true, false, not, ◌&&◌, ◌||◌, Option, none, some, List, [], ◌∷◌, Text, chars, All, map, ok,
  bind-ok, passed, refuse_if-ok, ok_or, ok_or-ok, ◌≡◌, refl, ap, subst, inl, inr, Bool-cases,
  Option-cases, arith,
}
use pishoo.Failure.{invalid_component}
use pishoo.Values.{Values, get, at, is_true}
use pishoo.Package.Names.{valid_name}
use pishoo.Package.Declarations.{
  is_among, Operations, Groups, annotate, check_title, not_boolean, read_app, known_operation,
  read_members, filled_array, read_group, read_groups, no_groups, read_declared,
}

abbrev pub AreDistinct : List Text → Type 0
AreDistinct [] = Unit
AreDistinct (id ∷ ids) = (is_among id ids ≡ false) × AreDistinct ids

abbrev pub operation_of : Text × Text → Text
operation_of p = p.1

-- Every member is an operation and in one group, the one that it is declared in.
pub record IsGrouping (operations : List Text) (groups : Groups) : Type 0 where
  pub members : map operation_of groups.declared ≡ groups.members
  pub distinct : AreDistinct groups.members
  pub known : All (λ id. is_among id operations ≡ true) groups.members

module _ {Value : Type 0} (V : Values Value) where
  pub annotate-ids :
      (id : Text) (group : Option Value) (ops : Operations) {next : Operations}
      → annotate V id group ops ≡ ok next
      → next.ids ≡ ops.ids
  unfolding annotate
  annotate-ids id none ops h = ground arith
  annotate-ids id (some group) ops h = ground arith

  known_operation-is_among :
      (operations : List Text) (value : Value) {id : Text}
      → known_operation V operations value ≡ some id
      → is_among id operations ≡ true
  known_operation-is_among operations value {id} h = elim (Option-cases (V.as_str value)) [
    | inl nothing ↦ ground arith
    | inr (s, e) ↦ elim (Bool-cases (is_among s operations)) [
      | inl among ↦
          let same : s ≡ id = ground arith in subst (λ t. is_among t operations ≡ true) same among
      | inr other ↦ ground arith
    ]
  ]

  read_members-IsGrouping :
      (operations : List Text) (name : Text) (groups : Groups) (values : List Value) {last : Groups}
      → IsGrouping operations groups
      → read_members V operations name groups values ≡ ok last
      → IsGrouping operations last
  unfolding read_members
  read_members-IsGrouping operations name groups [] {last} fine h =
      let same : groups ≡ last = ground arith in subst (IsGrouping operations) same fine
  read_members-IsGrouping operations name groups (value ∷ values) {last} fine h =
      elim (bind-ok
        (ok_or (known_operation V operations value) (invalid_component "unknown group operation")) _
        h) [
          | passed id e1 h1 ↦
              let (fresh, h2) =
                refuse_if-ok (is_among id groups.members)
                  (invalid_component "overlapping or duplicate group operation") _ h1 in
              read_members-IsGrouping operations name
                (record groups {
                  declared = (name, id) ∷ groups.declared;
                  members = id ∷ groups.members;
                })
                values
                (record {
                  members = ap (λ ids. id ∷ ids) fine.members;
                  distinct = (fresh, fine.distinct);
                  known = (known_operation-is_among operations value (ok_or-ok _ _ e1), fine.known);
                })
                h2
        ]

  read_app-IsGrouping :
      (operations : List Text) (group : Value) (groups : Groups) {next : Groups}
      → IsGrouping operations groups
      → read_app V group groups ≡ ok next
      → IsGrouping operations next
  unfolding read_app
  read_app-IsGrouping operations group groups {next} fine h =
      let (boolean, h1) =
        refuse_if-ok (not_boolean V (get V (chars "app") group))
          (invalid_component "group app must be a boolean") _ h in
      let (single, h2) =
        refuse_if-ok (is_true V (at V (chars "app") group) && groups.app_group)
          (invalid_component "app entry belongs to multiple groups") _ h1 in
      let same : record groups {
        app_group = is_true V (at V (chars "app") group) || groups.app_group;
      }
          ≡ next =
        ground arith in
      subst (IsGrouping operations) same
        (record { members = fine.members; distinct = fine.distinct; known = fine.known })

  read_group-IsGrouping :
      (operations : List Text) (groups : Groups) (name : Text) (group : Value) {next : Groups}
      → IsGrouping operations groups
      → read_group V operations groups (name, group) ≡ ok next
      → IsGrouping operations next
  unfolding read_group
  read_group-IsGrouping operations groups name group {next} fine h =
      let (valid, h1) =
        refuse_if-ok (not (valid_name name)) (invalid_component "invalid group name") _ h in
      elim (bind-ok (check_title V group) _ h1) [
        | passed u e2 h2 ↦ elim (bind-ok (read_app V group groups) _ h2) [
          | passed middle e3 h3 ↦
              elim (bind-ok
                (ok_or (filled_array V (V.as_array (at V (chars "operations") group)))
                  (invalid_component "group must contain operations"))
                _ h3) [
                  | passed ids e4 h4 ↦
                      read_members-IsGrouping operations name middle ids
                        (read_app-IsGrouping operations group groups fine e3) h4
                ]
        ]
      ]

  read_groups-IsGrouping :
      (operations : List Text) (groups : Groups) (rows : List (Text × Value)) {last : Groups}
      → IsGrouping operations groups
      → read_groups V operations groups rows ≡ ok last
      → IsGrouping operations last
  unfolding read_groups
  read_groups-IsGrouping operations groups [] {last} fine h =
      let same : groups ≡ last = ground arith in subst (IsGrouping operations) same fine
  read_groups-IsGrouping operations groups ((name, group) ∷ rows) fine h =
      elim (bind-ok (read_group V operations groups (name, group)) _ h) [
        | passed next e1 h1 ↦
            read_groups-IsGrouping operations next rows
              (read_group-IsGrouping operations groups name group fine e1) h1
      ]

  pub read_declared-IsGrouping :
      (operations : List Text) (value : Option Value) {last : Groups}
      → read_declared V operations value ≡ ok last
      → IsGrouping operations last
  unfolding read_declared
  read_declared-IsGrouping operations none {last} h =
      let same : no_groups V ≡ last = ground arith in
      subst (IsGrouping operations) same (record { members = refl; distinct = tt; known = tt })
  read_declared-IsGrouping operations (some value) h =
      elim (bind-ok
        (ok_or (V.as_object value) (invalid_component "access-groups must be an object")) _ h) [
          | passed rows e1 h1 ↦
              read_groups-IsGrouping operations (no_groups V) rows
                (record { members = refl; distinct = tt; known = tt }) h1
        ]
