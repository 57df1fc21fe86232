-- ===== src/Package/Declarations/Membership.antt =====
-- src/package/format.rs, `validate_declarations`: which operations are in which groups.
use pishoo.Base.{
  ap, ◌∙◌, ◌⊎◌, refl, Option, false, map, text_eq, text_eq_refl, eq_of_text_eq, any-In, All-In, In,
  here, there, Bool, true, ◌||◌, some, List, [], ◌∷◌, Text, chars, any, all, all→All, and-parts,
  is_some, ok, bind-ok, passed, refuse_if-ok, ok_or, ok_or-ok, ◌≡◌, sym, subst, inl, inr, arith,
}
use pishoo.Failure.{invalid_component}
use pishoo.Values.{Values, get, at}
use pishoo.Package.Metadata.{text}
use pishoo.Package.Declarations.{
  is_among, same_pair, same_pairs, Operations, Groups, has_foreign, one_of, read_paths,
  read_declared, validate_declarations,
}
use pishoo.Package.Declarations.Grouping.{operation_of, AreDistinct, read_declared-IsGrouping}
use pishoo.Package.Declarations.Ids.{operations_of, AreIds, read_paths-distinct, read_paths-AreIds}
use pishoo.Package.Declarations.Declared.{IsRow, IsDeclaredIn, read_declared-exact}
use pishoo.Package.Declarations.Annotated.{IsAnnotatedIn, one_of-placed, read_paths-AreAdded}

same_pair-eq : (p q : Text × Text) → same_pair p q ≡ true → p ≡ q
same_pair-eq (a, b) (c, d) h =
    let (first, second) = and-parts (text_eq a c) (text_eq b d) h in
    ap (λ t. (t, b)) (eq_of_text_eq a c first) ∙ ap (λ t. (c, t)) (eq_of_text_eq b d second)

same_pair-In : (p : Text × Text) (ps : List (Text × Text)) → any (same_pair p) ps ≡ true → In p ps
same_pair-In p ps h =
    let (q, m, e) = any-In (same_pair p) ps h in subst (λ r. In r ps) (sym (same_pair-eq p q e)) m

among_second :
    (name id : Text) (ps : List (Text × Text))
    → In (name, id) ps
    → is_among id (map operation_of ps) ≡ true
unfolding is_among
among_second name id [] m = elim m [ ]
among_second name id (p ∷ ps) (here e) =
    let one : p.1 ≡ id = ap (λ r. r.1) e in
    let self = text_eq_refl id in
    subst (λ t. (text_eq id t || any (text_eq id) (map operation_of ps)) ≡ true) (sym one)
      (ground arith)
among_second name id (p ∷ ps) (there m) = ground (arith, among_second name id ps m)

first_same :
    (g h id : Text) (ps : List (Text × Text))
    → AreDistinct (map operation_of ps)
    → In (g, id) ps
    → In (h, id) ps
    → g ≡ h
first_same g h id [] fine m n = elim m [ ]
first_same g h id (p ∷ ps) (fresh, fine) (here d) (here e) = ap (λ r. r.0) (sym d ∙ e)
first_same g h id (p ∷ ps) (fresh, fine) (here d) (there n) =
    let again = subst (λ t. is_among t (map operation_of ps) ≡ false) (ap (λ r. r.1) d) fresh in
    ground (arith, again, among_second h id ps n)
first_same g h id (p ∷ ps) (fresh, fine) (there m) (here e) =
    let again = subst (λ t. is_among t (map operation_of ps) ≡ false) (ap (λ r. r.1) e) fresh in
    ground (arith, again, among_second g id ps m)
first_same g h id (p ∷ ps) (fresh, fine) (there m) (there n) = first_same g h id ps fine m n

module _ {Value : Type 0} (V : Values Value) where
  -- A table of the document, in one of the two places for it, has the operation in the group.
  abbrev pub IsInGroup : Value → Text × Text → Type 0
  IsInGroup document p =
      (table : Value) × ((get V (chars "x-access-groups") document ≡ some table)
        ⊎ (get V (chars "access-groups") (at V (chars "x-pishoo") document) ≡ some table))
      × ((rows : List (Text × Value)) × (V.as_object table ≡ some rows) × IsRow V rows p)

  module _ (parse_grantee parse_effect : Text → Bool) where
    -- What the groups of a document and its operations say of each other.
    pub record IsDeclared (document : Value) : Type 0 where
      pub paths : List (Text × Value)
      pub ids : List Text
      pub has_paths : V.as_object (at V (chars "paths") document) ≡ some paths
      pub listed : AreIds V (operations_of V [] paths) ids
      pub unique : AreDistinct ids
      pub says : (p : Text × Text) → IsInGroup document p → IsAnnotatedIn V paths p
      pub in_group : (p : Text × Text) → IsAnnotatedIn V paths p → IsInGroup document p
      pub one_group :
          (g h id : Text) → IsInGroup document (g, id) → IsInGroup document (h, id) → g ≡ h

    agree :
        (document : Value) (paths : List (Text × Value)) (operations : Operations) (groups : Groups)
        (declaration : Option Value)
        → one_of V "duplicate access-groups declarations"
            (get V (chars "x-access-groups") document)
            (get V (chars "access-groups") (at V (chars "x-pishoo") document))
          ≡ ok declaration
        → V.as_object (at V (chars "paths") document) ≡ some paths
        → read_paths V parse_grantee parse_effect (record { ids = []; annotated = [] }) paths
          ≡ ok operations
        → read_declared V operations.ids declaration ≡ ok groups
        → same_pairs groups.declared operations.annotated ≡ true
        → IsDeclared document
    unfolding same_pairs
    agree document paths operations groups declaration placed has_paths reads declares same =
        let (forth, back) =
          and-parts (all (λ p. any (same_pair p) operations.annotated) groups.declared)
            (all (λ q. any (same_pair q) groups.declared) operations.annotated) same in
        let (found, kept, added) =
          read_paths-AreAdded V parse_grantee parse_effect (record { ids = []; annotated = [] })
            paths reads in
        let (sound, complete) = read_declared-exact V operations.ids declaration declares in
        let grouping = read_declared-IsGrouping V operations.ids declaration declares in
        let table = λ (value : Value).
          one_of-placed V "duplicate access-groups declarations"
            (get V (chars "x-access-groups") document)
            (get V (chars "access-groups") (at V (chars "x-pishoo") document)) value placed in
        let into : (p : Text × Text) → IsInGroup document p → In p groups.declared =
          λ p (value, at_place, (rows, are_rows, row)).
            complete p (value, (table value).1 at_place, rows, are_rows, row) in
        record {
          paths = paths;
          ids = operations.ids;
          has_paths = has_paths;
          listed =
              read_paths-AreIds V parse_grantee parse_effect []
                (record { ids = []; annotated = [] }) paths refl reads;
          unique =
              read_paths-distinct V parse_grantee parse_effect (record { ids = []; annotated = [] })
                paths tt reads;
          says = λ p m.
              let there_is = same_pair-In p operations.annotated (
                All-In (λ q. any (same_pair q) operations.annotated ≡ true) groups.declared
                  (all→All (λ q. any (same_pair q) operations.annotated) groups.declared forth)
                  (into p m)) in
              elim (found p there_is) [ inl nothing ↦ elim nothing [ ] | inr said ↦ said ];
          in_group = λ p said.
              let there_is = same_pair-In p groups.declared (
                All-In (λ q. any (same_pair q) groups.declared ≡ true) operations.annotated
                  (all→All (λ q. any (same_pair q) groups.declared) operations.annotated back)
                  (added p said)) in
              let (value, is_one, rows, are_rows, row) =
                All-In (IsDeclaredIn V declaration) groups.declared sound there_is in
              (value, (table value).0 is_one, (rows, are_rows, row));
          one_group = λ g h id m n.
              first_same g h id groups.declared
                (subst AreDistinct (sym grouping.members) grouping.distinct) (into (g, id) m)
                (into (h, id) n);
        }

    -- A document is accepted only if all its operations have ids, which differ from each other, an
    -- operation is listed in a group of the document exactly if an operation with that id says that it
    -- is in this group, and no id is listed in two groups.
    pub validate_declarations-IsDeclared :
        (document : Value)
        → validate_declarations V parse_grantee parse_effect document ≡ ok tt
        → IsDeclared document
    unfolding validate_declarations
    validate_declarations-IsDeclared document h =
        elim (bind-ok (text V (at V (chars "info") document) (chars "title")) _ h) [
          | passed title e1 h1 ↦
              let extension = at V (chars "x-pishoo") document in
              let (plain, h2) =
                refuse_if-ok (is_some (get V (chars "templates") extension))
                  (invalid_component "external templates are not part of store v1") _ h1 in
              let (own, h3) =
                refuse_if-ok (has_foreign V (chars "access-groups" ∷ []) extension)
                  (invalid_component "OpenAPI cannot declare package metadata") _ h2 in
              elim (bind-ok
                (one_of V "duplicate access-groups declarations"
                  (get V (chars "x-access-groups") document)
                  (get V (chars "access-groups") extension))
                _ h3) [
                  | passed groups e4 h4 ↦
                      elim (bind-ok
                        (ok_or (V.as_object (at V (chars "paths") document))
                          (invalid_component "paths must be an object"))
                        _ h4) [
                          | passed paths e5 h5 ↦
                              elim (bind-ok
                                (read_paths V parse_grantee parse_effect
                                  (record { ids = []; annotated = [] }) paths)
                                _ h5) [
                                  | passed operations e6 h6 ↦
                                      elim (bind-ok (read_declared V operations.ids groups) _ h6) [
                                        | passed declared e7 h7 ↦
                                            agree document paths operations declared groups e4
                                              (ok_or-ok _ _ e5) e6 e7 (ground arith)
                                      ]
                                ]
                        ]
                ]
        ]
