-- ===== src/Package/Metadata/Dependencies.antt =====
-- src/package/format.rs, `package_metadata`: the dependencies that a manifest lists.
use pishoo.Base.{
  ◌+◌, ◌≤◌, true, false, not, ◌&&◌, ◌||◌, Option, some, List, [], ◌∷◌, ◌++◌, Text, chars, text_eq,
  eq_of_text_eq, text_eq_refl, any, any-false, length, length-append, ◌≡◌, ◌≢◌, ap, ◌∙◌, subst, inl,
  inr, ok, bind-ok, passed, refuse_if-ok, All, Option-cases, Result-cases, arith,
}
use pishoo.Failure.{invalid_component}
use pishoo.Values.{Values}
use pishoo.Package.Names.{valid_id, release_version}
use pishoo.Package.Archive.Checks.{Bytes}
use pishoo.Package.Archive.{Files, contains_file}
use pishoo.Package.Store.{Dependency, full_id, dependency_id}
use pishoo.Package.Metadata.{
  Metadata, Url, in_public, text, contains_dependency, refused_dependency, is_normal, is_valid_id,
  read_dependency, read_dependencies,
}

-- No two dependencies are on the same package.
abbrev pub AreDistinct : List Dependency → Type 0
AreDistinct [] = Unit
AreDistinct (d ∷ ds) =
    All (λ other. text_eq (dependency_id d) (dependency_id other) ≡ false) ds × AreDistinct ds

module _ (P : Dependency → Type 0) where
  All-snoc : (ds : List Dependency) (d : Dependency) → All P ds → P d → All P (ds ++ d ∷ [])
  All-snoc [] d all last = (last, tt)
  All-snoc (x ∷ ds) d (first, all) last = (first, All-snoc ds d all last)

AreDistinct-snoc :
    (ds : List Dependency) (d : Dependency)
    → AreDistinct ds
    → All (λ other. text_eq (dependency_id other) (dependency_id d) ≡ false) ds
    → AreDistinct (ds ++ d ∷ [])
AreDistinct-snoc [] d distinct others = (tt, tt)
AreDistinct-snoc (x ∷ ds) d (first, distinct) (other, others) = (
  All-snoc (λ y. text_eq (dependency_id x) (dependency_id y) ≡ false) ds d first other,
  AreDistinct-snoc ds d distinct others,
)

different_of_text_eq : (a b : Text) → text_eq a b ≡ false → a ≢ b
different_of_text_eq a b h e =
    let same : text_eq a b ≡ true = subst (λ x. text_eq a x ≡ true) e (text_eq_refl a) in
    ground arith

contains_dependency-false :
    (id : Text) (ds : List Dependency)
    → contains_dependency id ds ≡ false
    → All (λ d. text_eq (dependency_id d) id ≡ false) ds
unfolding contains_dependency
contains_dependency-false id ds h = any-false (λ d. text_eq (dependency_id d) id) ds h

module _ {Value : Type 0} (V : Values Value) (normalize_name : Text → Option Text)
    (parse : Bytes → Option Value) (parse_url : Text → Option Url) where
  -- What is checked of each dependency of the package `id`.
  pub record IsAllowed (id : Text) (d : Dependency) : Type 0 where
    pub lawful : valid_id normalize_name (dependency_id d) ≡ ok tt
    pub normal : normalize_name d.publisher ≡ some d.publisher
    pub release : release_version d.version ≡ true
    pub not_self : dependency_id d ≢ id

  pub record IsMetadata (files : Files) (m : Metadata) : Type 0 where
    pub few : length m.dependencies ≤ 100
    pub lawful : valid_id normalize_name (full_id m.publisher m.name) ≡ ok tt
    pub release : release_version m.version ≡ true
    pub allowed : All (IsAllowed (full_id m.publisher m.name)) m.dependencies
    pub distinct : AreDistinct m.dependencies
    pub backend : m.has_lib ≡ contains_file (chars "backend.wasm") files
    pub frontend : m.has_app ≡ any in_public files
    pub index : (m.has_app && not (contains_file (chars "public/index.html") files)) ≡ false
    pub runs : (m.has_lib || m.has_app) ≡ true

  pub is_valid_id-ok :
      (id : Text)
      → is_valid_id V normalize_name parse parse_url id ≡ true
      → valid_id normalize_name id ≡ ok tt
  is_valid_id-ok id h = elim (Result-cases (valid_id normalize_name id)) [
    | inl (u, e) ↦ ground arith
    | inr (e, fails) ↦ ground arith
  ]

  is_normal-some :
      (author : Text)
      → is_normal V normalize_name parse parse_url author ≡ true
      → normalize_name author ≡ some author
  is_normal-some author h = elim (Option-cases (normalize_name author)) [
    | inl nothing ↦ ground arith
    | inr (n, e) ↦ e ∙ ap some (eq_of_text_eq n author (ground arith))
  ]

  dependency-IsAllowed :
      (id : Text) (before : List Dependency) (value : Value) (d : Dependency)
      → refused_dependency V normalize_name parse parse_url id before value d ≡ false
      → IsAllowed id d × (contains_dependency (dependency_id d) before ≡ false)
  unfolding refused_dependency
  dependency-IsAllowed id before value d h = (
    record {
      lawful = is_valid_id-ok (dependency_id d) (ground arith);
      normal = is_normal-some d.publisher (ground arith);
      release = ground arith;
      not_self = λ e. different_of_text_eq (dependency_id d) id (ground arith) e;
    },
    ground arith,
  )

  read_dependency-IsAllowed :
      (id : Text) (before : List Dependency) (value : Value) {d : Dependency}
      → read_dependency V normalize_name parse parse_url id before value ≡ ok d
      → IsAllowed id d × (contains_dependency (dependency_id d) before ≡ false)
  unfolding read_dependency
  read_dependency-IsAllowed id before value {d} h =
      elim (bind-ok (text V value (chars "author")) _ h) [
        | passed author e1 h1 ↦ elim (bind-ok (text V value (chars "name")) _ h1) [
          | passed name e2 h2 ↦ elim (bind-ok (text V value (chars "version")) _ h2) [
            | passed version e3 h3 ↦
                let found : Dependency = record {
                  publisher = author;
                  name = name;
                  version = version;
                } in
                let (fine, h4) =
                  refuse_if-ok
                    (refused_dependency V normalize_name parse parse_url id before value found)
                    (invalid_component "invalid, duplicate or self package dependency") _ h3 in
                let same : found ≡ d = ground arith in
                subst (λ x. IsAllowed id x × (contains_dependency (dependency_id x) before ≡ false))
                  same (dependency-IsAllowed id before value found fine)
          ]
        ]
      ]

  pub read_dependencies-All :
      (id : Text) (before : List Dependency) (values : List Value) {ds : List Dependency}
      → read_dependencies V normalize_name parse parse_url id before values ≡ ok ds
      → All (IsAllowed id) before
      → AreDistinct before
      → All (IsAllowed id) ds × AreDistinct ds × (length ds ≡ length before + length values)
  unfolding read_dependencies
  read_dependencies-All id before [] {ds} h allowed distinct =
      let same : before ≡ ds = ground arith in
      subst (λ x. All (IsAllowed id) x × AreDistinct x × (length x ≡ length before + 0)) same
        (allowed, distinct, omega arith)
  read_dependencies-All id before (value ∷ values) {ds} h allowed distinct =
      elim (bind-ok (read_dependency V normalize_name parse parse_url id before value) _ h) [
        | passed d e h1 ↦
            let (fine, fresh) = read_dependency-IsAllowed id before value e in
            let (a, b, c) =
              read_dependencies-All id (before ++ d ∷ []) values h1
                (All-snoc (IsAllowed id) before d allowed fine)
                (AreDistinct-snoc before d distinct
                  (contains_dependency-false (dependency_id d) before fresh)) in
            (a, b, c ∙ ap (λ n. n + length values) (length-append before (d ∷ [])) ∙ omega arith)
      ]
