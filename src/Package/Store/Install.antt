-- ===== src/Package/Store/Install.antt =====
-- src/package/store.rs, `install_store_package`: the packages that are handed to the installation.
use mathlib.Core.List.{Perm}
use pishoo.Base.{
  ℕ, ◌≤◌, Bool, true, false, Option, none, some, List, [], ◌∷◌, Text, chars, here, length, ok, err,
  ◌>>=◌, ◌>>◌, refuse_if, ok_or, bind-ok, passed, refuse_if-ok, ◌≡◌, refl, ap, ◌∙◌, subst, inr,
  arith,
}
use pishoo.Failure.{Fallible, bad_request, denied, deadline}
use pishoo.Values.{ℤ, at, is_text}
use pishoo.Package.Names.{valid_id}
use pishoo.Package.Archive.Checks.{Bytes}
use pishoo.Package.Archive.{Files}
use pishoo.Package.Metadata.Dependencies.{IsMetadata}
use pishoo.Package.Metadata.Sound.{package_metadata-IsMetadata}
use pishoo.Package.Reader.{Crates, metadata_of, read_package_at}
use pishoo.Package.Store.{Dependency, Resource, Proof, full_id}
use pishoo.Package.Store.Order.{IsTopological, order_packages, order_packages-IsTopological}
use pishoo.Package.Store.Collect.{InstalledEntry, collect}
use pishoo.Package.Store.Rounds.{IsClosed, collect-IsClosed, collect-total}
use pishoo.Package.Store.Transfer.{Response}
use pishoo.Package.Store.Release.{upgrade_required, field, download_release}
use pishoo.Package.Store.Published.{IsRelease, download_release-IsRelease}

module _ {Value : Type 0} (C : Crates Value) (now : ℤ) (answer : Text → Option Response) where
  abbrev pub download : Dependency → Fallible (Bytes × Value)
  download d = download_release C now answer d

  unfoldable pub read_resource : Resource (Proof Value) → Fallible Files
  unfolding at read_package_at
  read_resource r =
      ok_or (C.values.as_i64 (field C now "verified_at" (field C now "signature" r.proof.metadata)))
        upgrade_required
      >>= λ seconds. read_package_at C r.bytes seconds

  -- The dependencies of a package, at the time of its publication.
  unfoldable pub dependencies_of : Resource (Proof Value) → Fallible (List Dependency)
  unfolding read_resource metadata_of
  dependencies_of r = read_resource r >>= λ files. metadata_of C files >>= λ m. ok m.dependencies

  -- The rounds of the loop: at most 100 packages with at most 100 dependencies each, and the first.
  abbrev pub rounds : ℕ
  rounds = 10001

  unfoldable pub collect_packages :
      List InstalledEntry → Dependency → Fallible (List (Resource (Proof Value)))
  unfolding collect download_release dependencies_of
  collect_packages installed d =
      elim (collect C.values download dependencies_of rounds installed (d ∷ []) []) [
        | none ↦ err deadline
        | some outcome ↦ outcome
      ]

  abbrev pub last_of : List (Resource (Proof Value)) → Option (Resource (Proof Value))
  last_of [] = none
  last_of (r ∷ []) = some r
  last_of (r ∷ s ∷ rs) = last_of (s ∷ rs)

  -- The packages in the order in which they are installed. `closed` is that the sandbox has stopped.
  unfoldable pub install_store_package :
      List InstalledEntry → Bool → Dependency → Fallible (List (Resource (Proof Value)))
  unfolding valid_id collect_packages order_packages read_resource
  install_store_package installed closed d =
      valid_id C.pki.normalize_name (full_id d.publisher d.name)
      >> collect_packages installed d
      >>= λ resources. order_packages dependencies_of resources >>= λ ordered.
          refuse_if closed denied >> ok_or (last_of ordered) (bad_request "unreachable") >>= λ last.
          read_resource last >>= λ files. ok ordered

  dependencies_of-few :
      (r : Resource (Proof Value)) (ds : List Dependency)
      → dependencies_of r ≡ ok ds
      → length ds ≤ 100
  unfolding dependencies_of metadata_of
  dependencies_of-few r ds h = elim (bind-ok (read_resource r) _ h) [
    | passed files e1 h1 ↦ elim (bind-ok (metadata_of C files) _ h1) [
      | passed m e2 h2 ↦
          let known : IsMetadata C.values C.pki.normalize_name C.parse C.parse_url files m =
            package_metadata-IsMetadata C.values C.pki.normalize_name C.parse C.parse_url files
              e2 in
          let same : m.dependencies ≡ ds = ground arith in
          subst (λ x. length x ≤ 100) same known.few
    ]
  ]

  download-IsVersioned :
      (e : Dependency) (bytes : Bytes) (metadata : Value)
      → download e ≡ ok (bytes, metadata)
      → is_text C.values e.version (at C.values (chars "version") metadata) ≡ true
  download-IsVersioned e bytes metadata h =
      let release : IsRelease C now e bytes metadata =
        download_release-IsRelease C now answer e h in
      release.proof_version

  -- Whatever the store answers, the loop ends within its rounds.
  pub collect-total_of_store :
      (installed : List InstalledEntry) (d : Dependency)
      → (outcome : Fallible (List (Resource (Proof Value)))) × (collect C.values download
            dependencies_of rounds installed
            (d ∷ [])
            []
          ≡ some outcome)
  collect-total_of_store installed d =
      collect-total C.values download dependencies_of installed rounds (d ∷ []) []
        download-IsVersioned dependencies_of-few (omega arith)

  collect_packages-IsClosed :
      (installed : List InstalledEntry) (d : Dependency) {resources : List (Resource (Proof Value))}
      → collect_packages installed d ≡ ok resources
      → IsClosed C.values download dependencies_of installed d resources
  unfolding collect_packages
  collect_packages-IsClosed installed d {resources} h =
      let (outcome, ends) = collect-total_of_store installed d in
      let good : outcome ≡ ok resources = ground arith in
      collect-IsClosed C.values download dependencies_of installed rounds d (d ∷ []) []
        download-IsVersioned
        (record { fresh = tt; few = omega arith; served = tt; wanted = inr (here refl) })
        (ends ∙ ap some good)

  -- What is handed to the installation: the package that was asked for, at the version that was asked
  -- for, and all that it and the others depend on, each once and behind its dependencies, while the
  -- sandbox is running.
  pub install_store_package-IsClosed :
      (installed : List InstalledEntry) (closed : Bool) (d : Dependency)
      {ordered : List (Resource (Proof Value))}
      → install_store_package installed closed d ≡ ok ordered
      → (resources : List (Resource (Proof Value))) × Perm resources ordered
        × IsTopological dependencies_of [] ordered
        × (closed ≡ false)
        × IsClosed C.values download dependencies_of installed d resources
  unfolding install_store_package
  install_store_package-IsClosed installed closed d {ordered} h =
      elim (bind-ok (valid_id C.pki.normalize_name (full_id d.publisher d.name)) _ h) [
        | passed u e1 h1 ↦ elim (bind-ok (collect_packages installed d) _ h1) [
          | passed resources e2 h2 ↦
              elim (bind-ok (order_packages dependencies_of resources) _ h2) [
                | passed found e3 h3 ↦
                    let (running, h4) = refuse_if-ok closed denied _ h3 in
                    elim (bind-ok (ok_or (last_of found) (bad_request "unreachable")) _ h4) [
                      | passed last e5 h5 ↦ elim (bind-ok (read_resource last) _ h5) [
                        | passed files e6 h6 ↦
                            let same : found ≡ ordered = ground arith in
                            let (perm, order) =
                              order_packages-IsTopological dependencies_of resources e3 in
                            (
                              resources,
                              subst (Perm resources) same perm,
                              subst (IsTopological dependencies_of []) same order,
                              running,
                              collect_packages-IsClosed installed d e2,
                            )
                      ]
                    ]
              ]
        ]
      ]
