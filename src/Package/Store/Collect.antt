-- ===== src/Package/Store/Collect.antt =====
-- src/package/store.rs, the loop of `install_store_package`: the package that is asked for and all
-- that it depends on. The download of a release and the reader of its dependencies are parameters;
-- Release and Metadata are the repository's.
use pishoo.Base.{
  ℕ, zero, suc, Bool, not, ◌&&◌, Option, none, some, List, [], ◌∷◌, ◌++◌, Text, chars, text_eq,
  last_part, any, find, length, leb, if◌then◌else◌, ok, err, ◌>>=◌, ◌>>◌, refuse_if,
}
use pishoo.Failure.{
  Error, Fallible, bad_request, io_invalid_input, package_policy, signing_status_unavailable,
}
use pishoo.Values.{Values, at, is_text}
use pishoo.Package.Store.{Dependency, Resource, Proof, dependency_id}
use pishoo.Package.Store.Order.{has_id}

-- What the catalog holds of an installed package.
pub record InstalledEntry : Type 0 where
  pub id : Text
  pub name : Text
  pub version : Option Text
  pub has_owner_hash : Bool

abbrev pub Bytes : Type 0
Bytes = List ℕ

abbrev pub other_author : Text → InstalledEntry → Bool
other_author id e = not (text_eq e.id id)

abbrev pub is_entry : Text → InstalledEntry → Bool
is_entry id e = text_eq e.id id

-- `pending.push` for each dependency; the last one is popped first.
unfoldable pub push_all : List Dependency → List Dependency → List Dependency
push_all [] pending = pending
push_all (d ∷ ds) pending = push_all ds (d ∷ pending)

abbrev pub ownership_conflict : Error
ownership_conflict = package_policy "publisher_ownership_conflict" 409

module _ {Value : Type 0} (V : Values Value) (download : Dependency → Fallible (Bytes × Value))
    (dependencies : Resource (Proof Value) → Fallible (List Dependency)) where
  -- `proof["version"] == version`
  unfoldable pub has_version : Text → Resource (Proof Value) → Bool
  unfolding is_text at
  has_version version r = is_text V version (at V (chars "version") r.proof.metadata)

  abbrev pub conflicts_with : Text → Text → Resource (Proof Value) → Bool
  conflicts_with id name r = not (text_eq r.id id) && text_eq (last_part b'/' r.id) name

  -- The error of the download of the release that is installed.
  abbrev pub as_conflict : Fallible (Bytes × Value) → Fallible (Option Value)
  as_conflict (ok (bytes, previous)) = ok (some previous)
  as_conflict (err signing_status_unavailable) = err signing_status_unavailable
  as_conflict (err e) = err ownership_conflict

  -- The proof of the installed release, where its owner is not known yet.
  unfoldable pub previous_release : List InstalledEntry → Dependency → Fallible (Option Value)
  previous_release installed d = elim (find (is_entry (dependency_id d)) installed) [
    | none ↦ ok none
    | some current ↦ if current.has_owner_hash then ok none else elim current.version [
      | none ↦ err ownership_conflict
      | some version ↦ as_conflict (download (record d { version = version }))
    ]
  ]

  abbrev pub same_name : Text → InstalledEntry → Bool
  same_name name e = text_eq e.name name

  -- A package that is not among the resources yet.
  unfoldable pub fetch :
      List InstalledEntry
      → Dependency
      → List (Resource (Proof Value))
      → Fallible (Resource (Proof Value) × List Dependency)
  unfolding previous_release
  fetch installed d resources =
      let id = dependency_id d in
      refuse_if (leb 100 (length resources)) (bad_request "installation exceeds 100 packages")
      >> refuse_if (any (conflicts_with id d.name) resources) io_invalid_input
      >> refuse_if (any (λ e. same_name d.name e && other_author id e) installed) io_invalid_input
      >> download d
      >>= λ release. previous_release installed d >>= λ previous.
          dependencies (record {
            id = id;
            bytes = release.0;
            proof = record { metadata = release.1; previous = previous };
          })
          >>= λ ds. ok (
            record {
              id = id;
              bytes = release.0;
              proof = record { metadata = release.1; previous = previous };
            },
            ds,
          )

  -- One round: what is pending and the resources after it.
  unfoldable pub collect_one :
      List InstalledEntry
      → Dependency
      → List Dependency
      → List (Resource (Proof Value))
      → Fallible (List Dependency × List (Resource (Proof Value)))
  unfolding fetch has_version push_all
  collect_one installed d pending resources = elim (find (has_id (dependency_id d)) resources) [
    | some r ↦
        if not (has_version d.version r) then err io_invalid_input else ok (pending, resources)
    | none ↦ fetch installed d resources >>= λ found.
        ok (push_all found.1 pending, resources ++ found.0 ∷ [])
  ]

  -- The loop on fuel; none is that it ran out.
  unfoldable pub collect :
      ℕ
      → List InstalledEntry
      → List Dependency
      → List (Resource (Proof Value))
      → Option (Fallible (List (Resource (Proof Value))))
  unfolding collect_one
  collect fuel installed [] resources = some (ok resources)
  collect zero installed (d ∷ pending) resources = none
  collect (suc fuel) installed (d ∷ pending) resources =
      elim (collect_one installed d pending resources) [
        | err e ↦ some (err e)
        | ok (next, more) ↦ collect fuel installed next more
      ]
