-- ===== src/Management/Removal.antt =====
-- src/package.rs, the removal of a package at the end of `pkg_management_request`. Opening the
-- configuration and `remove_package`, which deletes the files and the row, are parameters.
use pishoo.Base.{
  Bool, false, not, Option, none, some, List, Text, text_eq, filter, In, last_part, ok, ◌>>=◌, ◌>>◌,
  refuse_if, ◌≡◌, ◌≢◌,
}
use pishoo.Failure.{Fallible, invalid_config, io_invalid_input, denied}
use pishoo.Package.Names.{valid_id}
use pishoo.Setup.Requests.{value_at}

-- The names and ids of the view `package`, and the ids of what the sandbox has loaded.
pub record Installed : Type 0 where
  pub packages : List (Text × Text)
  pub apps : List Text
  pub libs : List Text
  pub is_closed : Bool

abbrev pub other_id : Text → Text → Bool
other_id id x = not (text_eq x id)

unfoldable pub without_id : Text → List Text → List Text
without_id id ids = filter (other_id id) ids

abbrev pub is_id : Option Text → Text → Bool
is_id none expected = false
is_id (some id) expected = text_eq id expected

unfoldable pub unexpected : Option Text → Option Text → Bool
unexpected none registered = false
unexpected (some expected) registered = not (is_id registered expected)

module _ (normalize_name : Text → Option Text) (opening : Fallible (Unit {0}))
    (remove_package : Text → List (Text × Text) → Fallible (List (Text × Text))) where
  unfoldable pub remove_registered : Text → Text → Installed → Fallible Installed
  unfolding valid_id without_id
  remove_registered name id state =
      valid_id normalize_name id
      >> refuse_if (not (text_eq (last_part b'/' id) name))
          (invalid_config "invalid installed package name")
      >> remove_package id state.packages
      >>= λ packages. ok (record {
        packages = packages;
        apps = without_id id state.apps;
        libs = without_id id state.libs;
        is_closed = state.is_closed;
      })

  unfoldable pub remove_named : Text → Option Text → Installed → Fallible Installed
  unfolding value_at unexpected remove_registered
  remove_named name expected state =
      let registered = value_at name state.packages in
      opening
      >> refuse_if (unexpected expected registered) io_invalid_input
      >> refuse_if state.is_closed denied
      >> elim registered [ none ↦ ok state | some id ↦ remove_registered name id state ]

-- The second list has the members of the first but this one.
abbrev pub IsWithout : Text → List Text → List Text → Type 0
IsWithout id before after =
    (In id after → ⊥)
    × ((x : Text) → In x after → In x before)
    × ((x : Text) → In x before → x ≢ id → In x after)

-- An id that is expected is the one that is registered.
abbrev pub IsExpected : Option Text → Option Text → Type 0
IsExpected expected registered = (id : Text) → expected ≡ some id → registered ≡ some id

module _ (normalize_name : Text → Option Text) (opening : Fallible (Unit {0}))
    (remove_package : Text → List (Text × Text) → Fallible (List (Text × Text))) where
  -- The sandbox has lost the package and nothing else, and the storage has given up its row.
  abbrev pub IsRemoved : Text → Installed → Installed → Type 0
  IsRemoved id state left =
      IsWithout id state.apps left.apps
      × IsWithout id state.libs left.libs
      × (left.is_closed ≡ state.is_closed)
      × (remove_package id state.packages ≡ ok left.packages)
