-- ===== src/Package/Store.antt =====
-- src/package/store.rs: packages of the store, with the packages that they depend on.
pub mod Order
pub mod Progress
pub mod Collect
pub mod Closure
pub mod Rounds
pub mod Transfer
pub mod Release
pub mod Published
pub mod Install
mod Tests
use pishoo.Base.{ℕ, Option, List, ◌∷◌, ◌++◌, Text, chars}

pub record Dependency : Type 0 where
  pub publisher : Text
  pub name : Text
  pub version : Text

pub record Resource (Proof : Type 0) : Type 0 where
  pub id : Text
  pub bytes : List ℕ
  pub proof : Proof

-- `format!("{}/{}", publisher, name)`
abbrev pub full_id : Text → Text → Text
full_id publisher name = publisher ++ (chars "/" ++ name)

abbrev pub dependency_id : Dependency → Text
dependency_id d = full_id d.publisher d.name

-- The metadata of a release, with that of the release installed before it in
-- `_previous_release`.
pub record Proof (Value : Type 0) : Type 0 where
  pub metadata : Value
  pub previous : Option Value

-- The store, in a build that pins no other.
abbrev pub store_name : Text
store_name = chars "store.dhttp.net"

abbrev pub store_owner : Text
store_owner = chars "ffc3e50e1dfb7baca1cc07a7cbfcf8cb34a9bf5a9c25024fcf9a9786bb230746"
