-- ===== src/Static.antt =====
-- src/routes.rs, `static_file`: the files of an identity. The decoder of percent escapes and the
-- directory, which `cap_std` confines to its root, with the metadata of its files, are parameters.
pub mod Paths
mod Tests
use pishoo.Base.{
  ℕ, Bool, true, false, not, ◌&&◌, ◌||◌, Option, none, some, List, [], ◌∷◌, ◌++◌, Text, chars,
  text_eq, strip_prefix, ends_with, trim_start, split, any, is_nil, ◌==◌, if◌then◌else◌, Result, ok,
  err, ◌>>=◌, ◌>>◌, refuse_if, ok_or,
}
use pishoo.Failure.{Error, Fallible, bad_request, route_not_found, method_not_allowed}
use pishoo.Package.Names.{dot_part}
use pishoo.Access.{is_read}
use pishoo.Frontend.{slash}

abbrev pub escaped : ℕ → Bool
escaped c = c == 0x5c || c == 0

unfoldable pub outside : Text → Bool
outside path = any escaped path || any dot_part (split b'/' path)

-- `PathBuf::push("index.html")` on a relative path
unfoldable pub index_of : Text → Text
index_of path =
    if is_nil path || ends_with b'/' path
    then path ++ chars "index.html"
    else path ++ chars "/index.html"

-- A directory stands for its index.
unfoldable pub resolve : (Text → Bool) → Text → Text
unfolding index_of
resolve is_dir path = if is_nil path || is_dir path then index_of path else path

-- The root directory: whether it opens, and what it holds. The metadata of an open file may fail.
pub record Directory (File : Type 0) : Type 0 where
  pub opens : Bool
  pub is_dir : Text → Bool
  pub open_file : Text → Option File
  pub is_file : File → Fallible Bool

module _ {File : Type 0} (decode : Text → Option Text) (dir : Directory File) where
  -- The part that runs on a thread of its own.
  unfoldable pub open_path : Text → Fallible (Text × File)
  unfolding resolve
  open_path path =
      refuse_if (not dir.opens) route_not_found
      >> ok_or (dir.open_file (resolve dir.is_dir path)) route_not_found
      >>= λ file. dir.is_file file >>= λ regular.
          refuse_if (not regular) route_not_found >> ok (resolve dir.is_dir path, file)

  -- The path that is opened and its file.
  unfoldable pub static_file : Text → Text → Fallible (Text × File)
  unfolding open_path outside
  static_file method path =
      refuse_if (not (is_read method)) method_not_allowed
      >> ok_or (strip_prefix (chars "/std/file/") path) route_not_found
      >>= λ rest.
          refuse_if (is_nil rest) route_not_found
          >> ok_or (decode rest) (bad_request "invalid path encoding")
          >>= λ decoded.
              refuse_if (outside decoded) route_not_found >> open_path (trim_start slash decoded)
