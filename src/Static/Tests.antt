-- ===== src/Static/Tests.antt =====
-- The index of a directory.
use pishoo.Base.{
  ℕ, true, Option, some, ◌++◌, Text, chars, text_eq, strip_prefix, ends_with, trim_start, split, ok,
  ◌≡◌, refl,
}
use pishoo.Package.Names.{dot_part}
use pishoo.Access.{is_read}
use pishoo.Frontend.{slash}
use pishoo.Static.{Directory, outside, index_of, resolve, open_path, static_file}
use pishoo.Static.Paths.{IsInside, IsOpened, static_file-IsInside}

serving : Unit {0}
unfolding text_eq strip_prefix ends_with trim_start split dot_part is_read outside index_of resolve
    open_path static_file
serving = tt

abbrev keep : Text → Option Text
keep t = some t

abbrev docs : Directory ℕ
docs = record {
  opens = true;
  is_dir = λ path. text_eq path (chars "docs");
  open_file = λ path. some 9;
  is_file = λ file. ok true;
}

docs_index :
    static_file keep docs (chars "GET") (chars "/std/file/docs") ≡ ok (chars "docs/index.html", 9)
unfolding serving
docs_index = refl

static_file-IsInside_example :
    (is_read (chars "GET") ≡ true)
    × ((rest : Text) × (decoded : Text) × (chars "/std/file/docs" ≡ chars "/std/file/" ++ rest)
        × (keep rest ≡ some decoded)
        × IsInside decoded
        × IsOpened keep docs (trim_start slash decoded) (chars "docs/index.html") 9)
static_file-IsInside_example =
    static_file-IsInside keep docs (chars "GET") (chars "/std/file/docs") docs_index
