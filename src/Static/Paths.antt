-- ===== src/Static/Paths.antt =====
-- src/routes.rs, `static_file`: the paths that a request can open.
use pishoo.Base.{
  true, false, Option, some, ◌++◌, Text, chars, strip_prefix, strip_prefix_sound, trim_start, split,
  any, any-false, All, is_nil, ok, ◌≡◌, sym, ap, ◌∙◌, or-false, arith, not, bind-ok, passed,
  refuse_if-ok, ok_or, ok_or-ok,
}
use pishoo.Failure.{bad_request, route_not_found, method_not_allowed}
use pishoo.Package.Names.{dot_part}
use pishoo.Access.{is_read}
use pishoo.Frontend.{slash}
use pishoo.Static.{escaped, outside, resolve, Directory, open_path, static_file}

-- A path without backslashes, NULs and dot parts.
abbrev pub IsInside : Text → Type 0
IsInside path = All (λ c. escaped c ≡ false) path × All (λ w. dot_part w ≡ false) (split b'/' path)

outside-IsInside : (path : Text) → outside path ≡ false → IsInside path
unfolding outside
outside-IsInside path h =
    let parts = or-false (any escaped path) (any dot_part (split b'/' path)) h in
    (any-false escaped path parts.0, any-false dot_part (split b'/' path) parts.1)

module _ {File : Type 0} (decode : Text → Option Text) (dir : Directory File) where
  -- The file of the path, or of the index of the directory there, which is a regular file.
  abbrev pub IsOpened : Text → Text → File → Type 0
  IsOpened path name file =
      (name ≡ resolve dir.is_dir path)
      × (dir.open_file name ≡ some file)
      × (dir.is_file file ≡ ok true)

  open_path-IsOpened :
      (path : Text) {name : Text} {file : File}
      → open_path decode dir path ≡ ok (name, file)
      → IsOpened path name file
  unfolding open_path
  open_path-IsOpened path {name} {file} h =
      let (opens, h1) = refuse_if-ok (not dir.opens) route_not_found _ h in
      elim (bind-ok (ok_or (dir.open_file (resolve dir.is_dir path)) route_not_found) _ h1) [
        | passed opened e2 h2 ↦ elim (bind-ok (dir.is_file opened) _ h2) [
          | passed regular e3 h3 ↦
              let (fine, h4) = refuse_if-ok (not regular) route_not_found _ h3 in
              let names : resolve dir.is_dir path ≡ name = ground arith in
              let files : opened ≡ file = ground arith in
              let is_regular : regular ≡ true = ground arith in
              (
                sym names,
                ap dir.open_file (sym names) ∙ ok_or-ok _ _ e2 ∙ ap some files,
                ap dir.is_file (sym files) ∙ e3 ∙ ap ok is_regular,
              )
        ]
      ]

  -- A file is served only for GET and HEAD of a path under /std/file/ whose rest decodes to a path
  -- without backslashes, NULs and dot parts. It is the regular file of that path without leading
  -- slashes, or the index of the directory there.
  pub static_file-IsInside :
      (method path : Text) {name : Text} {file : File}
      → static_file decode dir method path ≡ ok (name, file)
      → (is_read method ≡ true)
        × ((rest : Text) × (decoded : Text) × (path ≡ chars "/std/file/" ++ rest)
            × (decode rest ≡ some decoded)
            × IsInside decoded
            × IsOpened (trim_start slash decoded) name file)
  unfolding static_file
  static_file-IsInside method path {name} {file} h =
      let (reads, h1) = refuse_if-ok (not (is_read method)) method_not_allowed _ h in
      elim (bind-ok (ok_or (strip_prefix (chars "/std/file/") path) route_not_found) _ h1) [
        | passed rest e2 h2 ↦
            let (longer, h3) = refuse_if-ok (is_nil rest) route_not_found _ h2 in
            elim (bind-ok (ok_or (decode rest) (bad_request "invalid path encoding")) _ h3) [
              | passed decoded e4 h4 ↦
                  let (stays, h5) = refuse_if-ok (outside decoded) route_not_found _ h4 in
                  (
                    ground arith,
                    (
                      rest,
                      decoded,
                      strip_prefix_sound (chars "/std/file/") path rest (ok_or-ok _ _ e2),
                      ok_or-ok _ _ e4,
                      outside-IsInside decoded stays,
                      open_path-IsOpened (trim_start slash decoded) h5,
                    ),
                  )
            ]
      ]
