-- ===== src/Frontend.antt =====
-- src/sandbox.rs, `app_response`: the answer for a page or asset of an installed App. The decoder
-- of percent escapes and the directory of the App (`app_file`) are parameters.
pub mod Files
mod Tests
use pishoo.Base.{
  ℕ, String, Bool, true, false, not, ◌&&◌, ◌||◌, Option, none, some, List, [], ◌∷◌, ◌++◌, Text,
  chars, text_eq, starts_with, trim_start, trim_end, split, last_part, contains_char, any,
  is_control, is_nil, is_some, if◌then◌else◌, Result, ok, err, ◌>>=◌, ok_or, ◌==◌,
}
use pishoo.Failure.{Error, Fallible, route_not_found}
use pishoo.Package.Names.{dot_part}
use pishoo.Access.{is_read}

pub record AppRequest : Type 0 where
  pub method : Text
  pub path : Text
  pub query : Option Text
  -- The value of the header `sec-fetch-dest`, if it is text.
  pub fetch_dest : Option Text

-- The response. Content is the name of the file, the open file and whether the body is left out.
pub data AppResponse (File : Type 0) : Type 0 where
  method_not_allowed : AppResponse File
  redirect : Text → AppResponse File
  content : Text → File → Bool → AppResponse File

unfoldable pub redirect_target : Text → Option Text → Text
redirect_target path none = path ++ chars "/"
redirect_target path (some q) = path ++ (chars "/?" ++ q)

abbrev pub escape_char : ℕ → Bool
escape_char c = c == 0x5c || c == 0 || c == b'%'

unfoldable pub unsafe_suffix : Text → Bool
unsafe_suffix suffix =
    any escape_char suffix || any dot_part (split b'/' suffix) || any is_control suffix

abbrev pub slash : ℕ → Bool
slash c = c == b'/'

unfoldable pub file_name : Text → Text
unfolding text_eq trim_start
file_name suffix =
    if text_eq suffix (chars "/") then chars "index.html" else trim_start slash suffix

abbrev pub is_page_dest : Text → Bool
is_page_dest v =
    text_eq v (chars "document") || text_eq v (chars "iframe") || text_eq v (chars "empty")

-- A missing file that no page may stand in for.
unfoldable pub is_asset : Text → Option Text → Bool
unfolding starts_with text_eq contains_char last_part trim_end
is_asset suffix dest =
    starts_with (chars "/assets/") suffix
    || starts_with (chars "/static/") suffix
    || text_eq suffix (chars "/assets")
    || text_eq suffix (chars "/static")
    || contains_char b'.' (last_part b'/' (trim_end slash suffix))
    || elim dest [ none ↦ false | some v ↦ not (is_page_dest v) ]

module _ {File : Type 0} (decode : Text → Option Text) (open_file : Text → Fallible File) where
  unfoldable pub open_or_index : Text → Option Text → Fallible (Text × File)
  open_or_index suffix dest = elim (open_file (file_name suffix)) [
    | ok file ↦ ok (file_name suffix, file)
    | err e ↦
        if is_asset suffix dest
        then err route_not_found
        else open_file (chars "index.html") >>= λ file. ok (chars "index.html", file)
  ]

  unfoldable pub app_content : Text → AppRequest → Fallible (AppResponse File)
  app_content suffix request =
      if unsafe_suffix suffix
      then err route_not_found
      else open_or_index suffix request.fetch_dest >>= λ opened.
          ok (content opened.0 opened.1 (text_eq request.method (chars "HEAD")))

  unfoldable pub app_response : Text → AppRequest → Fallible (AppResponse File)
  app_response suffix request =
      if not (is_read request.method)
      then ok method_not_allowed
      else if is_nil suffix
      then ok (redirect (redirect_target request.path request.query))
      else elim (decode suffix) [
        | none ↦ err route_not_found
        | some decoded ↦ app_content decoded request
      ]
