-- ===== src/Package/Names.antt =====
-- Names, versions and archive paths: `release_version`, `valid_name` and `waz_path` of
-- src/package/format.rs, `valid_id` of src/package/files.rs and `is_standard_author` of
-- src/package.rs.
pub mod Laws
mod Tests
use pishoo.Base.{
  ℕ, ◌*◌, ◌+◌, ◌-◌, ◌^◌, Bool, true, false, not, ◌&&◌, ◌||◌, Option, none, some, List, [], ◌∷◌,
  Text, chars, text_eq, starts_with, split, split_once, contains_char, is_control, is_whitespace,
  is_ascii_lowercase, is_ascii_digit, len, length, any, all, ltb, leb, ◌==◌, is_nil, if◌then◌else◌,
  Result, ok, err,
}
use pishoo.Failure.{Error, Fallible, bad_request}

unfoldable pub is_standard_author : Text → Bool
unfolding text_eq
is_standard_author author =
    text_eq author (chars "std.dhttp.net") || text_eq author (chars "dev.genmeta.tech.dhttp.net")

-- `part.parse::<u64>()` of a text of ASCII digits
unfoldable pub number : ℕ → Text → ℕ
number acc [] = acc
number acc (c ∷ s) = number (acc * 10 + (c - b'0')) s

unfoldable pub leading_zero : Text → Bool
leading_zero [] = false
leading_zero (c ∷ s) = c == b'0'

unfoldable pub version_part : Text → Bool
unfolding number leading_zero len
version_part part =
    not (is_nil part)
    && all is_ascii_digit part
    && ltb (number 0 part) (2 ^ 64)
    && (len part == 1 || not (leading_zero part))

unfoldable pub release_version : Text → Bool
unfolding version_part split
release_version value = let parts = split b'.' value in length parts == 3 && all version_part parts

-- Of a byte of a name: `value.bytes()` of a text that is not ASCII has bytes above 127 and fails.
abbrev pub name_char : ℕ → Bool
name_char c = is_ascii_lowercase c || is_ascii_digit c || c == b'-'

unfoldable pub begins_lower : Text → Bool
begins_lower [] = false
begins_lower (c ∷ s) = is_ascii_lowercase c

unfoldable pub valid_name : Text → Bool
unfolding begins_lower len
valid_name value = leb (len value) 63 && begins_lower value && all name_char value

-- `normalize_name` is the crate `dhttp_home`'s.
unfoldable pub valid_id : (Text → Option Text) → Text → Fallible (Unit {0})
valid_id normalize_name id = elim (split_once b'/' id) [
  | none ↦ if valid_name id then ok tt else err (bad_request "invalid Lib id")
  | some (publisher, name) ↦ elim (normalize_name publisher) [
    | none ↦ err (bad_request "invalid Lib publisher")
    | some normal ↦
        if text_eq normal publisher
        then (if valid_name name then ok tt else err (bad_request "invalid Lib id"))
        else err (bad_request "invalid Lib publisher")
  ]
]

abbrev pub forbidden_char : ℕ → Bool
forbidden_char c = c == 0x5c || c == b':' || c == b'?' || c == b'#' || c == b'%'

unfoldable pub dot_part : Text → Bool
unfolding text_eq
dot_part part = text_eq part (chars ".") || text_eq part (chars "..")

unfoldable pub top_level : Text → Bool
unfolding text_eq
top_level path =
    text_eq path (chars "manifest.json")
    || text_eq path (chars "signature.json")
    || text_eq path (chars "backend.wasm")
    || text_eq path (chars "README.md")
    || text_eq path (chars "CHANGELOG.md")

unfoldable pub waz_path : Text → Bool
waz_path path =
    not (is_nil path)
    && leb (len path) 1024
    && not (any forbidden_char path)
    && not (any (λ c. is_control c || is_whitespace c) path)
    && leb (length (split b'/' path)) 33
    && all (λ part. not (is_nil part || dot_part part)) (split b'/' path)
    && (top_level path || starts_with (chars "public/") path)
