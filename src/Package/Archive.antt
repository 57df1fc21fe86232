-- ===== src/Package/Archive.antt =====
-- src/package/format.rs, `waz_read`: what the crate `zip` says of an archive (its entries and their
-- offsets) and the decoder of UTF-8 are parameters; every check of them is the program's. `usize`
-- has 64 bits. A `BTreeMap` is an association list in the order of its keys.
pub mod Checks
mod Spans
mod Steps
pub mod Tiling
pub mod Contents
mod Tests
use Prim.Native.Nat.{bit_and}
use pishoo.Base.{
  ℕ, suc, ◌+◌, ◌-◌, ◌≡◌, String, Bool, true, false, not, ◌&&◌, ◌||◌, Option, none, some, List, [],
  ◌∷◌, ◌++◌, Text, chars, text_eq, length, any, ltb, leb, ◌==◌, is_none, is_some, if◌then◌else◌,
  Result, ok, err, ◌>>=◌, ◌>>◌, refuse_if, ok_or, filter,
}
use pishoo.Package.Archive.Checks.{
  take, drop, Bytes, Entry, Archive, Span, u16_at, u32_at, range, usize_add, map_insert, has_span,
  check_header, check_central, check_local, entry_limit, waz_limit, is_refused,
}

-- The map of the files that are read, the last one first: nothing depends on its order.
abbrev pub Files : Type 0
Files = List (Text × Bytes)

unfoldable pub contains_file : Text → Files → Bool
contains_file name files = any (λ f. text_eq f.0 name) files

pub record Progress : Type 0 where
  pub files : Files
  pub spans : List Span
  pub central_spans : List Span
  pub remaining : ℕ

abbrev pub start_progress : Progress
start_progress = record { files = []; spans = []; central_spans = []; remaining = waz_limit }

-- `rsplit_once('/')` again and again: the directories above a file, the nearest first.
unfoldable pub parents_from : Text → Text → List Text
parents_from before [] = []
parents_from before (c ∷ s) =
    let rest = parents_from (before ++ (c ∷ [])) s in
    if c == b'/' then rest ++ (before ∷ []) else rest

unfoldable pub parents : Text → List Text
unfolding parents_from
parents name = parents_from [] name

-- `HashSet::insert`
unfoldable pub add_directory : Text → List Text → List Text
unfolding text_eq
add_directory d ds = if any (λ x. text_eq x d) ds then ds else d ∷ ds

module _ (files : Files) where
  unfoldable pub check_parents : List Text → List Text → Result String (List Text)
  unfolding contains_file add_directory
  check_parents directories [] = ok directories
  check_parents directories (p ∷ ps) = do
    refuse_if (contains_file p files) "ZIP file conflicts with a directory"
    let seen = add_directory p directories
    refuse_if (ltb 10000 (length seen + length files))
        "ZIP expanded directory entry budget exceeded"
    check_parents seen ps

  -- The budget does not depend on the order of the files.
  unfoldable pub check_directories : List Text → Files → Result String (List Text)
  unfolding check_parents parents
  check_directories directories [] = ok directories
  check_directories directories (f ∷ fs) = do
    seen ← check_parents directories (parents f.0)
    check_directories seen fs

-- `for (start, stop) in spans`
unfoldable pub tile : String → ℕ → List Span → Result String ℕ
tile message cursor [] = ok cursor
tile message cursor (s ∷ spans) =
    let rest = tile message s.stop spans in if s.start == cursor then rest else err message

-- The end of a round: the content, its size and the new maps.
unfoldable pub store_entry : Progress → Entry → Text → Span → Span → Result String Progress
store_entry p e name central local = do
  stream ← ok_or e.content "ZIP entry cannot be decompressed"
  let content = take (e.size + 1) stream
  refuse_if (not (length content == e.size)) "ZIP decompressed size disagrees with header"
  ok (record {
    files = (name, content) ∷ p.files;
    spans = map_insert local p.spans;
    central_spans = map_insert central p.central_spans;
    remaining = p.remaining - length content;
  })

module _ (bytes : Bytes) (directory_start end : ℕ) where
  -- The middle of a round: the headers.
  unfoldable pub place_entry : Progress → Entry → Text → Result String Progress
  place_entry p e name = do
    stop ← ok_or (usize_add e.data_start e.compressed_size) "ZIP span overflow"
    header ← check_header bytes e
    central ← check_central bytes directory_start end (u16_at header 6) p.central_spans e
    local ← check_local bytes directory_start p.spans header (u16_at header 6) stop e
    store_entry p e name central local

module _ (from_utf8 : Bytes → Option Text) (bytes : Bytes) (directory_start end : ℕ) where
  unfoldable pub read_entry : Progress → Entry → Result String Progress
  read_entry p e = do
    name ← ok_or (from_utf8 e.name_raw) "invalid utf-8"
    refuse_if (is_refused name e || contains_file name p.files)
        "invalid, duplicate or unsupported ZIP entry"
    refuse_if (ltb (entry_limit name p.remaining) e.size)
        "ZIP entry exceeds its decompressed size limit"
    place_entry bytes directory_start end p e name

  unfoldable pub read_entries : Progress → List (Option Entry) → Result String Progress
  read_entries p [] = ok p
  read_entries p (item ∷ items) = do
    e ← ok_or item "ZIP entry cannot be read"
    p' ← read_entry p e
    read_entries p' items

  -- From the first entry to the result.
  unfoldable pub read_contents : List (Option Entry) → Result String Files
  read_contents entries = do
    p ← read_entries start_progress entries
    data_end ← tile "overlapping or unindexed ZIP data" 0 p.spans
    refuse_if (not (data_end == directory_start)) "unindexed ZIP data before directory"
    directory_end ← tile "overlapping or unindexed ZIP directory" directory_start p.central_spans
    refuse_if (not (directory_end == end)) "unindexed ZIP directory data"
    seen ← check_directories p.files [] p.files
    refuse_if (not (contains_file (chars "manifest.json") p.files))
        "ZIP package requires manifest.json"
    ok p.files

unfoldable pub is_zip : Bytes → Bool
unfolding text_eq take
is_zip bytes = text_eq (take 4 bytes) (0x50 ∷ 0x4b ∷ 0x03 ∷ 0x04 ∷ [])

-- The end record, the last 22 bytes.
unfoldable pub end_refused : Bytes → ℕ → Bool
unfolding u16_at u32_at usize_add text_eq take
end_refused eocd end =
    let count = u16_at eocd 10 in
    let directory_end = usize_add (u32_at eocd 16) (u32_at eocd 12) in
    not (text_eq (take 4 eocd) (0x50 ∷ 0x4b ∷ 0x05 ∷ 0x06 ∷ []))
    || not (u16_at eocd 4 == 0)
    || not (u16_at eocd 6 == 0)
    || not (u16_at eocd 20 == 0)
    || not (u16_at eocd 8 == count)
    || count == 0
    || ltb 4096 count
    || not (elim directory_end [ none ↦ false | some d ↦ d == end ])

unfoldable pub waz_read :
    (Bytes → Option Text) → (Bytes → Option Archive) → Bytes → Result String Files
waz_read from_utf8 open_zip bytes = do
  refuse_if (ltb waz_limit (length bytes) || not (is_zip bytes) || ltb (length bytes) 22)
      "expected a bounded standard ZIP package"
  let end = length bytes - 22
  let eocd = drop end bytes
  refuse_if (end_refused eocd end) "invalid ZIP end record or entry budget"
  archive ← ok_or (open_zip bytes) "ZIP archive cannot be opened"
  refuse_if (not (length archive.entries == u16_at eocd 10) || not (archive.offset == 0))
      "ZIP central directory disagrees with archive"
  read_contents from_utf8 bytes (u32_at eocd 16) end archive.entries
