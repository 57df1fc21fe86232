-- ===== src/Package/Archive/Tests.antt =====
-- An archive with one stored file, `manifest.json`, whose content is `{}`.
use pishoo.Base.{
  ◌+◌, ◌≤◌, ◌<◌, ◌≡◌, refl, false, Option, some, [], ◌∷◌, Text, chars, In, ok, arith, length, ◌-◌,
}
use pishoo.Package.Names.{waz_path}
use pishoo.Package.Archive.Checks.{
  Bytes, Entry, Archive, stored, drop, take, u16_at, u32_at, range, usize_add, map_insert, has_span,
  is_refused, entry_limit, bytes_eq, check_header, check_central, check_local,
}
use pishoo.Package.Archive.{
  contains_file, parents, add_directory, check_parents, check_directories, tile, store_entry,
  place_entry, read_entry, read_entries, read_contents, is_zip, end_refused, waz_read,
}
use pishoo.Package.Archive.Steps.{IsLaidOut}
use pishoo.Package.Archive.Tiling.{waz_read-covers}
use pishoo.Base.{len, split, text_eq}
use pishoo.Package.Names.{dot_part, top_level}

abbrev sample : Bytes
sample =
    80 ∷ 75 ∷ 3 ∷ 4 ∷ 20 ∷ 0 ∷ 0 ∷ 0 ∷ 0 ∷ 0 ∷ 0 ∷ 0 ∷ 33 ∷ 0 ∷ 67 ∷ 191 ∷ 166 ∷ 163 ∷ 2 ∷ 0 ∷ 0 ∷ 0
    ∷ 2 ∷ 0 ∷ 0 ∷ 0 ∷ 13 ∷ 0 ∷ 0 ∷ 0 ∷ 109 ∷ 97 ∷ 110 ∷ 105 ∷ 102 ∷ 101 ∷ 115 ∷ 116 ∷ 46 ∷ 106 ∷ 115
    ∷ 111 ∷ 110 ∷ 123 ∷ 125 ∷ 80 ∷ 75 ∷ 1 ∷ 2 ∷ 20 ∷ 3 ∷ 20 ∷ 0 ∷ 0 ∷ 0 ∷ 0 ∷ 0 ∷ 0 ∷ 0 ∷ 33 ∷ 0
    ∷ 67 ∷ 191 ∷ 166 ∷ 163 ∷ 2 ∷ 0 ∷ 0 ∷ 0 ∷ 2 ∷ 0 ∷ 0 ∷ 0 ∷ 13 ∷ 0 ∷ 0 ∷ 0 ∷ 0 ∷ 0 ∷ 0 ∷ 0 ∷ 0 ∷ 0
    ∷ 0 ∷ 0 ∷ 128 ∷ 129 ∷ 0 ∷ 0 ∷ 0 ∷ 0 ∷ 109 ∷ 97 ∷ 110 ∷ 105 ∷ 102 ∷ 101 ∷ 115 ∷ 116 ∷ 46 ∷ 106
    ∷ 115 ∷ 111 ∷ 110 ∷ 80 ∷ 75 ∷ 5 ∷ 6 ∷ 0 ∷ 0 ∷ 0 ∷ 0 ∷ 1 ∷ 0 ∷ 1 ∷ 0 ∷ 59 ∷ 0 ∷ 0 ∷ 0 ∷ 45 ∷ 0
    ∷ 0 ∷ 0 ∷ 0 ∷ 0 ∷ []

abbrev manifest_entry : Entry
manifest_entry = record {
  name_raw = chars "manifest.json";
  is_dir = false;
  encrypted = false;
  compression = stored;
  unix_mode = some 0o100600;
  size = 2;
  compressed_size = 2;
  crc32 = 2745614147;
  header_start = 0;
  data_start = 43;
  central_header_start = 45;
  content = some (b'{' ∷ b'}' ∷ []);
}

abbrev sample_archive : Archive
sample_archive = record { entries = some manifest_entry ∷ []; offset = 0 }

abbrev decode : Bytes → Option Text
decode b = some b

abbrev open_sample : Bytes → Option Archive
open_sample b = some sample_archive

reading : Unit {0}
unfolding waz_path dot_part top_level len split drop take u16_at u32_at range usize_add map_insert
    has_span is_refused entry_limit bytes_eq check_header check_central check_local contains_file
    parents add_directory check_parents check_directories tile store_entry place_entry read_entry
    read_entries read_contents is_zip end_refused waz_read text_eq
reading = tt

sample_read :
    waz_read decode open_sample sample ≡ ok ((chars "manifest.json", b'{' ∷ b'}' ∷ []) ∷ [])
unfolding reading
sample_read = refl

directory_start_sample : 44 < u32_at (drop (length sample - 22) sample) 16
unfolding reading
directory_start_sample = omega arith

waz_read-covers_example :
    (e : Entry) × In (some e) sample_archive.entries
    × IsLaidOut sample e
    × (e.header_start ≤ 44)
    × (44 < e.data_start + e.compressed_size)
waz_read-covers_example =
    waz_read-covers decode open_sample sample sample_archive _ 44 refl sample_read
      directory_start_sample
