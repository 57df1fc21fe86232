-- ===== src/Package/Archive/Tiling.antt =====
-- Every byte before the directory belongs to an entry.
use pishoo.Base.{
  ℕ, ◌+◌, ◌-◌, ◌≤◌, ◌<◌, ◌≡◌, refl, Option, none, some, List, [], ◌∷◌, Text, length, All, All-In,
  In, here, there, ok, Option-cases, Result-cases, inl, inr, arith,
}
use pishoo.Package.Archive.Checks.{Bytes, Entry, Archive, Span, u32_at, drop}
use pishoo.Package.Archive.{
  Progress, Files, start_progress, read_entry, read_entries, read_contents, waz_read, tile,
}
use pishoo.Package.Archive.Steps.{IsLaidOut, read_entry_sound}
use pishoo.Package.Archive.Spans.{All-map_insert, tile_covers}

-- The entry has a local header at the start of the span, and data up to its end.
pub record IsSpanOf (bytes : Bytes) (entries : List (Option Entry)) (s : Span) : Type 0 where
  pub entry : Entry
  pub listed : In (some entry) entries
  pub layout : IsLaidOut bytes entry
  pub start : s.start ≡ entry.header_start
  pub stop : s.stop ≡ entry.data_start + entry.compressed_size

module _ (from_utf8 : Bytes → Option Text) (bytes : Bytes) (directory_start end : ℕ) where
  pub read_entries_cons :
      (p : Progress) (item : Option Entry) (items : List (Option Entry)) {p' : Progress}
      → read_entries from_utf8 bytes directory_start end p (item ∷ items) ≡ ok p'
      → (e : Entry) × (q : Progress) × (item ≡ some e)
        × (read_entry from_utf8 bytes directory_start end p e ≡ ok q)
        × (read_entries from_utf8 bytes directory_start end q items ≡ ok p')
  unfolding read_entries
  read_entries_cons p none items h = ground arith
  read_entries_cons p (some e) items h =
      elim (Result-cases (read_entry from_utf8 bytes directory_start end p e)) [
        | inr (m, bad) ↦ ground arith
        | inl (q, good) ↦ (e, q, refl, good, ground arith)
      ]

  pub read_entries_nil :
      (p : Progress) {p' : Progress}
      → read_entries from_utf8 bytes directory_start end p [] ≡ ok p'
      → p ≡ p'
  unfolding read_entries
  read_entries_nil p h = ground arith

  -- What holds of the span of every entry holds of all spans that are recorded.
  read_entries_spans :
      (P : Span → Type 0) (items : List (Option Entry)) (p : Progress) {p' : Progress}
      → ((e : Entry)
          → In (some e) items
          → IsLaidOut bytes e
          → P (record { start = e.header_start; stop = e.data_start + e.compressed_size }))
      → All P p.spans
      → read_entries from_utf8 bytes directory_start end p items ≡ ok p'
      → All P p'.spans
  read_entries_spans P [] p each hs h = rw (← read_entries_nil p h) hs
  read_entries_spans P (item ∷ items) p each hs h =
      let (e, q, same, good, rest) = read_entries_cons p item items h in
      let r = read_entry_sound from_utf8 bytes directory_start end p e good in
      read_entries_spans P items q (λ e' m. each e' (there m))
        (rw r.spans (All-map_insert P _ p.spans (each e (here same) r.layout) hs)) rest

  pub read_contents_parts :
      (entries : List (Option Entry)) {files : Files}
      → read_contents from_utf8 bytes directory_start end entries ≡ ok files
      → (p : Progress) × (read_entries from_utf8 bytes directory_start end start_progress entries
          ≡ ok p)
        × (tile "overlapping or unindexed ZIP data" 0 p.spans ≡ ok directory_start)
        × (files ≡ p.files)
  unfolding read_contents
  read_contents_parts entries h =
      elim (Result-cases
        (read_entries from_utf8 bytes directory_start end start_progress entries)) [
          | inr (m, bad) ↦ ground arith
          | inl (p, good) ↦
              elim (Result-cases (tile "overlapping or unindexed ZIP data" 0 p.spans)) [
                | inr (m, bad) ↦ ground arith
                | inl (d, tiled) ↦ (p, good, ground arith, ground arith)
              ]
        ]

pub waz_read_parts :
    (from_utf8 : Bytes → Option Text) (open_zip : Bytes → Option Archive) (bytes : Bytes)
    {files : Files}
    → waz_read from_utf8 open_zip bytes ≡ ok files
    → (archive : Archive) × (open_zip bytes ≡ some archive)
      × (read_contents from_utf8 bytes
            (u32_at (drop (length bytes - 22) bytes) 16)
            (length bytes - 22)
            archive.entries
          ≡ ok files)
unfolding waz_read
waz_read_parts from_utf8 open_zip bytes h = elim (Option-cases (open_zip bytes)) [
  | inl bad ↦ ground arith
  | inr (archive, opened) ↦ (archive, opened, ground arith)
]

-- Of an archive that is accepted, every byte before the directory belongs to an entry, whose local
-- header of 30 bytes, name, extra field (of the length that the header gives) and data follow on one
-- another: nothing is hidden between the entries or before them.
pub waz_read-covers :
    (from_utf8 : Bytes → Option Text) (open_zip : Bytes → Option Archive) (bytes : Bytes)
    (archive : Archive) (files : Files) (k : ℕ)
    → open_zip bytes ≡ some archive
    → waz_read from_utf8 open_zip bytes ≡ ok files
    → k < u32_at (drop (length bytes - 22) bytes) 16
    → (e : Entry) × In (some e) archive.entries
      × IsLaidOut bytes e
      × (e.header_start ≤ k)
      × (k < e.data_start + e.compressed_size)
waz_read-covers from_utf8 open_zip bytes archive files k opened h below =
    let (archive', opened', contents) = waz_read_parts from_utf8 open_zip bytes h in
    let (p, read, tiled, same) =
      read_contents_parts from_utf8 bytes _ _ archive'.entries contents in
    let origins =
      read_entries_spans from_utf8 bytes _ _ (IsSpanOf bytes archive'.entries) archive'.entries
        start_progress
        (λ e m l. record { entry = e; listed = m; layout = l; start = refl; stop = refl }) tt
        read in
    let (s, m, lo, hi) = tile_covers _ 0 p.spans tiled k (omega arith) below in
    let o = All-In (IsSpanOf bytes archive'.entries) p.spans origins m in
    let same_archive : archive' ≡ archive = cc in
    (o.entry, rw (← same_archive) o.listed, o.layout, omega (arith, o.start), omega (arith, o.stop))
