-- ===== src/Package/Archive/Steps.antt =====
-- What a successful round of the loop over the entries has established.
use pishoo.Base.{
  ap, sym, ◌∙◌, subst, true, none, eq_of_text_eq, Result-cases, ℕ, ◌+◌, ◌-◌, ◌≤◌, ◌≡◌, false,
  Option, some, List, ◌∷◌, Text, length, ok, Option-cases, inl, inr, arith,
}
use pishoo.Package.Archive.Checks.{
  Bytes, Entry, Span, take, map_insert, is_refused, entry_limit, usize_add, check_header,
  check_central, check_local, u16_at, range, bytes_eq, local_refused,
}
use pishoo.Package.Archive.{Progress, contains_file, read_entry, store_entry, place_entry}

-- The header, the name, the extra field and the data of an entry follow on one another.
pub record IsLaidOut (bytes : Bytes) (e : Entry) : Type 0 where
  pub header : Bytes
  pub at_start : range bytes e.header_start (e.header_start + 30) ≡ some header
  pub named :
      range bytes (e.header_start + 30) (e.header_start + 30 + u16_at header 26) ≡ some e.name_raw
  pub before_data : e.data_start ≡ e.header_start + 30 + u16_at header 26 + u16_at header 28

pub record IsRead (from_utf8 : Bytes → Option Text) (bytes : Bytes) (p : Progress) (e : Entry)
    (p' : Progress) : Type 0 where
  pub name : Text
  pub content : Bytes
  pub central : Span
  pub decoded : from_utf8 e.name_raw ≡ some name
  pub accepted : is_refused name e ≡ false
  pub fresh : contains_file name p.files ≡ false
  pub sized : length content ≡ e.size
  pub within : e.size ≤ p.remaining
  pub files : p'.files ≡ (name, content) ∷ p.files
  pub remaining : p'.remaining ≡ p.remaining - length content
  pub spans :
      p'.spans
      ≡ map_insert
          (record { start = e.header_start; stop = e.data_start + e.compressed_size })
          p.spans
  pub layout : IsLaidOut bytes e
  pub central_spans : p'.central_spans ≡ map_insert central p.central_spans

usize_add_sound : (a b c : ℕ) → usize_add a b ≡ some c → c ≡ a + b
unfolding usize_add
usize_add_sound a b c h = ground arith

check_local_sound :
    (bytes : Bytes) (d : ℕ) (spans : List Span) (header : Bytes) (flags stop : ℕ) (e : Entry)
    {s : Span}
    → check_local bytes d spans header flags stop e ≡ ok s
    → s ≡ record { start = e.header_start; stop = stop }
unfolding check_local
check_local_sound bytes d spans header flags stop e h = ground arith

bytes_eq-some : (found : Option Bytes) (b : Bytes) → bytes_eq found b ≡ true → found ≡ some b
unfolding bytes_eq
bytes_eq-some none b h = ground arith
bytes_eq-some (some a) b h = ap some (eq_of_text_eq a b h)

check_header-range :
    (bytes : Bytes) (e : Entry) {header : Bytes}
    → check_header bytes e ≡ ok header
    → range bytes e.header_start (e.header_start + 30) ≡ some header
unfolding check_header
check_header-range bytes e {header} h = elim (Option-cases (usize_add e.header_start 30)) [
  | inl over ↦ ground arith
  | inr (end, added) ↦ elim (Option-cases (range bytes e.header_start end)) [
    | inl short ↦ ground arith
    | inr (found, got) ↦
        let is_header : found ≡ header = ground arith in
        subst (λ k. range bytes e.header_start k ≡ some header)
          (usize_add_sound e.header_start 30 end added) (got ∙ ap some is_header)
  ]
]

check_local-IsLaidOut :
    (bytes : Bytes) (d : ℕ) (spans : List Span) (header : Bytes) (flags stop : ℕ) (e : Entry)
    {s : Span}
    → range bytes e.header_start (e.header_start + 30) ≡ some header
    → check_local bytes d spans header flags stop e ≡ ok s
    → IsLaidOut bytes e
unfolding check_local local_refused
check_local-IsLaidOut bytes d spans header flags stop e at_start h =
    let name_equal : bytes_eq
          (range bytes (e.header_start + 30) (e.header_start + 30 + u16_at header 26)) e.name_raw
        ≡ true =
      ground arith in
    let ends : e.header_start + 30 + u16_at header 26 + u16_at header 28 ≡ e.data_start =
      ground arith in
    record {
      header = header;
      at_start = at_start;
      named = bytes_eq-some _ e.name_raw name_equal;
      before_data = sym ends;
    }

entry_limit_le : (name : Text) (remaining : ℕ) → entry_limit name remaining ≤ remaining
unfolding entry_limit
entry_limit_le name remaining = omega arith

module _ (p : Progress) (e : Entry) (name : Text) (central local : Span) where
  store_entry_sound :
      {p' : Progress}
      → store_entry p e name central local ≡ ok p'
      → (content : Bytes) × (length content ≡ e.size)
        × (p' ≡ record {
          files = (name, content) ∷ p.files;
          spans = map_insert local p.spans;
          central_spans = map_insert central p.central_spans;
          remaining = p.remaining - length content;
        })
  unfolding store_entry
  store_entry_sound h = elim (Option-cases e.content) [
    | inl empty ↦ ground arith
    | inr (stream, found) ↦ (take (e.size + 1) stream, ground arith, ground arith)
  ]

module _ (bytes : Bytes) (directory_start end : ℕ) (p : Progress) (e : Entry) (name : Text) where
  place_entry_sound :
      {p' : Progress}
      → place_entry bytes directory_start end p e name ≡ ok p'
      → (central : Span) × IsLaidOut bytes e
        × (store_entry p e name central
              (record { start = e.header_start; stop = e.data_start + e.compressed_size })
            ≡ ok p')
  unfolding place_entry
  place_entry_sound {p'} h = elim (Option-cases (usize_add e.data_start e.compressed_size)) [
    | inl over ↦ ground arith
    | inr (stop, added) ↦ elim (Result-cases (check_header bytes e)) [
      | inr (m, bad) ↦ ground arith
      | inl (header, got) ↦
          elim (Result-cases
            (check_central bytes directory_start end (u16_at header 6) p.central_spans e)) [
              | inr (m, bad) ↦ ground arith
              | inl (central, c) ↦
                  let (layout, storing) = placed stop header central added got c h in
                  (central, layout, storing)
            ]
    ]
  ]
    where
      placed :
          (stop : ℕ) (header : Bytes) (central : Span)
          → usize_add e.data_start e.compressed_size ≡ some stop
          → check_header bytes e ≡ ok header
          → check_central bytes directory_start end (u16_at header 6) p.central_spans e ≡ ok central
          → place_entry bytes directory_start end p e name ≡ ok p'
          → IsLaidOut bytes e
            × (store_entry p e name central
                  (record { start = e.header_start; stop = e.data_start + e.compressed_size })
                ≡ ok p')
      placed stop header central added got c h =
          elim (Result-cases
            (check_local bytes directory_start p.spans header (u16_at header 6) stop e)) [
              | inr (m, bad) ↦ ground arith
              | inl (local, l) ↦ (
                check_local-IsLaidOut bytes directory_start p.spans header (u16_at header 6) stop e
                    (check_header-range bytes e got) l,
                ground (
                  arith,
                  check_local_sound bytes directory_start p.spans header (u16_at header 6) stop e l,
                  usize_add_sound _ _ _ added,
                ),
              )
            ]

module _ (from_utf8 : Bytes → Option Text) (bytes : Bytes) (directory_start end : ℕ) where
  read_entry_cases :
      (p : Progress) (e : Entry) {p' : Progress}
      → read_entry from_utf8 bytes directory_start end p e ≡ ok p'
      → (name : Text) × (from_utf8 e.name_raw ≡ some name)
        × (is_refused name e ≡ false)
        × (contains_file name p.files ≡ false)
        × (e.size ≤ p.remaining)
        × (place_entry bytes directory_start end p e name ≡ ok p')
  unfolding read_entry
  read_entry_cases p e h = elim (Option-cases (from_utf8 e.name_raw)) [
    | inl bad ↦ ground arith
    | inr (name, named) ↦ (
      name,
      named,
      ground arith,
      ground arith,
      ground (arith, entry_limit_le name p.remaining),
      ground arith,
    )
  ]

  pub read_entry_sound :
      (p : Progress) (e : Entry) {p' : Progress}
      → read_entry from_utf8 bytes directory_start end p e ≡ ok p'
      → IsRead from_utf8 bytes p e p'
  read_entry_sound p e {p'} h =
      let (name, named, accepted, fresh, within, placing) = read_entry_cases p e h in
      let (central, layout, storing) =
        place_entry_sound bytes directory_start end p e name placing in
      let (content, sized, final) = store_entry_sound p e name central _ storing in
      record {
        name = name;
        content = content;
        central = central;
        decoded = named;
        accepted = accepted;
        fresh = fresh;
        sized = sized;
        within = within;
        files = ap (λ (q : Progress). q.files) final;
        remaining = ap (λ (q : Progress). q.remaining) final;
        spans = ap (λ (q : Progress). q.spans) final;
        layout = layout;
        central_spans = ap (λ (q : Progress). q.central_spans) final;
      }
