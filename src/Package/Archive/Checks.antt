-- ===== src/Package/Archive/Checks.antt =====
-- An entry of the archive and the checks that concern it alone.
use Prim.Native.Nat.{bit_and}
use pishoo.Base.{
  ℕ, zero, suc, ◌+◌, ◌-◌, ◌*◌, ◌^◌, String, Bool, true, false, not, ◌&&◌, ◌||◌, Option, none, some,
  List, [], ◌∷◌, Text, chars, text_eq, length, any, ltb, leb, ◌==◌, if◌then◌else◌, Result, ok, err,
  ◌>>=◌, ◌>>◌, refuse_if, ok_or, min,
}
use pishoo.Package.Names.{waz_path}

abbrev pub Bytes : Type 0
Bytes = List ℕ

pub data Compression : Type 0 where
  stored deflated other : Compression

-- What `ZipArchive::by_index` gives; `content` is the decompressed stream, or an error.
pub record Entry : Type 0 where
  pub name_raw : Bytes
  pub is_dir : Bool
  pub encrypted : Bool
  pub compression : Compression
  pub unix_mode : Option ℕ
  pub size : ℕ
  pub compressed_size : ℕ
  pub crc32 : ℕ
  pub header_start : ℕ
  pub data_start : ℕ
  pub central_header_start : ℕ
  pub content : Option Bytes

pub record Archive : Type 0 where
  pub entries : List (Option Entry)
  pub offset : ℕ

-- A span of the file, by its first byte and the byte after its last.
pub record Span : Type 0 where
  pub start : ℕ
  pub stop : ℕ

abbrev pub waz_limit : ℕ
waz_limit = 64 * 1024 * 1024

unfoldable pub drop : ℕ → Bytes → Bytes
drop zero b = b
drop (suc n) [] = []
drop (suc n) (x ∷ b) = drop n b

unfoldable pub take : ℕ → Bytes → Bytes
take zero b = []
take (suc n) [] = []
take (suc n) (x ∷ b) = x ∷ take n b

unfoldable pub byte_at : Bytes → ℕ → ℕ
byte_at [] i = 0
byte_at (x ∷ b) zero = x
byte_at (x ∷ b) (suc i) = byte_at b i

-- `u16::from_le_bytes`, `u32::from_le_bytes`
unfoldable pub u16_at : Bytes → ℕ → ℕ
unfolding byte_at
u16_at b i = byte_at b i + 256 * byte_at b (i + 1)

unfoldable pub u32_at : Bytes → ℕ → ℕ
unfolding u16_at
u32_at b i = u16_at b i + 65536 * u16_at b (i + 2)

-- `bytes.get(from..to)`
unfoldable pub range : Bytes → ℕ → ℕ → Option Bytes
unfolding take drop
range b from to =
    if leb from to && leb to (length b) then some (take (to - from) (drop from b)) else none

-- `usize::checked_add`
unfoldable pub usize_add : ℕ → ℕ → Option ℕ
usize_add a b = if ltb (a + b) (2 ^ 64) then some (a + b) else none

-- `BTreeMap::insert` for spans by their start
unfoldable pub map_insert : Span → List Span → List Span
map_insert s [] = s ∷ []
map_insert s (t ∷ ts) =
    let later = map_insert s ts in
    if ltb s.start t.start then s ∷ t ∷ ts else if s.start == t.start then s ∷ ts else t ∷ later

unfoldable pub has_span : ℕ → List Span → Bool
has_span k spans = any (λ s. s.start == k) spans

abbrev pub is_known : Compression → Bool
is_known other = false
is_known c = true

abbrev pub compression_code : Compression → ℕ
compression_code stored = 0
compression_code c = 8

-- `mode & 0o170000` is neither 0 nor that of a regular file.
abbrev pub special_mode : Option ℕ → Bool
special_mode none = false
special_mode (some mode) = not (bit_and mode 0o170000 == 0 || bit_and mode 0o170000 == 0o100000)

unfoldable pub is_refused : Text → Entry → Bool
is_refused name e =
    not (waz_path name)
    || e.is_dir
    || e.encrypted
    || not (is_known e.compression)
    || special_mode e.unix_mode

unfoldable pub entry_limit : Text → ℕ → ℕ
unfolding text_eq
entry_limit name remaining =
    min
      (if text_eq name (chars "manifest.json")
        then 1024 * 1024
        else if text_eq name (chars "signature.json")
        then 64 * 1024
        else if text_eq name (chars "backend.wasm")
        then waz_limit
        else 16 * 1024 * 1024)
      remaining

unfoldable pub bytes_eq : Option Bytes → Bytes → Bool
unfolding text_eq
bytes_eq none b = false
bytes_eq (some a) b = text_eq a b

-- The local header: 30 bytes at `header_start`.
unfoldable pub check_header : Bytes → Entry → Result String Bytes
unfolding usize_add range
check_header bytes e = do
  end ← ok_or (usize_add e.header_start 30) "ZIP header overflow"
  ok_or (range bytes e.header_start end) "truncated ZIP local header"

-- The central header, and where it ends.
unfoldable pub check_central : Bytes → ℕ → ℕ → ℕ → List Span → Entry → Result String Span
unfolding usize_add range u16_at has_span bytes_eq take
check_central bytes directory_start end flags central_spans e = do
  fixed ← ok_or (usize_add e.central_header_start 46) "ZIP directory overflow"
  central ← ok_or (range bytes e.central_header_start fixed) "truncated ZIP central header"
  central_end ←
      ok_or
        (usize_add e.central_header_start
          (46 + u16_at central 28 + u16_at central 30 + u16_at central 32))
        "ZIP directory span overflow"
  let refused =
      not (text_eq (take 4 central) (0x50 ∷ 0x4b ∷ 0x01 ∷ 0x02 ∷ []))
      || ltb e.central_header_start directory_start
      || ltb end central_end
      || not (u16_at central 8 == flags)
      || has_span e.central_header_start central_spans
  refuse_if refused "invalid ZIP central header"
  ok (record { start = e.central_header_start; stop = central_end })

-- The local header against the central directory; `stop` is the end of the entry's data.
unfoldable pub local_refused : Bytes → ℕ → List Span → Bytes → ℕ → ℕ → Entry → Bool
unfolding u16_at u32_at range has_span bytes_eq take
local_refused bytes directory_start spans header flags stop e =
    let name_length = u16_at header 26 in
    let extra_length = u16_at header 28 in
    not (text_eq (take 4 header) (0x50 ∷ 0x4b ∷ 0x03 ∷ 0x04 ∷ []))
    || not (bit_and flags 0xf7f9 == 0)
    || not (
        bytes_eq (range bytes (e.header_start + 30) (e.header_start + 30 + name_length)) e.name_raw)
    || not (e.header_start + 30 + name_length + extra_length == e.data_start)
    || not (u16_at header 8 == compression_code e.compression)
    || not (u32_at header 14 == e.crc32)
    || not (u32_at header 18 == e.compressed_size)
    || not (u32_at header 22 == e.size)
    || ltb directory_start stop
    || has_span e.header_start spans

unfoldable pub check_local : Bytes → ℕ → List Span → Bytes → ℕ → ℕ → Entry → Result String Span
unfolding local_refused
check_local bytes directory_start spans header flags stop e =
    if local_refused bytes directory_start spans header flags stop e
    then err "ZIP local header disagrees with the central directory"
    else ok (record { start = e.header_start; stop = stop })
