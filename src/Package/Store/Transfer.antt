-- ===== src/Package/Store/Transfer.antt =====
-- src/package/store.rs, `store_get`: one answer of the store. A timeout is an answer that fails.
use pishoo.Base.{
  ℕ, ◌-◌, ◌≤◌, Bool, false, not, ◌||◌, Option, none, some, List, [], ◌∷◌, ◌++◌, Text, chars,
  text_eq, eq_of_text_eq, split, first, trim, eq_ignore_ascii_case, length, length-append, ltb,
  ◌==◌, ==_iff, if◌then◌else◌, ok, err, ◌>>=◌, ◌>>◌, refuse_if, ok_or, bind-ok, passed,
  refuse_if-ok, ok_or-ok, All, refl, ◌≡◌, sym, ap, ◌∙◌, subst, inl, inr, Bool-cases, arith,
}
use mathlib.Core.List.{append_assoc, append-nil}
use pishoo.Failure.{
  Fallible, bad_request, invalid_component, invalid_identity, signing_status_unavailable,
  missing_handshake, route_not_found,
}
use pishoo.Package.Archive.Checks.{Bytes, drop}
use pishoo.Package.Store.{store_name, store_owner}

pub data Frame : Type 0 where
  broken trailers : Frame
  data_frame : Bytes → Frame

-- Who has answered: the name, and the owner hash where the certificates have one.
pub record Remote : Type 0 where
  pub name : Text
  pub owner_hash : Option Text

pub record Response : Type 0 where
  pub remote : Option Remote
  pub status : ℕ
  pub content_type : Option Text
  pub frames : List Frame

-- `path.ends_with(".waz")`
unfoldable pub expected_type : Text → Text
unfolding text_eq drop
expected_type path =
    if text_eq (drop (length path - 4) path) (chars ".waz")
    then chars "application/zip"
    else chars "application/json"

unfoldable pub check_remote : Response → Fallible (Unit {0})
unfolding text_eq
check_remote response = ok_or response.remote missing_handshake >>= λ remote.
    ok_or remote.owner_hash (invalid_identity "invalid store identity") >>= λ owner.
    refuse_if (not (text_eq remote.name store_name) || not (text_eq owner store_owner))
      (invalid_identity "store identity does not match the pinned owner")

unfoldable pub check_status : ℕ → Fallible (Unit {0})
check_status status =
    if status == 200
    then ok tt
    else if status == 404
    then err route_not_found
    else if status == 410
    then err (bad_request "store version has been withdrawn")
    else err signing_status_unavailable

unfoldable pub has_type : Text → Option Text → Bool
unfolding split trim eq_ignore_ascii_case
has_type expected none = false
has_type expected (some value) = eq_ignore_ascii_case (trim (first (split b';' value))) expected

unfoldable pub take_frame : ℕ → Bytes → Frame → Fallible Bytes
take_frame limit bytes broken = err signing_status_unavailable
take_frame limit bytes trailers = err (bad_request "store response trailers are unsupported")
take_frame limit bytes (data_frame more) =
    refuse_if (ltb (limit - length bytes) (length more))
      (invalid_component "store response exceeds its size limit")
    >> ok (bytes ++ more)

unfoldable pub read_frames : ℕ → Bytes → List Frame → Fallible Bytes
unfolding take_frame
read_frames limit bytes [] = ok bytes
read_frames limit bytes (frame ∷ frames) =
    take_frame limit bytes frame >>= λ next. read_frames limit next frames

unfoldable pub store_get : Text → ℕ → Option Response → Fallible Bytes
unfolding check_remote check_status expected_type has_type read_frames
store_get path limit answer = ok_or answer signing_status_unavailable >>= λ response.
    check_remote response
    >> check_status response.status
    >> refuse_if (not (has_type (expected_type path) response.content_type))
        (invalid_component "unexpected store response content type")
    >> read_frames limit [] response.frames

abbrev pub IsData : Frame → Type 0
IsData frame = (more : Bytes) × (frame ≡ data_frame more)

-- The data of the frames.
abbrev pub data_of : Frame → Bytes
data_of (data_frame bytes) = bytes
data_of f = []

abbrev pub body : List Frame → Bytes
body [] = []
body (frame ∷ frames) = data_of frame ++ body frames

-- An answer that is taken: it is the pinned store's, it is a success, and its body is whole and within
-- the limit.
pub record IsTaken (limit : ℕ) (answer : Option Response) (bytes : Bytes) : Type 0 where
  pub response : Response
  pub remote : Remote
  pub answers : answer ≡ some response
  pub comes_from : response.remote ≡ some remote
  pub pinned_name : remote.name ≡ store_name
  pub pinned_owner : remote.owner_hash ≡ some store_owner
  pub success : response.status ≡ 200
  pub unbroken : All IsData response.frames
  pub whole : bytes ≡ body response.frames
  pub bounded : length bytes ≤ limit

read_frames-body :
    (limit : ℕ) (bytes : Bytes) (frames : List Frame) {last : Bytes}
    → length bytes ≤ limit
    → read_frames limit bytes frames ≡ ok last
    → All IsData frames × (last ≡ bytes ++ body frames) × (length last ≤ limit)
unfolding read_frames
read_frames-body limit bytes [] {last} fits h =
    let same : bytes ≡ last = ground arith in
    (tt, sym same ∙ sym (append-nil bytes), subst (λ b. length b ≤ limit) same fits)
read_frames-body limit bytes (broken ∷ frames) fits h = ground arith
read_frames-body limit bytes (trailers ∷ frames) fits h = ground arith
read_frames-body limit bytes (data_frame more ∷ frames) {last} fits h =
    elim (Bool-cases (ltb (limit - length bytes) (length more))) [
      | inl over ↦ ground arith
      | inr within ↦
          let added = length-append bytes more in
          let room : length more ≤ limit - length bytes = ground arith in
          let (unbroken, whole, bounded) =
            read_frames-body limit (bytes ++ more) frames {last = last} (omega arith)
              (ground arith) in
          (((more, refl), unbroken), whole ∙ append_assoc bytes more (body frames), bounded)
    ]

check_remote-pinned :
    (response : Response)
    → check_remote response ≡ ok tt
    → (remote : Remote) × (response.remote ≡ some remote)
      × (remote.name ≡ store_name)
      × (remote.owner_hash ≡ some store_owner)
unfolding check_remote
check_remote-pinned response h = elim (bind-ok (ok_or response.remote missing_handshake) _ h) [
  | passed remote e1 h1 ↦
      elim (bind-ok (ok_or remote.owner_hash (invalid_identity "invalid store identity")) _ h1) [
        | passed owner e2 h2 ↦ (
          remote,
          ok_or-ok _ _ e1,
          eq_of_text_eq remote.name store_name (ground arith),
          ok_or-ok _ _ e2 ∙ ap some (eq_of_text_eq owner store_owner (ground arith)),
        )
      ]
]

check_status-success : (status : ℕ) → check_status status ≡ ok tt → status ≡ 200
unfolding check_status
check_status-success status h = elim (Bool-cases (status == 200)) [
  | inl same ↦ (==_iff status 200).0 same
  | inr other ↦ ground arith
]

-- What is taken from the store comes from the pinned store with a success. Every frame of the answer
-- is data, and what is taken is all their data in order, within the limit.
pub store_get-IsTaken :
    (path : Text) (limit : ℕ) (answer : Option Response) {bytes : Bytes}
    → store_get path limit answer ≡ ok bytes
    → IsTaken limit answer bytes
unfolding store_get
store_get-IsTaken path limit answer {bytes} h =
    elim (bind-ok (ok_or answer signing_status_unavailable) _ h) [
      | passed response e1 h1 ↦ elim (bind-ok (check_remote response) _ h1) [
        | passed u e2 h2 ↦ elim (bind-ok (check_status response.status) _ h2) [
          | passed u2 e3 h3 ↦
              let (typed, h4) =
                refuse_if-ok (not (has_type (expected_type path) response.content_type))
                  (invalid_component "unexpected store response content type") _ h3 in
              let (remote, comes, name, owner) = check_remote-pinned response e2 in
              let (unbroken, whole, bounded) =
                read_frames-body limit [] response.frames (omega arith) h4 in
              record {
                response = response;
                remote = remote;
                answers = ok_or-ok _ _ e1;
                comes_from = comes;
                pinned_name = name;
                pinned_owner = owner;
                success = check_status-success response.status e3;
                unbroken = unbroken;
                whole = whole;
                bounded = bounded;
              }
        ]
      ]
    ]
