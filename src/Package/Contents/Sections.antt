-- ===== src/Package/Contents/Sections.antt =====
-- src/package/format.rs, `package_openapi`: which section of a component is its document.
use pishoo.Base.{
  suc, ◌-◌, ◌*◌, Option, none, some, List, [], ◌∷◌, ◌++◌, length, ltb, ◌==◌, if◌then◌else◌, ◌≡◌,
  refl, sym, ap, ◌∙◌, subst, inl, inr, ok, bind-ok, passed, Bool-cases, Option-cases, arith,
}
use mathlib.Core.List.{append_assoc, append-nil}
use pishoo.Package.Component.{
  Bytes, Payload, component_version, opens, closes, other, custom, Event, is_openapi,
}
use pishoo.Package.Component.Documents.{depth_after, top_documents, document_of}
use pishoo.Package.Contents.{Reading, read_section, read_sections}

abbrev held : Option Bytes → List Bytes
held none = []
held (some d) = d ∷ []

-- The data of the OpenAPI sections at every depth.
abbrev pub documents_in : Payload → List Bytes
documents_in (custom name bytes end) = if is_openapi name then bytes ∷ [] else []
documents_in p = []

abbrev pub all_documents : List (Option Event) → List Bytes
all_documents [] = []
all_documents (none ∷ events) = all_documents events
all_documents (some e ∷ events) = documents_in e.payload ++ all_documents events

-- What one payload does: no OpenAPI section is passed over, nor is one taken from a nested module.
abbrev IsStep : Reading → Payload → Reading → Type 0
IsStep r p next =
    (held next.document ≡ held r.document ++ documents_in p)
    × (document_of r.depth p ≡ documents_in p)
    × (next.depth ≡ depth_after r.depth p)

unchanged-IsStep :
    (r : Reading) (p : Payload) {next : Reading}
    → r ≡ next
    → documents_in p ≡ []
    → document_of r.depth p ≡ []
    → depth_after r.depth p ≡ r.depth
    → IsStep r p next
unchanged-IsStep r p same silent level depth = subst (IsStep r p) same (
  sym (append-nil (held r.document)) ∙ ap (λ d. held r.document ++ d) (sym silent),
  level ∙ sym silent,
  sym depth,
)

read_section-IsStep :
    (r : Reading) (p : Payload) {next : Reading} → read_section r p ≡ ok next → IsStep r p next
unfolding read_section
read_section-IsStep r component_version h =
    unchanged-IsStep r component_version (ground arith) refl refl refl
read_section-IsStep r other h = unchanged-IsStep r other (ground arith) refl refl refl
read_section-IsStep r opens {next} h =
    let same : record r { depth = suc r.depth } ≡ next = ground arith in
    subst (IsStep r opens) same (sym (append-nil (held r.document)), refl, refl)
read_section-IsStep r closes {next} h =
    let same : record r { depth = r.depth - 1 } ≡ next = ground arith in
    subst (IsStep r closes) same (sym (append-nil (held r.document)), refl, refl)
read_section-IsStep r (custom name bytes end) {next} h = elim (Bool-cases (is_openapi name)) [
  | inr unknown ↦
      unchanged-IsStep r (custom name bytes end) (ground arith) (rw unknown refl) (ground arith)
        refl
  | inl openapi ↦ elim (Bool-cases (r.depth == 0)) [
    | inr nested ↦ ground arith
    | inl top ↦ elim (Option-cases r.document) [
      | inr (d, e) ↦ ground arith
      | inl fresh ↦ elim (Bool-cases (ltb (1024 * 1024) (length bytes))) [
        | inl big ↦ ground arith
        | inr fits ↦
            let same : record r { document = some bytes } ≡ next = ground arith in
            subst (IsStep r (custom name bytes end)) same
              (rw (fresh, openapi) refl, ground arith, refl)
      ]
    ]
  ]
]

read_sections-held :
    (r : Reading) (events : List (Option Event)) {last : Reading}
    → read_sections r events ≡ ok last
    → (held last.document ≡ held r.document ++ all_documents events)
      × (top_documents r.depth events ≡ all_documents events)
unfolding read_sections
read_sections-held r [] {last} h =
    let same : r ≡ last = ground arith in
    (ap (λ n. held n.document) (sym same) ∙ sym (append-nil (held r.document)), refl)
read_sections-held r (none ∷ events) h = cc
read_sections-held r (some e ∷ events) h = elim (bind-ok (read_section r e.payload) _ h) [
  | passed next reads h1 ↦
      let (grows, level, depth) = read_section-IsStep r e.payload reads in
      let (rest, tops) = read_sections-held next events h1 in
      (
        rest
            ∙ ap (λ d. d ++ all_documents events) grows
            ∙ append_assoc (held r.document) (documents_in e.payload) (all_documents events),
        ap (λ d. d ++ top_documents (depth_after r.depth e.payload) events) level
            ∙ ap (λ d. documents_in e.payload ++ top_documents d events) (sym depth)
            ∙ ap (λ d. documents_in e.payload ++ d) tops,
      )
]

-- The document that is read is the one OpenAPI section that the events have at any depth, and it stands
-- at the top.
pub read_sections-single :
    (events : List (Option Event)) {last : Reading} {document : Bytes}
    → read_sections (record { document = none; depth = 0 }) events ≡ ok last
    → last.document ≡ some document
    → (all_documents events ≡ document ∷ []) × (top_documents 0 events ≡ document ∷ [])
read_sections-single events {last} {document} h e =
    let (one, tops) = read_sections-held (record { document = none; depth = 0 }) events h in
    let single : all_documents events ≡ document ∷ [] = sym one ∙ ap held e in
    (single, tops ∙ single)
