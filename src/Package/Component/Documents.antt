-- ===== src/Package/Component/Documents.antt =====
-- src/package/manifest.rs, `validate_lib`: which section of a component is its document.
use pishoo.Base.{
  ℕ, zero, suc, ◌-◌, ◌*◌, true, not, ◌&&◌, ◌||◌, Option, none, some, List, [], ◌∷◌, ◌++◌, is_some,
  length, ltb, ◌==◌, if◌then◌else◌, ◌≡◌, refl, sym, ap, ◌∙◌, subst, inl, inr, ok, Bool-cases,
  Option-cases, Result-cases, arith,
}
use mathlib.Core.List.{append-nil, append_assoc}
use pishoo.Failure.{Fallible}
use pishoo.Package.Component.{
  Bytes, Payload, component_version, opens, closes, other, custom, Event, Sections, start_sections,
  is_openapi, is_signature, take_document, take_signature, read_payload, move_end, read_payloads,
  OpenApi, validate_openapi, check_signature, validate_lib,
}

abbrev pub depth_after : ℕ → Payload → ℕ
depth_after depth opens = suc depth
depth_after depth closes = depth - 1
depth_after depth _ = depth

abbrev pub document_of : ℕ → Payload → List Bytes
document_of depth (custom name bytes end) = if depth == 0 && is_openapi name then bytes ∷ [] else []
document_of depth _ = []

-- The data of the OpenAPI sections outside every module and component that is nested.
abbrev pub top_documents : ℕ → List (Option Event) → List Bytes
top_documents depth [] = []
top_documents depth (none ∷ events) = top_documents depth events
top_documents depth (some e ∷ events) =
    document_of depth e.payload ++ top_documents (depth_after depth e.payload) events

abbrev pub held : Option Bytes → List Bytes
held none = []
held (some d) = d ∷ []

-- What one payload does to the document and the depth.
abbrev IsStep : Sections → Payload → Sections → Type 0
IsStep s p next =
    (held next.document ≡ held s.document ++ document_of s.depth p)
    × (next.depth ≡ depth_after s.depth p)

take_document-IsStep :
    (s : Sections) (bytes : Bytes) {next : Sections}
    → take_document s bytes ≡ ok next
    → (held next.document ≡ held s.document ++ bytes ∷ []) × (next.depth ≡ s.depth)
unfolding take_document
take_document-IsStep s bytes {next} h = elim (Option-cases s.document) [
  | inr (d, e) ↦ ground arith
  | inl fresh ↦ elim (Bool-cases (ltb (1024 * 1024) (length bytes))) [
    | inl big ↦ ground arith
    | inr fits ↦
        let same : record s { document = some bytes } ≡ next = ground arith in
        subst (λ n. (held n.document ≡ held s.document ++ bytes ∷ []) × (n.depth ≡ s.depth)) same
          (rw fresh refl, refl)
  ]
]

take_signature-same :
    (size : ℕ) (s : Sections) (bytes : Bytes) (end : ℕ) {next : Sections}
    → take_signature size s bytes end ≡ ok next
    → (next.document ≡ s.document) × (next.depth ≡ s.depth)
unfolding take_signature
take_signature-same size s bytes end {next} h =
    elim (Bool-cases (
      not (s.depth == 0)
      || is_some s.signature
      || not (end == size)
      || ltb (64 * 1024) (length bytes))) [
        | inl bad ↦ ground arith
        | inr fine ↦
            let same : record s { signature = some (s.section_end, bytes) } ≡ next = ground arith in
            subst (λ n. (n.document ≡ s.document) × (n.depth ≡ s.depth)) same (refl, refl)
      ]

same-IsStep :
    (s : Sections) (p : Payload) (next : Sections)
    → document_of s.depth p ≡ []
    → depth_after s.depth p ≡ s.depth
    → next.document ≡ s.document
    → next.depth ≡ s.depth
    → IsStep s p next
same-IsStep s p next silent level same depth =
    (rw (same, silent) (sym (append-nil (held s.document))), depth ∙ sym level)

read_payload-IsStep :
    (size : ℕ) (s : Sections) (p : Payload) {next : Sections}
    → read_payload size s p ≡ ok next
    → IsStep s p next
unfolding read_payload
read_payload-IsStep size s component_version {next} h = elim (Bool-cases (s.depth == 0)) [
  | inl top ↦
      let same : record s { component = true } ≡ next = ground arith in
      subst (IsStep s component_version) same (sym (append-nil (held s.document)), refl)
  | inr nested ↦
      let same : s ≡ next = ground arith in
      subst (IsStep s component_version) same (sym (append-nil (held s.document)), refl)
]
read_payload-IsStep size s opens {next} h =
    let same : record s { depth = suc s.depth } ≡ next = ground arith in
    subst (IsStep s opens) same (sym (append-nil (held s.document)), refl)
read_payload-IsStep size s closes {next} h =
    let same : record s { depth = s.depth - 1 } ≡ next = ground arith in
    subst (IsStep s closes) same (sym (append-nil (held s.document)), refl)
read_payload-IsStep size s other {next} h =
    let same : s ≡ next = ground arith in
    subst (IsStep s other) same (sym (append-nil (held s.document)), refl)
read_payload-IsStep size s (custom name bytes end) {next} h =
    elim (Bool-cases (s.depth == 0 && is_openapi name)) [
      | inl document ↦
          let t = take_document-IsStep s bytes {next = next} (ground arith) in
          (rw document t.0, t.1)
      | inr neither ↦ elim (Bool-cases (is_signature name)) [
        | inl signed ↦
            let t = take_signature-same size s bytes end {next = next} (ground arith) in
            same-IsStep s (custom name bytes end) next (rw neither refl) refl t.0 t.1
        | inr unknown ↦
            let same : s ≡ next = ground arith in
            subst (IsStep s (custom name bytes end)) same
              (same-IsStep s (custom name bytes end) s (rw neither refl) refl refl refl)
      ]
    ]

move_end-same :
    (depth : ℕ) (end : Option ℕ) (s : Sections)
    → ((move_end depth end s).document ≡ s.document) × ((move_end depth end s).depth ≡ s.depth)
move_end-same zero none s = (refl, refl)
move_end-same zero (some end) s = (refl, refl)
move_end-same (suc depth) end s = (refl, refl)

pub read_payloads-held :
    (size : ℕ) (s : Sections) (events : List (Option Event)) {last : Sections}
    → read_payloads size s events ≡ ok last
    → held last.document ≡ held s.document ++ top_documents s.depth events
unfolding read_payloads
read_payloads-held size s [] {last} h =
    let same : s ≡ last = ground arith in
    ap (λ n. held n.document) (sym same) ∙ sym (append-nil (held s.document))
read_payloads-held size s (none ∷ events) h = ground arith
read_payloads-held size s (some e ∷ events) {last} h =
    elim (Result-cases (read_payload size s e.payload)) [
      | inr (failure, fails) ↦ ground arith
      | inl (next, reads) ↦
          let moved = move_end s.depth e.section next in
          let kept = move_end-same s.depth e.section next in
          let step = read_payload-IsStep size s e.payload reads in
          let rest = read_payloads-held size moved events {last = last} (ground arith) in
          rest
          ∙ ap (λ d. held d ++ top_documents moved.depth events) kept.0
          ∙ ap (λ d. held next.document ++ top_documents d events) (kept.1 ∙ step.1)
          ∙ ap (λ ds. ds ++ top_documents (depth_after s.depth e.payload) events) step.0
          ∙ append_assoc (held s.document) (document_of s.depth e.payload)
              (top_documents (depth_after s.depth e.payload) events)
    ]

module _ (parse_openapi : Bytes → Option OpenApi) (payloads : Bytes → List (Option Event))
    (verify : Bytes → ℕ → Bytes → Bytes → Fallible (Unit {0})) where
  -- A component that is accepted has exactly one OpenAPI section outside its nested modules and
  -- components. The result is the validated document of that section.
  pub validate_lib-top_documents :
      (bytes : Bytes) {openapi : OpenApi}
      → validate_lib parse_openapi payloads verify bytes ≡ ok openapi
      → (document : Bytes) × (top_documents 0 (payloads bytes) ≡ document ∷ [])
        × (validate_openapi parse_openapi document ≡ ok openapi)
  unfolding validate_lib
  validate_lib-top_documents bytes {openapi} h =
      elim (Bool-cases (ltb (64 * 1024 * 1024) (length bytes))) [
        | inl big ↦ ground arith
        | inr fits ↦
            elim (Result-cases (read_payloads (length bytes) start_sections (payloads bytes))) [
              | inr (e, fails) ↦ ground arith
              | inl (s, e) ↦ elim (Bool-cases (not s.component)) [
                | inl core ↦ ground arith
                | inr component ↦ elim (Option-cases s.document) [
                  | inl missing ↦ ground arith
                  | inr (document, found) ↦
                      elim (Result-cases (
                        check_signature parse_openapi payloads verify bytes s.signature document)) [
                          | inr (e2, fails) ↦ ground arith
                          | inl (u, signed) ↦ (
                            document,
                            sym (
                                  read_payloads-held (length bytes) start_sections (payloads bytes)
                                    e)
                                ∙ ap held found,
                            ground arith,
                          )
                        ]
                ]
              ]
            ]
      ]
