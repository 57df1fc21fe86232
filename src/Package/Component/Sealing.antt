-- ===== src/Package/Component/Sealing.antt =====
-- src/package/manifest.rs, `validate_lib`: which section of a component is its signature, and which
-- bytes stand before it.
use pishoo.Base.{
  ℕ, zero, suc, ◌-◌, ◌*◌, true, not, ◌&&◌, ◌||◌, Option, none, some, List, [], ◌∷◌, ◌++◌, Text,
  chars, text_eq, eq_of_text_eq, is_some, length, ltb, ◌==◌, ==_iff, and-parts, if◌then◌else◌, ◌≡◌,
  refl, sym, ap, ◌∙◌, subst, inl, inr, ok, refuse_if-ok, Bool-cases, Option-cases, Result-cases,
  arith,
}
use mathlib.Core.List.{append-nil, append_assoc}
use pishoo.Failure.{invalid_component}
use pishoo.Package.Component.{
  Bytes, Payload, component_version, opens, closes, other, custom, Event, Sections, is_openapi,
  is_signature, take_document, take_signature, read_payload, move_end, read_payloads,
}
use pishoo.Package.Component.Documents.{depth_after}

-- A section of signatures: where the section before it ends, its data and its own end.
abbrev pub Seal : Type 0
Seal = ℕ × Bytes × ℕ

abbrev pub seal_of : ℕ → Payload → List Seal
seal_of before (custom name bytes end) =
    if text_eq name (chars "pishoo:signature") then (before, bytes, end) ∷ [] else []
seal_of before _ = []

-- Where the last section outside every nested module and component ends.
abbrev pub end_after : ℕ → Option ℕ → ℕ → ℕ
end_after zero (some end) before = end
end_after zero none before = before
end_after (suc depth) section before = before

-- The signature sections at any depth.
abbrev pub seals : ℕ → ℕ → List (Option Event) → List Seal
seals depth before [] = []
seals depth before (none ∷ events) = seals depth before events
seals depth before (some e ∷ events) =
    seal_of before e.payload
    ++ seals (depth_after depth e.payload) (end_after depth e.section before) events

abbrev pub recorded : ℕ → Option (ℕ × Bytes) → List Seal
recorded size none = []
recorded size (some (before, bytes)) = (before, bytes, size) ∷ []

-- What one payload does to the signature, the depth and the end.
abbrev IsStep : ℕ → Sections → Payload → Sections → Type 0
IsStep size s p next =
    (recorded size next.signature ≡ recorded size s.signature ++ seal_of s.section_end p)
    × (next.depth ≡ depth_after s.depth p)
    × (next.section_end ≡ s.section_end)

silent-IsStep :
    (size : ℕ) (s : Sections) (p : Payload) (next : Sections)
    → seal_of s.section_end p ≡ []
    → next.signature ≡ s.signature
    → next.depth ≡ depth_after s.depth p
    → next.section_end ≡ s.section_end
    → IsStep size s p next
silent-IsStep size s p next silent same level stays =
    (rw (same, silent) (sym (append-nil (recorded size s.signature))), level, stays)

take_signature-IsStep :
    (size : ℕ) (s : Sections) (bytes : Bytes) (end : ℕ) {next : Sections}
    → take_signature size s bytes end ≡ ok next
    → (recorded size next.signature ≡ recorded size s.signature ++ (s.section_end, bytes, end) ∷ [])
      × (next.depth ≡ s.depth)
      × (next.section_end ≡ s.section_end)
unfolding take_signature
take_signature-IsStep size s bytes end {next} h =
    let (fine, h1) =
      refuse_if-ok
        (not (s.depth == 0)
          || is_some s.signature
          || not (end == size)
          || ltb (64 * 1024) (length bytes))
        (invalid_component "signature must be a unique bounded final section") _ h in
    let same : record s { signature = some (s.section_end, bytes) } ≡ next = ground arith in
    let last : end ≡ size = (==_iff end size).0 (ground arith) in
    elim (Option-cases s.signature) [
      | inr (before, e) ↦ ground arith
      | inl fresh ↦
          subst
            (λ n.
              (recorded size n.signature
                ≡ recorded size s.signature ++ (s.section_end, bytes, end) ∷ [])
              × (n.depth ≡ s.depth)
              × (n.section_end ≡ s.section_end))
            same (rw (fresh, last) refl, refl, refl)
    ]

take_document-same :
    (s : Sections) (bytes : Bytes) {next : Sections}
    → take_document s bytes ≡ ok next
    → (next.signature ≡ s.signature) × (next.depth ≡ s.depth) × (next.section_end ≡ s.section_end)
unfolding take_document
take_document-same s bytes {next} h =
    let (fresh, h1) =
      refuse_if-ok (is_some s.document) (invalid_component "duplicate pishoo:openapi section") _
        h in
    let (small, h2) =
      refuse_if-ok (ltb (1024 * 1024) (length bytes)) (invalid_component "OpenAPI exceeds 1 MiB") _
        h1 in
    let same : record s { document = some bytes } ≡ next = ground arith in
    subst (λ n. (n.signature ≡ s.signature) × (n.depth ≡ s.depth) × (n.section_end ≡ s.section_end))
      same (refl, refl, refl)

document-no_seal :
    (before : ℕ) (name : Text) (bytes : Bytes) (end : ℕ)
    → is_openapi name ≡ true
    → seal_of before (custom name bytes end) ≡ []
unfolding is_openapi text_eq
document-no_seal before name bytes end h =
    subst (λ n. seal_of before (custom n bytes end) ≡ [])
      (sym (eq_of_text_eq name (chars "pishoo:openapi") h)) refl

read_payload-IsStep :
    (size : ℕ) (s : Sections) (p : Payload) {next : Sections}
    → read_payload size s p ≡ ok next
    → IsStep size s p next
unfolding read_payload is_signature
read_payload-IsStep size s component_version {next} h = elim (Bool-cases (s.depth == 0)) [
  | inl top ↦
      let same : record s { component = true } ≡ next = ground arith in
      subst (IsStep size s component_version) same
        (silent-IsStep size s component_version (record s { component = true }) refl refl refl refl)
  | inr nested ↦
      let same : s ≡ next = ground arith in
      subst (IsStep size s component_version) same
        (silent-IsStep size s component_version s refl refl refl refl)
]
read_payload-IsStep size s opens {next} h =
    let same : record s { depth = suc s.depth } ≡ next = ground arith in
    subst (IsStep size s opens) same
      (silent-IsStep size s opens (record s { depth = suc s.depth }) refl refl refl refl)
read_payload-IsStep size s closes {next} h =
    let same : record s { depth = s.depth - 1 } ≡ next = ground arith in
    subst (IsStep size s closes) same
      (silent-IsStep size s closes (record s { depth = s.depth - 1 }) refl refl refl refl)
read_payload-IsStep size s other {next} h =
    let same : s ≡ next = ground arith in
    subst (IsStep size s other) same (silent-IsStep size s other s refl refl refl refl)
read_payload-IsStep size s (custom name bytes end) {next} h =
    elim (Bool-cases (s.depth == 0 && is_openapi name)) [
      | inl document ↦
          let (signature, depth, stays) = take_document-same s bytes {next = next} (ground arith) in
          silent-IsStep size s (custom name bytes end) next
            (document-no_seal s.section_end name bytes end
              (and-parts (s.depth == 0) (is_openapi name) document).1)
            signature depth stays
      | inr neither ↦ elim (Bool-cases (text_eq name (chars "pishoo:signature"))) [
        | inl signed ↦
            let (signature, depth, stays) =
              take_signature-IsStep size s bytes end {next = next} (ground arith) in
            (rw signed signature, depth, stays)
        | inr unknown ↦
            let same : s ≡ next = ground arith in
            subst (IsStep size s (custom name bytes end)) same
              (silent-IsStep size s (custom name bytes end) s (rw unknown refl) refl refl refl)
      ]
    ]

move_end-end_after :
    (depth : ℕ) (end : Option ℕ) (s : Sections)
    → ((move_end depth end s).signature ≡ s.signature)
      × ((move_end depth end s).depth ≡ s.depth)
      × ((move_end depth end s).section_end ≡ end_after depth end s.section_end)
move_end-end_after zero none s = (refl, refl, refl)
move_end-end_after zero (some end) s = (refl, refl, refl)
move_end-end_after (suc depth) end s = (refl, refl, refl)

-- The signature that is recorded is that of all signature sections, which end the component.
pub read_payloads-seals :
    (size : ℕ) (s : Sections) (events : List (Option Event)) {last : Sections}
    → read_payloads size s events ≡ ok last
    → recorded size last.signature ≡ recorded size s.signature ++ seals s.depth s.section_end events
unfolding read_payloads
read_payloads-seals size s [] {last} h =
    let same : s ≡ last = ground arith in
    ap (λ n. recorded size n.signature) (sym same) ∙ sym (append-nil (recorded size s.signature))
read_payloads-seals size s (none ∷ events) h = ground arith
read_payloads-seals size s (some e ∷ events) {last} h =
    elim (Result-cases (read_payload size s e.payload)) [
      | inr (failure, fails) ↦ ground arith
      | inl (next, reads) ↦
          let moved = move_end s.depth e.section next in
          let (same, level, at) = move_end-end_after s.depth e.section next in
          let (step, depth, stays) = read_payload-IsStep size s e.payload reads in
          let rest = read_payloads-seals size moved events {last = last} (ground arith) in
          rest
          ∙ ap (λ d. recorded size d ++ seals moved.depth moved.section_end events) same
          ∙ ap (λ d. recorded size next.signature ++ seals d moved.section_end events)
              (level ∙ depth)
          ∙ ap (λ k. recorded size next.signature ++ seals (depth_after s.depth e.payload) k events)
              (at ∙ ap (end_after s.depth e.section) stays)
          ∙ ap
              (λ ds.
                ds
                ++ seals (depth_after s.depth e.payload) (end_after s.depth e.section s.section_end)
                    events)
              step
          ∙ append_assoc (recorded size s.signature) (seal_of s.section_end e.payload) (
              seals (depth_after s.depth e.payload) (end_after s.depth e.section s.section_end)
                events)
    ]
