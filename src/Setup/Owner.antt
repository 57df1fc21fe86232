-- ===== src/Setup/Owner.antt =====
-- src/setup.rs, `config_request` and the errors of `config_router`: the checks of a request in
-- front of `config_database`. The certificate's subject, the reader of the body and the parser of
-- JSON are parameters.
use pishoo.Base.{
  ℕ, Bool, true, false, not, ◌&&◌, ◌||◌, Option, none, some, List, [], ◌∷◌, Text, chars, text_eq,
  any, split, first, trim, eq_ignore_ascii_case, if◌then◌else◌, ok, err, ◌>>=◌, ◌>>◌, refuse_if,
  ok_or, and-parts, eq_of_text_eq, ◌*◌, ◌≡◌, ◌⊎◌, inl, inr, refl, Bool-cases, Result-cases,
  Option-cases, arith,
}
use pishoo.Failure.{Error, Fallible, bad_request, denied, io_invalid_input, status}
use pishoo.Setup.{Addresses}
use pishoo.Setup.Database.{ConfigDatabase}
use pishoo.Setup.Requests.{Method, patch, delete, other, Files, Json, Settings}
use pishoo.Setup.Transactions.{config_database}

pub record Caller (Subject : Type 0) : Type 0 where
  pub name : Text
  pub subject : Subject

-- `axum::body::to_bytes` under a limit
pub data Body (Bytes : Type 0) : Type 0 where
  bytes : Bytes → Body Bytes
  too_long unreadable : Body Bytes

pub record ConfigRequest (Subject Bytes : Type 0) : Type 0 where
  pub visitor : Option (Caller Subject)
  pub method : Method
  pub path : Text
  pub query : Option Text
  -- The values of the header `accept-versions`, as far as they are text.
  pub versions : List (Option Text)
  pub content_type : Option Text
  pub body : ℕ → Body Bytes

-- The identity that the endpoint serves.
pub record Owner (Subject : Type 0) : Type 0 where
  pub name : Text
  pub local_subject : Fallible Subject

pub data Admitted (Value : Type 0) : Type 0 where
  reply : ℕ → Admitted Value
  admitted : Option Value → Admitted Value

pub data ConfigReply : Type 0 where
  replied : ℕ → ConfigReply
  settings : Settings → ConfigReply

abbrev pub is_v1 : Text → Bool
is_v1 version = text_eq (trim version) (chars "v1")

unfoldable pub any_v1 : List (Option Text) → Fallible Bool
any_v1 [] = ok false
any_v1 (none ∷ values) = err (bad_request "invalid Accept-Versions")
any_v1 (some v ∷ values) = any_v1 values >>= λ rest. ok (any is_v1 (split b',' v) || rest)

-- A request without the header is taken as it is.
unfoldable pub supported : List (Option Text) → Fallible Bool
unfolding any_v1
supported [] = ok true
supported (v ∷ values) = any_v1 (v ∷ values)

abbrev pub is_json : Option Text → Bool
is_json none = false
is_json (some v) = eq_ignore_ascii_case (trim (first (split b';' v))) (chars "application/json")

module _ {Subject : Type 0} where
  abbrev pub is_caller : (Subject → Subject → Bool) → Text → Subject → Caller Subject → Bool
  is_caller same name subject caller = text_eq caller.name name && same caller.subject subject

  unfoldable pub check_owner :
      (Subject → Subject → Bool) → Owner Subject → Option (Caller Subject) → Fallible (Unit {0})
  check_owner same owner visitor = ok_or visitor denied >>= λ caller.
      owner.local_subject >>= λ subject.
      refuse_if (not (is_caller same owner.name subject caller)) denied

abbrev pub respond :
    Method → Fallible Settings × ConfigDatabase → Fallible ConfigReply × ConfigDatabase
respond delete (r, db) = ((r >>= λ value. ok (replied 204)), db)
respond method (r, db) = ((r >>= λ value. ok (settings value)), db)

module _ {Subject Bytes Value : Type 0} where
  unfoldable pub receive :
      (Bytes → Option Value) → ConfigRequest Subject Bytes → Fallible (Admitted Value)
  receive parse_json request = elim request.method [
    | patch ↦ elim (request.body (64 * 1024)) [
      | too_long ↦ ok (reply 413)
      | unreadable ↦ err (bad_request "failed to read request body")
      | bytes b ↦ elim (parse_json b) [
        | none ↦ err (bad_request "invalid JSON")
        | some value ↦ ok (admitted (some value))
      ]
    ]
    | _ ↦ elim (request.body 0) [
      | too_long ↦ ok (reply 400)
      | unreadable ↦ err (bad_request "failed to read request body")
      | bytes b ↦ ok (admitted none)
    ]
  ]

  unfoldable pub check_media :
      (Bytes → Option Value) → ConfigRequest Subject Bytes → Fallible (Admitted Value)
  unfolding receive
  check_media parse_json request = elim request.method [
    | other ↦ ok (reply 405)
    | patch ↦
        if not (is_json request.content_type) then ok (reply 415) else receive parse_json request
    | _ ↦ receive parse_json request
  ]

  unfoldable pub admit :
      (Subject → Subject → Bool)
      → Owner Subject
      → (Bytes → Option Value)
      → ConfigRequest Subject Bytes
      → Fallible (Admitted Value)
  unfolding check_owner supported check_media
  admit same owner parse_json request =
      check_owner same owner request.visitor >> supported request.versions >>= λ version.
      if not version then ok (reply 505) else check_media parse_json request

  unfoldable pub config_request :
      (Subject → Subject → Bool)
      → Owner Subject
      → (Bytes → Option Value)
      → Json Value
      → Addresses
      → (Text → List (Text × Text))
      → Files
      → ConfigRequest Subject Bytes
      → ConfigDatabase
      → Fallible ConfigReply × ConfigDatabase
  unfolding admit
  config_request same owner parse_json json addresses parse_query files request db =
      elim (admit same owner parse_json request) [
        | err e ↦ (err e, db)
        | ok (reply s) ↦ (ok (replied s), db)
        | ok (admitted payload) ↦ respond request.method (
            config_database json addresses parse_query files request.method request.path
              request.query payload db)
      ]

-- The status that `config_router` answers an error with.
unfoldable pub config_status : Error → ℕ
config_status io_invalid_input = 409
config_status e = status e

module _ {Subject : Type 0} where
  pub check_owner-some :
      (same : Subject → Subject → Bool) (owner : Owner Subject) (visitor : Option (Caller Subject))
      {u : Unit {0}}
      → check_owner same owner visitor ≡ ok u
      → (caller : Caller Subject) × (subject : Subject) × (visitor ≡ some caller)
        × (owner.local_subject ≡ ok subject)
        × (caller.name ≡ owner.name)
        × (same caller.subject subject ≡ true)
  unfolding check_owner
  check_owner-some same owner visitor h = elim (Option-cases visitor) [
    | inl missing ↦ ground arith
    | inr (caller, e) ↦ elim (Result-cases owner.local_subject) [
      | inr (e2, fails) ↦ ground arith
      | inl (subject, e2) ↦ elim (Bool-cases (is_caller same owner.name subject caller)) [
        | inl matches ↦
            let (name, own) =
              and-parts (text_eq caller.name owner.name) (same caller.subject subject) matches in
            (caller, subject, e, e2, eq_of_text_eq caller.name owner.name name, own)
        | inr differs ↦ ground arith
      ]
    ]
  ]

-- The peer of the connection is the identity itself, by name and by subject.
abbrev pub IsOwner :
    {Subject : Type 0}
    → (Subject → Subject → Bool)
    → Owner Subject
    → Option (Caller Subject)
    → Type 0
IsOwner {Subject} same owner visitor =
    (caller : Caller Subject) × (subject : Subject) × (visitor ≡ some caller)
    × (owner.local_subject ≡ ok subject)
    × (caller.name ≡ owner.name)
    × (same caller.subject subject ≡ true)

module _ {Subject Bytes Value : Type 0} where
  admit-IsOwner :
      (same : Subject → Subject → Bool) (owner : Owner Subject) (parse_json : Bytes → Option Value)
      (request : ConfigRequest Subject Bytes) {payload : Option Value}
      → admit same owner parse_json request ≡ ok (admitted payload)
      → IsOwner same owner request.visitor
  unfolding admit
  admit-IsOwner same owner parse_json request h =
      elim (Result-cases (check_owner same owner request.visitor)) [
        | inl (u, e) ↦ check_owner-some same owner request.visitor e
        | inr (e, fails) ↦ ground arith
      ]

  -- A request that is not the identity's own, by the name and the subject of its certificate,
  -- never changes the configuration.
  pub config_request-IsOwner :
      (same : Subject → Subject → Bool) (owner : Owner Subject) (parse_json : Bytes → Option Value)
      (json : Json Value) (addresses : Addresses) (parse_query : Text → List (Text × Text))
      (files : Files) (request : ConfigRequest Subject Bytes) (db : ConfigDatabase)
      → ((config_request same owner parse_json json addresses parse_query files request db).1 ≡ db)
        ⊎ IsOwner same owner request.visitor
  unfolding config_request
  config_request-IsOwner same owner parse_json json addresses parse_query files request db =
      elim (Result-cases (admit same owner parse_json request)) [
        | inl (reply s, e) ↦ inl (rw (e, config_request) refl)
        | inl (admitted payload, e) ↦ inr (admit-IsOwner same owner parse_json request e)
        | inr (e, fails) ↦ inl (rw (fails, config_request) refl)
      ]
