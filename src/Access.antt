-- ===== src/Access.antt =====
-- src/routes/access.rs, `authorize`: the middleware in front of every route. The access service
-- (`AccessService::auth` with the wait for a review), the subject of a certificate chain and the
-- routes behind the middleware are parameters. Header fields are passed on unread.
pub mod Transport
pub mod Decision
mod Tests
use pishoo.Base.{
  ℕ, String, Bool, true, false, not, ◌&&◌, ◌||◌, Option, none, some, List, [], ◌∷◌, ◌++◌, Text,
  chars, text_eq, strip_prefix, split, first, is_nil, is_some, if◌then◌else◌, Result, ok, err,
  ◌>>=◌, ok_or,
}
use pishoo.Failure.{Error, Fallible, missing_handshake, denied, status}

module _ (Certificates Subject Fields : Type 0) where
  pub record Authority : Type 0 where
    pub name : Text
    pub certificates : Certificates

  -- `dhttp::HandshakeSummary`
  pub record Handshake : Type 0 where
    pub local : Option Authority
    pub remote : Option Authority

  pub record Visitor : Type 0 where
    pub name : Text
    pub subject : Subject

  -- A request with the extensions that the middleware reads or writes.
  pub record Request : Type 0 where
    pub method : Text
    pub path : Text
    pub query : Option Text
    pub fields : Fields
    pub handshake : Option Handshake
    pub local : Option Authority
    pub visitor : Option Visitor

  -- `access_control::Headers`
  pub record Headers : Type 0 where
    pub method : Text
    pub path : Text
    pub fields : Fields

-- The result of the wait for a review, at most 300 seconds.
pub data Review : Type 0 where
  allow deny unavailable timed_out : Review

-- `AuthResult`, or an error of the access database.
pub data Auth : Type 0 where
  allowed refused : Auth
  reviewing : ℕ → Auth
  waiting : Review → Auth
  type_error database_error : Auth

pub data Reply (Response : Type 0) : Type 0 where
  rejected : ℕ → Reply Response
  pending_review : ℕ → Reply Response
  review_refused : ℕ → String → Reply Response
  -- The response of the route, with the name of the viewer that is added to it, if any.
  served : Response → Option Text → Reply Response

abbrev pub visitor_by :
    {Certificates Subject Fields : Type 0}
    → (Certificates → Option Subject)
    → Authority Certificates Subject Fields
    → Fallible (Option (Visitor Certificates Subject Fields))
visitor_by subject_of peer = elim (subject_of peer.certificates) [
  | none ↦ err denied
  | some subject ↦ ok (some (record { name = peer.name; subject = subject }))
]

module _ {Certificates Subject Fields : Type 0} (subject_of : Certificates → Option Subject) where
  unfoldable pub handshake_visitor :
      Handshake Certificates Subject Fields
      → Fallible (Option (Visitor Certificates Subject Fields))
  handshake_visitor h = elim h.local [
    | none ↦ err missing_handshake
    | some local ↦ elim h.remote [ none ↦ ok none | some remote ↦ visitor_by subject_of remote ]
  ]

  -- The visitor comes from the transport alone.
  unfoldable pub visitor_of :
      Request Certificates Subject Fields → Fallible (Option (Visitor Certificates Subject Fields))
  unfolding handshake_visitor
  visitor_of request = elim request.handshake [
    | some h ↦ handshake_visitor h
    | none ↦ elim request.local [
      | some local ↦ visitor_by subject_of local
      | none ↦ err missing_handshake
    ]
  ]

unfoldable pub is_read : Text → Bool
unfolding text_eq
is_read method = text_eq method (chars "GET") || text_eq method (chars "HEAD")

-- The root of the frontend that a page, asset or deep link belongs to.
unfoldable pub app_root : Text → Text → Option Text
unfolding is_read strip_prefix split
app_root method path =
    if is_read method
    then elim (strip_prefix (chars "/app/") path) [
      | none ↦ none
      | some tail ↦
          let name = first (split b'/' tail) in
          if is_nil name then none else some (chars "/app/" ++ name)
    ]
    else none

-- `path_and_query().map_or("/", as_str)`; a target has no such part just if its path is empty.
abbrev pub full_path : Text → Option Text → Text
full_path [] query = chars "/"
full_path path none = path
full_path path (some q) = path ++ (chars "?" ++ q)

module _ {Certificates Subject Fields : Type 0} where
  unfoldable pub headers_of :
      Request Certificates Subject Fields → Headers Certificates Subject Fields
  headers_of request = elim (app_root request.method request.path) [
    | some root ↦ record { method = chars "GET"; path = root; fields = request.fields }
    | none ↦ record {
      method = request.method;
      path = full_path request.path request.query;
      fields = request.fields;
    }
  ]

  unfoldable pub is_app_head : Request Certificates Subject Fields → Bool
  unfolding text_eq
  is_app_head request =
      is_some (app_root request.method request.path) && text_eq request.method (chars "HEAD")

  abbrev pub visitor_name : Option (Visitor Certificates Subject Fields) → Text
  visitor_name none = []
  visitor_name (some v) = v.name

  module _ {Response : Type 0} (subject_of : Certificates → Option Subject)
      (auth : Headers Certificates Subject Fields
        → Option (Visitor Certificates Subject Fields)
        → Auth)
      (header_value : Text → Option Text)
      (next : Request Certificates Subject Fields → Response) where
    -- The route behind the middleware, and the viewer's name on the head of a frontend.
    unfoldable pub serve :
        Request Certificates Subject Fields
        → Option (Visitor Certificates Subject Fields)
        → Reply Response
    unfolding is_app_head
    serve request visitor =
        let response = next (record request { visitor = visitor }) in
        if is_app_head request
        then elim (header_value (visitor_name visitor)) [
          | none ↦ rejected (status denied)
          | some name ↦ served response (some name)
        ]
        else served response none

    unfoldable pub decide :
        Request Certificates Subject Fields
        → Option (Visitor Certificates Subject Fields)
        → Auth
        → Reply Response
    unfolding serve
    decide request visitor allowed = serve request visitor
    decide request visitor refused = rejected (status denied)
    decide request visitor (reviewing id) = pending_review id
    decide request visitor (waiting allow) = serve request visitor
    decide request visitor (waiting deny) = review_refused 403 "review_denied"
    decide request visitor (waiting unavailable) = review_refused 503 "review_unavailable"
    decide request visitor (waiting timed_out) = review_refused 504 "review_timeout"
    decide request visitor type_error = rejected 400
    decide request visitor database_error = rejected 500

    unfoldable pub authorize : Request Certificates Subject Fields → Reply Response
    authorize request = elim (visitor_of subject_of request) [
      | err e ↦ rejected (status e)
      | ok visitor ↦ decide request visitor (auth (headers_of request) visitor)
    ]
