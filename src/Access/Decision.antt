-- ===== src/Access/Decision.antt =====
-- src/routes/access.rs, `authorize`: the requests that reach a route, and the path they are
-- judged by.
use pishoo.Base.{
  ◌≢◌, [], ◌++◌, chars, first, split, is_nil, strip_prefix, strip_prefix_sound, strip_prefix-append,
  nil_of_is_nil, true, false, ◌∙◌, Option, none, some, sym, subst, ok, ◌≡◌, ◌⊎◌, inl, inr, refl,
  Text, Bool-cases, Option-cases, Result-cases, arith,
}
use pishoo.Access.{
  Request, Headers, Visitor, Authority, Handshake, visitor_by, handshake_visitor, app_root,
  full_path, is_read, Auth, allowed, refused, reviewing, waiting, type_error, database_error, allow,
  deny, unavailable, timed_out, served, visitor_of, headers_of, serve, decide, authorize,
  is_app_head, visitor_name,
}

abbrev pub IsAllowed : Auth → Type 0
IsAllowed a = (a ≡ allowed) ⊎ (a ≡ waiting allow)

-- A page or asset of the frontend with this name is read.
abbrev pub IsFrontend : Text → Text → Text → Type 0
IsFrontend method path name =
    (is_read method ≡ true)
    × (name ≢ [])
    × ((tail : Text) × (path ≡ chars "/app/" ++ tail) × (name ≡ first (split b'/' tail)))

app_root-IsFrontend :
    (method path : Text) {root : Text}
    → app_root method path ≡ some root
    → (name : Text) × (root ≡ chars "/app/" ++ name) × IsFrontend method path name
unfolding app_root
app_root-IsFrontend method path {root} h = elim (Bool-cases (is_read method)) [
  | inr writes ↦ ground arith
  | inl reads ↦ elim (Option-cases (strip_prefix (chars "/app/") path)) [
    | inl elsewhere ↦ ground arith
    | inr (tail, e) ↦ elim (Bool-cases (is_nil (first (split b'/' tail)))) [
      | inl bare ↦ ground arith
      | inr named ↦
          let same : chars "/app/" ++ first (split b'/' tail) ≡ root = ground arith in
          (
            first (split b'/' tail),
            sym same,
            (
              reads,
              (λ e2. ground (arith, subst (λ n. is_nil n ≡ false) e2 named)),
              (tail, strip_prefix_sound (chars "/app/") path tail e, refl),
            ),
          )
    ]
  ]
]

app_root-none :
    (method path : Text)
    → app_root method path ≡ none
    → (name : Text) → IsFrontend method path name
    → ⊥
unfolding app_root
app_root-none method path h name (reads, filled, (tail, e, is_name)) =
    let found : strip_prefix (chars "/app/") path ≡ some tail =
      subst (λ p. strip_prefix (chars "/app/") p ≡ some tail) (sym e)
        (strip_prefix-append (chars "/app/") tail) in
    elim (Bool-cases (is_nil (first (split b'/' tail)))) [
      | inl bare ↦ filled (is_name ∙ nil_of_is_nil (first (split b'/' tail)) bare)
      | inr named ↦ ground arith
    ]

module _ {Certificates Subject Fields : Type 0} where
  -- What the access service is asked about: the root of the frontend, or the request itself.
  abbrev pub IsAsked :
      Request Certificates Subject Fields → Headers Certificates Subject Fields → Type 0
  IsAsked request headers =
      (headers.fields ≡ request.fields)
      × (((name : Text) × IsFrontend request.method request.path name
            × (headers.method ≡ chars "GET")
            × (headers.path ≡ chars "/app/" ++ name))
          ⊎ (((name : Text) → IsFrontend request.method request.path name → ⊥)
              × (headers.method ≡ request.method)
              × (headers.path ≡ full_path request.path request.query)))

  headers_of-IsAsked :
      (request : Request Certificates Subject Fields) → IsAsked request (headers_of request)
  unfolding headers_of
  headers_of-IsAsked request = elim (Option-cases (app_root request.method request.path)) [
    | inl none_there ↦ (
      ground arith,
      inr (app_root-none request.method request.path none_there, ground arith, ground arith),
    )
    | inr (root, e) ↦
        let (name, is_root, frontend) = app_root-IsFrontend request.method request.path e in
        let at_root : (headers_of request).path ≡ root = ground arith in
        (ground arith, inl (name, frontend, ground arith, at_root ∙ is_root))
  ]

module _ {Certificates Subject Fields Response : Type 0}
    (subject_of : Certificates → Option Subject)
    (auth : Headers Certificates Subject Fields
      → Option (Visitor Certificates Subject Fields)
      → Auth)
    (header_value : Text → Option Text)
    (next : Request Certificates Subject Fields → Response) where
  -- Who a side of the connection is.
  abbrev pub IsPeer :
      Option (Authority Certificates Subject Fields)
      → Option (Visitor Certificates Subject Fields)
      → Type 0
  IsPeer none visitor = visitor ≡ none
  IsPeer (some peer) visitor =
      (subject : Subject) × (subject_of peer.certificates ≡ some subject)
      × (visitor ≡ some (record { name = peer.name; subject = subject }))

  abbrev pub IsVisitor :
      Request Certificates Subject Fields → Option (Visitor Certificates Subject Fields) → Type 0
  IsVisitor request visitor =
      ((shake : Handshake Certificates Subject Fields) × (own : Authority Certificates Subject
          Fields)
        × (request.handshake ≡ some shake)
        × (shake.local ≡ some own)
        × IsPeer shake.remote visitor)
      ⊎ ((own : Authority Certificates Subject Fields) × (request.handshake ≡ none)
          × (request.local ≡ some own)
          × IsPeer (some own) visitor)

  serve-next :
      (request : Request Certificates Subject Fields)
      (visitor : Option (Visitor Certificates Subject Fields)) {r : Response} {v : Option Text}
      → serve subject_of auth header_value next request visitor ≡ served r v
      → r ≡ next (record request { visitor = visitor })
  unfolding serve
  serve-next request visitor h = elim (Bool-cases (is_app_head request)) [
    | inl head ↦ elim (Option-cases (header_value (visitor_name visitor))) [
      | inl missing ↦ ground arith
      | inr (name, e) ↦ ground arith
    ]
    | inr other ↦ ground arith
  ]

  decide-IsAllowed :
      (request : Request Certificates Subject Fields)
      (visitor : Option (Visitor Certificates Subject Fields)) (a : Auth) {r : Response}
      {v : Option Text}
      → decide subject_of auth header_value next request visitor a ≡ served r v
      → IsAllowed a × (r ≡ next (record request { visitor = visitor }))
  unfolding decide
  decide-IsAllowed request visitor allowed h = (inl refl, serve-next request visitor h)
  decide-IsAllowed request visitor (waiting allow) h = (inr refl, serve-next request visitor h)
  decide-IsAllowed request visitor refused h = cc
  decide-IsAllowed request visitor (reviewing id) h = cc
  decide-IsAllowed request visitor (waiting deny) h = cc
  decide-IsAllowed request visitor (waiting unavailable) h = cc
  decide-IsAllowed request visitor (waiting timed_out) h = cc
  decide-IsAllowed request visitor type_error h = cc
  decide-IsAllowed request visitor database_error h = cc

  visitor_by-IsPeer :
      (peer : Authority Certificates Subject Fields)
      {visitor : Option (Visitor Certificates Subject Fields)}
      → visitor_by subject_of peer ≡ ok visitor
      → IsPeer (some peer) visitor
  visitor_by-IsPeer peer h = elim (Option-cases (subject_of peer.certificates)) [
    | inl unknown ↦ ground arith
    | inr (subject, e) ↦ (subject, e, ground arith)
  ]

  visitor_of-IsVisitor :
      (request : Request Certificates Subject Fields)
      {visitor : Option (Visitor Certificates Subject Fields)}
      → visitor_of subject_of request ≡ ok visitor
      → IsVisitor request visitor
  unfolding visitor_of handshake_visitor
  visitor_of-IsVisitor request {visitor} h = elim (Option-cases request.handshake) [
    | inr (shake, e) ↦ elim (Option-cases shake.local) [
      | inl missing ↦ ground arith
      | inr (own, e2) ↦ elim (Option-cases shake.remote) [
        | inl nobody ↦
            inl (shake, own, e, e2, subst (λ r. IsPeer r visitor) (sym nobody) (ground arith))
        | inr (peer, e3) ↦ inl (
          shake,
          own,
          e,
          e2,
          subst (λ r. IsPeer r visitor) (sym e3) (visitor_by-IsPeer peer (ground arith)),
        )
      ]
    ]
    | inl none_done ↦ elim (Option-cases request.local) [
      | inl missing ↦ ground arith
      | inr (own, e) ↦ inr (own, none_done, e, visitor_by-IsPeer own (ground arith))
    ]
  ]

  -- A route answers only a request that came with a handshake which names the local side, or without
  -- a handshake from a local authority. The visitor is the peer of the handshake, or the local
  -- authority, with its name and the subject of its certificates, and there is none where the
  -- handshake has no peer. The access service allowed that visitor, or a review did: where a page of
  -- a frontend is read, for GET of the frontend's root, and else for the method and the whole path of
  -- the request. The route sees the request with just this visitor.
  pub authorize-IsAllowed :
      (request : Request Certificates Subject Fields) {r : Response} {v : Option Text}
      → authorize subject_of auth header_value next request ≡ served r v
      → (visitor : Option (Visitor Certificates Subject Fields)) × IsVisitor request visitor
        × ((headers : Headers Certificates Subject Fields) × IsAsked request headers
            × IsAllowed (auth headers visitor))
        × (r ≡ next (record request { visitor = visitor }))
  unfolding authorize
  authorize-IsAllowed request {v = v} h = elim (Result-cases (visitor_of subject_of request)) [
    | inl (visitor, e) ↦
        let d =
          decide-IsAllowed request visitor (auth (headers_of request) visitor) {v = v}
            (ground arith) in
        (
          visitor,
          visitor_of-IsVisitor request e,
          (headers_of request, headers_of-IsAsked request, d.0),
          d.1,
        )
    | inr (e, fails) ↦ ground arith
  ]
