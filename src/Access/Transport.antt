-- ===== src/Access/Transport.antt =====
-- src/routes/access.rs, `authorize`: where the identity of a visitor comes from.
use pishoo.Base.{Option, ok, err, ◌≡◌, refl, Text}
use pishoo.Access.{Request, Headers, Visitor, Auth, visitor_of, headers_of, decide, authorize}

module _ {Certificates Subject Fields Response : Type 0}
    (subject_of : Certificates → Option Subject)
    (auth : Headers Certificates Subject Fields
      → Option (Visitor Certificates Subject Fields)
      → Auth)
    (header_value : Text → Option Text)
    (next : Request Certificates Subject Fields → Response) where
  -- A visitor that a request already carries has no effect on the reply: the one from the
  -- transport replaces it before the access service and the route see the request.
  pub authorize-transport :
      (request : Request Certificates Subject Fields)
      (forged : Option (Visitor Certificates Subject Fields))
      → authorize subject_of auth header_value next (record request { visitor = forged })
        ≡ authorize subject_of auth header_value next request
  unfolding authorize visitor_of headers_of decide
  authorize-transport request forged = elim (visitor_of subject_of request) [
    | err e ↦ refl
    | ok visitor ↦ refl
  ]
