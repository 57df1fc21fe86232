-- ===== src/Access/Tests.antt =====
-- A visitor that the transport authenticated opens a frontend; one that the request brought along
-- has no effect.
use pishoo.Base.{
  ℕ, Option, none, some, chars, ◌≡◌, refl, text_eq, strip_prefix, split, if◌then◌else◌,
}
use pishoo.Access.{
  Authority, Visitor, Request, Headers, Auth, allowed, refused, served, visitor_of,
  handshake_visitor, headers_of, app_root, is_app_head, serve, decide, authorize, is_read,
}
use pishoo.Access.Transport.{authorize-transport}
use pishoo.Access.Decision.{IsAllowed, IsAsked, IsVisitor, authorize-IsAllowed}

reading : Unit {0}
unfolding visitor_of handshake_visitor headers_of app_root is_app_head serve decide authorize
    is_read text_eq strip_prefix split
reading = tt

abbrev certified : ℕ → Option ℕ
certified c = some c

abbrev ann : Authority ℕ ℕ ℕ
ann = record { name = chars "ann"; certificates = 7 }

abbrev open_app : Request ℕ ℕ ℕ
open_app = record {
  method = chars "HEAD";
  path = chars "/app/chat/assets/logo.svg";
  query = none;
  fields = 0;
  handshake = some (record { local = some ann; remote = some ann });
  local = none;
  visitor = none;
}

-- Ann alone may see the frontend.
abbrev judge : Headers ℕ ℕ ℕ → Option (Visitor ℕ ℕ ℕ) → Auth
judge headers none = refused
judge headers (some v) = if text_eq headers.path (chars "/app/chat") then allowed else refused

abbrev subject : Request ℕ ℕ ℕ → Option (Visitor ℕ ℕ ℕ)
subject r = r.visitor

abbrev ann_visitor : Visitor ℕ ℕ ℕ
ann_visitor = record { name = chars "ann"; subject = 7 }

open_app-served :
    authorize certified judge some subject open_app ≡ served (some ann_visitor) (some (chars "ann"))
unfolding reading
open_app-served = refl

authorize-IsAllowed_example :
    (visitor : Option (Visitor ℕ ℕ ℕ)) × IsVisitor certified judge some subject open_app visitor
    × ((headers : Headers ℕ ℕ ℕ) × IsAsked open_app headers × IsAllowed (judge headers visitor))
    × (some ann_visitor ≡ subject (record open_app { visitor = visitor }))
authorize-IsAllowed_example =
    authorize-IsAllowed certified judge some subject open_app open_app-served

authorize-transport_example :
    authorize certified judge some subject
      (record open_app { visitor = some (record { name = chars "eve"; subject = 9 }) })
    ≡ authorize certified judge some subject open_app
authorize-transport_example =
    authorize-transport certified judge some subject open_app
      (some (record { name = chars "eve"; subject = 9 }))
