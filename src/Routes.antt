-- ===== src/Routes.antt =====
-- src/routes.rs: the reserved namespace and the choice of a proxy location for a request.
mod Paths
pub mod Forwarding
pub mod Upstream
mod Tests
use pishoo.Base.{
  ℕ, Bool, true, false, ◌&&◌, ◌||◌, not, Option, none, some, List, [], ◌∷◌, ◌++◌, Text, chars,
  text_eq, strip_prefix, starts_with, ends_with, trim_end, len, find, filter, ltb, ◌==◌, is_some,
  is_none, if◌then◌else◌, Result, ok, err,
}
use pishoo.Failure.{Error, Fallible, route_not_found, io, io_invalid_input, status}

-- `http::uri::PathAndQuery`, `http::uri::Parts`
pub record PathAndQuery : Type 0 where
  pub path : Text
  pub query : Option Text

pub record UriParts : Type 0 where
  pub scheme : Option Text
  pub authority : Option Text
  pub path_and_query : Option PathAndQuery

-- src/setup.rs
pub record ProxyLocation : Type 0 where
  pub location : Text
  pub proxy_pass : UriParts

unfoldable pub reserved : Text → Bool
unfolding text_eq starts_with
reserved path = text_eq path (chars "/std") || starts_with (chars "/std/") path

abbrev pub is_slash : ℕ → Bool
is_slash c = c == b'/'

-- `location.trim_end_matches('/')`
unfoldable pub base_of : Text → Text
base_of location = trim_end is_slash location

-- `location.strip_prefix("= ") == Some(path)`
unfoldable pub is_exact : Text → ProxyLocation → Bool
is_exact path p = elim (strip_prefix (chars "= ") p.location) [
  | none ↦ false
  | some rest ↦ text_eq rest path
]

unfoldable pub is_bare : Text → ProxyLocation → Bool
is_bare path p = ends_with b'/' p.location && text_eq (base_of p.location) path

unfoldable pub covers : Text → ProxyLocation → Bool
covers path p =
    starts_with (chars "/") p.location
    && (text_eq p.location (chars "/")
        || text_eq path (base_of p.location)
        || starts_with (base_of p.location ++ chars "/") path)

-- `max_by_key(|p| p.location.len())`, which returns the last of several maxima
unfoldable pub longest : List ProxyLocation → Option ProxyLocation
longest [] = none
longest (p ∷ ps) = elim (longest ps) [
  | none ↦ some p
  | some best ↦ if ltb (len best.location) (len p.location) then some p else some best
]

pub data Selection : Type 0 where
  moved_permanently : Text → Selection
  forward : ProxyLocation → Selection

abbrev pub with_query : Text → Option Text → Text
with_query path none = path
with_query path (some q) = path ++ (chars "?" ++ q)

unfoldable pub by_prefix : List ProxyLocation → Text → Fallible Selection
by_prefix proxies path = elim (longest (filter (covers path) proxies)) [
  | none ↦ err route_not_found
  | some route ↦ ok (forward route)
]

unfoldable pub or_prefix : List ProxyLocation → Text → Option Text → Fallible Selection
unfolding by_prefix
or_prefix proxies path query = elim (find (is_bare path) proxies) [
  | some route ↦ ok (moved_permanently (with_query route.location query))
  | none ↦ by_prefix proxies path
]

-- The choice that `proxy_pass` makes, up to its call of `proxy`.
unfoldable pub select : List ProxyLocation → Text → Option Text → Fallible Selection
unfolding or_prefix
select proxies path query =
    if reserved path then err route_not_found else elim (find (is_exact path) proxies) [
      | some route ↦ ok (forward route)
      | none ↦ or_prefix proxies path query
    ]

-- What `proxy_pass` answers: a redirect, the upstream's response, or a status of its own.
pub data Answer (Response : Type 0) : Type 0 where
  redirect : Text → Answer Response
  upstream : Response → Answer Response
  refuse : ℕ → Answer Response

module _ {Response : Type 0} where
  abbrev pub answer_error : Error → Answer Response
  answer_error io = refuse 502
  answer_error io_invalid_input = refuse 502
  answer_error e = refuse (status e)

  abbrev pub answer_result : Result Error Response → Answer Response
  answer_result (ok response) = upstream response
  answer_result (err e) = answer_error e

  -- `proxy` is the module `Proxy`'s exchange with the upstream.
  unfoldable pub proxy_pass :
      (ProxyLocation → Fallible Response)
      → List ProxyLocation
      → Text
      → Option Text
      → Answer Response
  proxy_pass proxy proxies path query = elim (select proxies path query) [
    | err e ↦ answer_error e
    | ok (moved_permanently location) ↦ redirect location
    | ok (forward route) ↦ answer_result (proxy route)
  ]
