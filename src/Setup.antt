-- ===== src/Setup.antt =====
-- src/setup.rs: the proxy locations of a configuration. The parsers of socket addresses and of
-- URIs are parameters.
pub mod Locations
pub mod Database
pub mod Requests
pub mod Transactions
pub mod Atomicity
pub mod Owner
pub mod Rules
mod Tests
use pishoo.Base.{
  ℕ, String, Bool, true, false, not, ◌&&◌, ◌||◌, Option, none, some, List, [], ◌∷◌, ◌++◌, Text,
  chars, text_eq, strip_prefix, starts_with, split, contains_char, has_double, any, is_control,
  is_whitespace, is_some, if◌then◌else◌, Result, ok, err, ◌>>=◌, ok_or, ◌==◌, ltb, ◌≡◌, refl, All,
}
use pishoo.Failure.{Error, Fallible, invalid_config}
use pishoo.Routes.{PathAndQuery, UriParts, ProxyLocation, reserved, with_query}
use pishoo.Package.Names.{dot_part}

-- `std::net::SocketAddr`, with its text
pub record SocketAddr : Type 0 where
  pub text : Text
  pub is_loopback : Bool
  pub port : ℕ

pub record Addresses : Type 0 where
  pub parse_address : Text → Option SocketAddr
  pub parse_uri : Text → Option UriParts

-- `location.strip_prefix("= ").unwrap_or(&location)`
abbrev pub path_or : Text → Option Text → Text
path_or location none = location
path_or location (some rest) = rest

unfoldable pub path_of : Text → Text
path_of location = path_or location (strip_prefix (chars "= ") location)

abbrev pub path_mark : ℕ → Bool
path_mark c = c == b'?' || c == b'#' || c == b'%' || c == 0x5c

abbrev pub blank : ℕ → Bool
blank c = is_whitespace c || is_control c

unfoldable pub valid_path : Text → Bool
valid_path path =
    starts_with (chars "/") path
    && not (has_double b'/' path)
    && not (any path_mark path)
    && not (any dot_part (split b'/' path))
    && not (any blank path)

-- `uri.split_once("://")` and its second part
unfoldable pub after_scheme : Text → Option Text
after_scheme [] = none
after_scheme (c ∷ s) =
    let rest = after_scheme s in
    elim (strip_prefix (chars "://") (c ∷ s)) [ none ↦ rest | some tail ↦ some tail ]

unfoldable pub uri_text : Text → Option SocketAddr → Text
uri_text upstream none = upstream
uri_text upstream (some address) = chars "http://" ++ address.text

abbrev pub local_port : SocketAddr → Bool
local_port a = a.is_loopback && not (a.port == 0)

abbrev pub is_text : Text → Option Text → Bool
is_text t none = false
is_text t (some s) = text_eq s t

abbrev pub upstream_mark : ℕ → Bool
upstream_mark c = c == b'?' || c == b'#' || c == b'$'

unfoldable pub is_pathless : Text → Option SocketAddr → Bool
is_pathless uri bare =
    is_some bare || elim (after_scheme uri) [ none ↦ false | some r ↦ not (contains_char b'/' r) ]

abbrev pub refused_location : Text → List Text → Bool
refused_location location seen =
    not (valid_path (path_of location))
    || any (text_eq location) seen
    || reserved (path_of location)

module _ (addresses : Addresses) where
  abbrev pub address_of : Option Text → Option SocketAddr
  address_of none = none
  address_of (some authority) = addresses.parse_address authority

  -- The scheme is http and the authority a loopback address with a port.
  unfoldable pub is_local : UriParts → Bool
  is_local parts =
      is_text (chars "http") parts.scheme
      && elim (address_of parts.authority) [ none ↦ false | some a ↦ local_port a ]

  unfoldable pub parse_upstream : Text → Fallible UriParts
  parse_upstream upstream =
      let bare = addresses.parse_address upstream in
      let uri = uri_text upstream bare in
      elim (addresses.parse_uri uri) [
        | none ↦ err (invalid_config "invalid proxy URI")
        | some parts ↦
            if not (is_local parts) || any upstream_mark upstream
            then err (invalid_config "proxy_pass must identify a local HTTP/TCP endpoint")
            else ok (if is_pathless uri bare then record parts { path_and_query = none } else parts)
      ]

  -- The loop; `seen` holds the locations before.
  unfoldable pub parse_rows : List Text → List (Text × Text) → Fallible (List ProxyLocation)
  parse_rows seen [] = ok []
  parse_rows seen ((location, upstream) ∷ rows) =
      let rest = parse_rows (location ∷ seen) rows in
      if refused_location location seen
      then err (invalid_config "invalid or reserved proxy location")
      else parse_upstream upstream >>= λ parts.
          rest >>= λ others. ok (record { location = location; proxy_pass = parts } ∷ others)

-- The order of `String`
unfoldable pub text_less : Text → Text → Bool
text_less [] [] = false
text_less [] (d ∷ t) = true
text_less (c ∷ s) [] = false
text_less (c ∷ s) (d ∷ t) = ltb c d || (c == d && text_less s t)

-- `sort_by(|a, b| a.location.cmp(&b.location))`, which is stable
unfoldable pub put : ProxyLocation → List ProxyLocation → List ProxyLocation
put p [] = p ∷ []
put p (q ∷ qs) =
    let rest = put p qs in if text_less q.location p.location then q ∷ rest else p ∷ q ∷ qs

unfoldable pub sort : List ProxyLocation → List ProxyLocation
sort [] = []
sort (p ∷ ps) = put p (sort ps)

unfoldable pub parse_proxies : Addresses → List (Text × Text) → Fallible (List ProxyLocation)
unfolding parse_rows sort
parse_proxies addresses rows = parse_rows addresses [] rows >>= λ proxies. ok (sort proxies)

abbrev pub or_empty : Option Text → Text
or_empty none = []
or_empty (some t) = t

abbrev pub path_text : Option PathAndQuery → Text
path_text none = []
path_text (some p) = with_query p.path p.query

-- `unwrap` on a missing scheme or authority panics; `is_local` has them.
unfoldable pub upstream_text : ProxyLocation → Text
upstream_text proxy =
    or_empty proxy.proxy_pass.scheme
    ++ (chars "://"
        ++ (or_empty proxy.proxy_pass.authority ++ path_text proxy.proxy_pass.path_and_query))
