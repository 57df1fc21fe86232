-- ===== src/Routes/Tests.antt =====
-- Requests for a small table of locations.
use pishoo.Base.{
  ◌≡◌, ◌≢◌, refl, false, Option, none, some, List, [], ◌∷◌, Text, chars, text_eq, strip_prefix,
  starts_with, ends_with, trim_end, len, has_double, ok, err,
}
use pishoo.Failure.{route_not_found}
use pishoo.Routes.{
  PathAndQuery, UriParts, ProxyLocation, moved_permanently, forward, reserved, base_of, is_exact,
  is_bare, covers, longest, by_prefix, or_prefix, select,
}
use pishoo.Routes.Forwarding.{IsForwarded, select-IsForwarded}
use pishoo.Routes.Upstream.{suffix_of, target_path, proxy_uri, proxy_uri-select}

abbrev local : UriParts
local = record {
  scheme = some (chars "http");
  authority = some (chars "127.0.0.1:80");
  path_and_query = some (record { path = chars "/v1/"; query = none });
}

abbrev at : Text → ProxyLocation
at location = record { location = location; proxy_pass = local }

abbrev table : List ProxyLocation
table = at (chars "/") ∷ at (chars "/api/") ∷ at (chars "= /exact") ∷ []

routing : Unit {0}
unfolding reserved is_exact is_bare covers longest by_prefix or_prefix select suffix_of target_path
    proxy_uri strip_prefix len base_of trim_end ends_with text_eq starts_with has_double
routing = tt

api_request : select table (chars "/api/x") none ≡ ok (forward (at (chars "/api/")))
unfolding routing
api_request = refl

other_requests :
    (select table (chars "/apix") none ≡ ok (forward (at (chars "/"))))
    × (select table (chars "/api") (some (chars "q")) ≡ ok (moved_permanently (chars "/api/?q")))
    × (select table (chars "/exact") none ≡ ok (forward (at (chars "= /exact"))))
    × (select table (chars "/std/sys") none ≡ err route_not_found)
unfolding routing
other_requests = (refl, refl, refl, refl)

select-IsForwarded_example : IsForwarded table (chars "/api/x") (at (chars "/api/"))
select-IsForwarded_example = select-IsForwarded table (chars "/api/x") none _ api_request

abbrev parse_any : Text → Option PathAndQuery
parse_any path = some (record { path = path; query = none })

single_slashes : has_double 47 (chars "/api/") ≡ false
unfolding routing
single_slashes = refl

proxy_uri-select_example :
    proxy_uri parse_any some (at (chars "/api/")) (chars "/api/x") none ≢ err route_not_found
proxy_uri-select_example =
    proxy_uri-select parse_any some table (chars "/api/x") none (at (chars "/api/"))
      (chars "api/x", refl) single_slashes api_request
