-- ===== src/Routes/Upstream.antt =====
-- src/routes/proxy.rs, `proxy_uri`: the target of a forwarded request. The parsers of the crate
-- `http` are parameters.
use pishoo.Base.{
  ◌≡◌, refl, sym, ◌∙◌, ap, ◌≢◌, true, false, Option, none, some, List, [], ◌++◌, Text, chars,
  text_eq, starts_with, strip_prefix, strip_prefix-append, ends_with, has_double, ok_or, ok, err,
  inl, inr, Bool-cases, Option-cases, arith, if◌then◌else◌, ◌>>=◌,
}
use mathlib.Core.List.{append-nil, append_assoc}
use pishoo.Routes.Forwarding.{IsUnder, all_paths, same, below, IsPrefixLocation, covers_sound}
use pishoo.Base.{text_eq_refl, ◌&&◌}
use pishoo.Failure.{Fallible, route_not_found, bad_request}
use pishoo.Routes.{
  PathAndQuery, UriParts, ProxyLocation, with_query, base_of, is_exact, is_bare, covers, select,
  forward,
}
use pishoo.Routes.Paths.{trim_end_of_other, trim_end_of_single}
use pishoo.Routes.Forwarding.{select_prefix_lem}

-- `uri.path().strip_prefix(&route.location)`, for a route that names one path: nothing
unfoldable pub suffix_of : Text → Text → Fallible Text
suffix_of location path =
    if starts_with (chars "= ") location
    then ok []
    else ok_or (strip_prefix location path) route_not_found

unfoldable pub target_path : ProxyLocation → Text → Fallible Text
target_path route path = elim route.proxy_pass.path_and_query [
  | none ↦ ok path
  | some base ↦ suffix_of route.location path >>= λ suffix. ok (base.path ++ suffix)
]

module _ {Uri : Type 0} (parse_path : Text → Option PathAndQuery)
    (from_parts : UriParts → Option Uri) where
  unfoldable pub proxy_uri : ProxyLocation → Text → Option Text → Fallible Uri
  unfolding target_path suffix_of
  proxy_uri route path query = do
    target ← target_path route path
    parsed ← ok_or (parse_path (with_query target query)) (bad_request "invalid upstream path")
    ok_or
        (from_parts (record {
          scheme = route.proxy_pass.scheme;
          authority = route.proxy_pass.authority;
          path_and_query = some parsed;
        }))
        (bad_request "invalid upstream URI")

  proxy_uri_of_target :
      (route : ProxyLocation) (path : Text) (query : Option Text) {t : Text}
      → target_path route path ≡ ok t
      → proxy_uri route path query ≢ err route_not_found
  unfolding proxy_uri
  proxy_uri_of_target route path query h = ground arith

target_path_of_suffix :
    (route : ProxyLocation) (path : Text) {t : Text}
    → suffix_of route.location path ≡ ok t
    → (u : Text) × (target_path route path ≡ ok u)
unfolding target_path
target_path_of_suffix route path {t} h = elim (Option-cases route.proxy_pass.path_and_query) [
  | inl empty ↦ (path, ground arith)
  | inr (base, e) ↦ (base.path ++ t, ground arith)
]

is_exact-suffix :
    (path : Text) (p : ProxyLocation) → is_exact path p ≡ true → suffix_of p.location path ≡ ok []
unfolding is_exact suffix_of starts_with
is_exact-suffix path p h = ground arith

suffix_of_append :
    (location t : Text) → IsPrefixLocation location → suffix_of location (location ++ t) ≡ ok t
unfolding suffix_of starts_with strip_prefix
suffix_of_append location t (u, e) =
    let plain : starts_with (chars "= ") location ≡ false = rw e refl in
    let found : strip_prefix location (location ++ t) ≡ some t = strip_prefix-append location t in
    ground arith

-- The path of a request that a location covers continues the location, unless it is the bare path
-- of a location with a slash at the end.
under_continues :
    (location path : Text)
    → has_double b'/' location ≡ false
    → IsUnder location path
    → IsPrefixLocation path
    → (ends_with b'/' location && text_eq (base_of location) path) ≡ false
    → (t : Text) × (path ≡ location ++ t)
unfolding base_of
under_continues location path single (all_paths e) (t, p) bare = (t, rw (e, p) refl)
under_continues location path single (same e) slash bare =
    elim (Bool-cases (ends_with b'/' location)) [
      | inl ends ↦
          let equal : text_eq (base_of location) path ≡ true =
            rw e (text_eq_refl (base_of location)) in
          let conflict : true ≡ false = ground arith in absurd (cc conflict)
      | inr plain ↦ ([], e ∙ trim_end_of_other b'/' location plain ∙ sym (append-nil location))
    ]
under_continues location path single (below rest e) slash bare =
    elim (Bool-cases (ends_with b'/' location)) [
      | inl ends ↦ (rest, e ∙ ap (λ l. l ++ rest) (trim_end_of_single b'/' location ends single))
      | inr plain ↦ (
        chars "/" ++ rest,
        e
            ∙ append_assoc (base_of location) (chars "/") rest
            ∙ ap (λ l. l ++ (chars "/" ++ rest)) (trim_end_of_other b'/' location plain),
      )
    ]

covered-suffix :
    (path : Text) (p : ProxyLocation)
    → has_double b'/' p.location ≡ false
    → IsPrefixLocation path
    → covers path p ≡ true
    → is_bare path p ≡ false
    → (t : Text) × (suffix_of p.location path ≡ ok t)
unfolding is_bare
covered-suffix path p single slash covering bare =
    let (prefix, under) = covers_sound path p covering in
    let (t, e) = under_continues p.location path single under slash bare in
    (t, ap (suffix_of p.location) e ∙ suffix_of_append p.location t prefix)

-- Every request that is forwarded has a target: for a path that begins with a slash and a location
-- without doubled slashes, `proxy_uri` does not answer that there is no route.
pub proxy_uri-select :
    {Uri : Type 0} (parse_path : Text → Option PathAndQuery) (from_parts : UriParts → Option Uri)
    (proxies : List ProxyLocation) (path : Text) (query : Option Text) (r : ProxyLocation)
    → IsPrefixLocation path
    → has_double b'/' r.location ≡ false
    → select proxies path query ≡ ok (forward r)
    → proxy_uri parse_path from_parts r path query ≢ err route_not_found
proxy_uri-select parse_path from_parts proxies path query r slash single h =
    elim (select_prefix_lem proxies path query r h) [
      | inl exact ↦
          let (u, e) = target_path_of_suffix r path (is_exact-suffix path r exact) in
          proxy_uri_of_target parse_path from_parts r path query e
      | inr (covering, bare) ↦
          let (t, found) = covered-suffix path r single slash covering bare in
          let (u, e) = target_path_of_suffix r path found in
          proxy_uri_of_target parse_path from_parts r path query e
    ]
