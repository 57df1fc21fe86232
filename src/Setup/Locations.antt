-- ===== src/Setup/Locations.antt =====
-- src/setup.rs, `parse_proxies`: what holds of the proxy locations of a configuration.
use pishoo.Base.{
  Bool, true, false, not, ◌||◌, none, List, [], ◌∷◌, Text, text_eq, text_eq_iff, any, All, ◌≡◌, ◌≢◌,
  inl, inr, sym, if◌then◌else◌, ok, Result-cases, Option-cases, Bool-cases, arith, or-false, subst,
}
use pishoo.Routes.{UriParts, ProxyLocation, reserved}
use pishoo.Setup.{
  Addresses, path_of, valid_path, is_local, is_pathless, parse_upstream, refused_location,
  parse_rows, put, sort, parse_proxies, text_less, upstream_mark, uri_text,
}

-- A location that requests may be forwarded from, to an endpoint of this machine.
abbrev pub IsMount : Addresses → ProxyLocation → Type 0
IsMount addresses p =
    (valid_path (path_of p.location) ≡ true)
    × (reserved (path_of p.location) ≡ false)
    × (is_local addresses p.proxy_pass ≡ true)

abbrev pub Differs : ProxyLocation → ProxyLocation → Type 0
Differs p q = p.location ≢ q.location

-- No two locations are the same.
abbrev pub AreDistinct : List ProxyLocation → Type 0
AreDistinct [] = Unit
AreDistinct (p ∷ ps) = All (Differs p) ps × AreDistinct ps

module _ (addresses : Addresses) where
  is_local_pathless :
      (parts : UriParts) (b : Bool)
      → is_local addresses parts ≡ true
      → is_local addresses (if◌then◌else◌ b (record parts { path_and_query = none }) parts) ≡ true
  unfolding is_local
  is_local_pathless parts true h = h
  is_local_pathless parts false h = h

  parse_upstream-is_local :
      (upstream : Text) {parts : UriParts}
      → parse_upstream addresses upstream ≡ ok parts
      → is_local addresses parts ≡ true
  unfolding parse_upstream
  parse_upstream-is_local upstream {parts} h =
      let bare = addresses.parse_address upstream in
      let uri = uri_text upstream bare in
      elim (Option-cases (addresses.parse_uri uri)) [
        | inl unparsed ↦ ground arith
        | inr (read, e) ↦
            elim (Bool-cases (not (is_local addresses read) || any upstream_mark upstream)) [
              | inl bad ↦ ground arith
              | inr good ↦
                  let local : is_local addresses read ≡ true = ground (
                    arith,
                    or-false (not (is_local addresses read)) (any upstream_mark upstream) good,
                  ) in
                  let kept = is_local_pathless read (is_pathless uri bare) local in ground arith
            ]
      ]

abbrev IsNew : List Text → ProxyLocation → Type 0
IsNew seen p = any (text_eq p.location) seen ≡ false

distinct_of_IsNew :
    (p : ProxyLocation) (seen : List Text) (ps : List ProxyLocation)
    → All (IsNew (p.location ∷ seen)) ps
    → All (Differs p) ps × All (IsNew seen) ps
distinct_of_IsNew p seen [] h = (tt, tt)
distinct_of_IsNew p seen (q ∷ qs) (h, hs) =
    let parts = or-false (text_eq q.location p.location) (any (text_eq q.location) seen) h in
    let rest = distinct_of_IsNew p seen qs hs in
    (
      (λ e. ground (arith, parts.0, (text_eq_iff q.location p.location).1 (sym e)), rest.0),
      (parts.1, rest.1),
    )

module _ (addresses : Addresses) where
  accepted-IsMount :
      (location : Text) (seen : List Text) (parts : UriParts)
      → refused_location location seen ≡ false
      → is_local addresses parts ≡ true
      → IsMount addresses (record { location = location; proxy_pass = parts })
        × (any (text_eq location) seen ≡ false)
  accepted-IsMount location seen parts h local =
      let outer =
        or-false (not (valid_path (path_of location)) || any (text_eq location) seen)
          (reserved (path_of location)) h in
      let inner =
        or-false (not (valid_path (path_of location))) (any (text_eq location) seen) outer.0 in
      ((ground arith, outer.1, local), inner.1)

  parse_rows-AreDistinct :
      (seen : List Text) (rows : List (Text × Text)) {ps : List ProxyLocation}
      → parse_rows addresses seen rows ≡ ok ps
      → All (IsMount addresses) ps × All (IsNew seen) ps × AreDistinct ps
  unfolding parse_rows
  parse_rows-AreDistinct seen [] {ps} h =
      let e : [] ≡ ps = ground arith in
      subst (λ l. All (IsMount addresses) l × All (IsNew seen) l × AreDistinct l) e (tt, tt, tt)
  parse_rows-AreDistinct seen ((location, upstream) ∷ rows) {ps} h =
      elim (Bool-cases (refused_location location seen)) [
        | inl bad ↦ ground arith
        | inr good ↦ elim (Result-cases (parse_upstream addresses upstream)) [
          | inr (e, fails) ↦ ground arith
          | inl (parts, parsed) ↦
              elim (Result-cases (parse_rows addresses (location ∷ seen) rows)) [
                | inr (e, fails) ↦ ground arith
                | inl (others, e) ↦
                    let p : ProxyLocation = record { location = location; proxy_pass = parts } in
                    let whole : p ∷ others ≡ ps = ground arith in
                    let rest = parse_rows-AreDistinct (location ∷ seen) rows e in
                    let apart = distinct_of_IsNew p seen others rest.1 in
                    let fits =
                      accepted-IsMount location seen parts good
                        (parse_upstream-is_local addresses upstream parsed) in
                    subst (λ l. All (IsMount addresses) l × All (IsNew seen) l × AreDistinct l)
                      whole ((fits.0, rest.0), (fits.1, apart.1), (apart.0, rest.2))
              ]
        ]
      ]

module _ (P : ProxyLocation → Type 0) where
  put-All : (p : ProxyLocation) (ps : List ProxyLocation) → P p → All P ps → All P (put p ps)
  unfolding put
  put-All p [] h hs = (h, tt)
  put-All p (q ∷ qs) h (k, ks) = go (text_less q.location p.location) (put-All p qs h ks)
    where
      go : (b : Bool) → All P (put p qs) → All P (if b then q ∷ put p qs else p ∷ q ∷ qs)
      go true rest = (k, rest)
      go false rest = (h, (k, ks))

  sort-All : (ps : List ProxyLocation) → All P ps → All P (sort ps)
  unfolding sort
  sort-All [] hs = tt
  sort-All (p ∷ ps) (h, hs) = put-All p (sort ps) h (sort-All ps hs)

put-AreDistinct :
    (p : ProxyLocation) (ps : List ProxyLocation)
    → All (Differs p) ps
    → AreDistinct ps
    → AreDistinct (put p ps)
unfolding put
put-AreDistinct p [] h d = (tt, tt)
put-AreDistinct p (q ∷ qs) (h, hs) (k, d) =
    go (text_less q.location p.location) (put-AreDistinct p qs hs d)
  where
    go : (b : Bool) → AreDistinct (put p qs) → AreDistinct (if b then q ∷ put p qs else p ∷ q ∷ qs)
    go true rest = (put-All (Differs q) p qs (λ e. h (sym e)) k, rest)
    go false rest = ((h, hs), (k, d))

sort-AreDistinct : (ps : List ProxyLocation) → AreDistinct ps → AreDistinct (sort ps)
unfolding sort
sort-AreDistinct [] d = tt
sort-AreDistinct (p ∷ ps) (h, d) =
    put-AreDistinct p (sort ps) (sort-All (Differs p) ps h) (sort-AreDistinct ps d)

module _ (addresses : Addresses) where
  -- The locations of a configuration that is accepted have valid paths outside the reserved
  -- namespace, lead to a loopback address by http, and no two of them are the same.
  pub parse_proxies-AreDistinct :
      (rows : List (Text × Text)) {ps : List ProxyLocation}
      → parse_proxies addresses rows ≡ ok ps
      → All (IsMount addresses) ps × AreDistinct ps
  unfolding parse_proxies
  parse_proxies-AreDistinct rows {ps} h = elim (Result-cases (parse_rows addresses [] rows)) [
    | inr (e, fails) ↦ ground arith
    | inl (parsed, e) ↦
        let holds = parse_rows-AreDistinct addresses [] rows e in
        let sorted : sort parsed ≡ ps = ground arith in
        subst (λ l. All (IsMount addresses) l × AreDistinct l) sorted
          (sort-All (IsMount addresses) parsed holds.0, sort-AreDistinct parsed holds.2)
  ]
