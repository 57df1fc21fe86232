-- ===== src/Routes/Forwarding.antt =====
-- Which location a request is forwarded to.
use pishoo.Base.{
  ◌≢◌, strip_prefix-append, text_eq_refl, starts_with-append, ◌≤◌, ◌≡◌, refl, Bool, true, false,
  ◌||◌, Option, none, some, List, [], ◌∷◌, ◌++◌, Text, chars, text_eq, eq_of_text_eq, starts_with,
  starts_with_sound, strip_prefix, strip_prefix_sound, len, find, filter, find_sound, find-none,
  All, All-In, In, here, there, ltb, Bool-cases, Option-cases, and-parts, or-parts, ◌⊎◌, inl, inr,
  ok, arith,
}
use pishoo.Routes.{
  ProxyLocation, reserved, base_of, is_exact, is_bare, covers, longest, by_prefix, or_prefix,
  select, forward,
}

-- What a location without the mark `= ` stands for: `/` for every path, and any other for its base
-- and the paths below it, at a boundary between segments.
pub data IsUnder (location path : Text) : Type 0 where
  all_paths : location ≡ chars "/" → IsUnder location path
  same : path ≡ base_of location → IsUnder location path
  below : (rest : Text) → path ≡ (base_of location ++ chars "/") ++ rest → IsUnder location path

abbrev pub IsPrefixLocation : Text → Type 0
IsPrefixLocation location = (rest : Text) × (location ≡ chars "/" ++ rest)

module _ (p : ProxyLocation → Bool) where
  In-cons-filter :
      (x : ProxyLocation) (ps : List ProxyLocation) {a : ProxyLocation}
      → p x ≡ true
      → (In a (filter p ps) → In a ps × (p a ≡ true))
      → In a (x ∷ filter p ps)
      → In a (x ∷ ps) × (p a ≡ true)
  In-cons-filter x ps keep ih (here e) = (here e, rw (← e) keep)
  In-cons-filter x ps keep ih (there m) = let r = ih m in (there r.0, r.1)

  In-filter :
      (ps : List ProxyLocation) {a : ProxyLocation} → In a (filter p ps) → In a ps × (p a ≡ true)
  In-filter [] m = elim m [ ]
  In-filter (x ∷ ps) m = elim (Bool-cases (p x)) [
    | inl keep ↦ In-cons-filter x ps keep (In-filter ps) (rw keep at m)
    | inr drop ↦ let r = In-filter ps (rw drop at m) in (there r.0, r.1)
  ]

  All-filter :
      (P : ProxyLocation → Type 0) (ps : List ProxyLocation)
      → All P (filter p ps)
      → All (λ q. p q ≡ true → P q) ps
  All-filter P [] h = tt
  All-filter P (x ∷ ps) h = elim (Bool-cases (p x)) [
    | inl keep ↦ let h' = rw keep at h in ((λ _. h'.0), All-filter P ps h'.1)
    | inr drop ↦ ((λ e. cc), All-filter P ps (rw drop at h))
  ]

longest-none : (ps : List ProxyLocation) → longest ps ≡ none → ps ≡ []
unfolding longest
longest-none [] h = refl
longest-none (x ∷ ps) h = ground arith

module _ {P : ProxyLocation → Type 0} where
  All-map :
      {Q : ProxyLocation → Type 0} (f : (q : ProxyLocation) → P q → Q q) (ps : List ProxyLocation)
      → All P ps
      → All Q ps
  All-map f [] h = tt
  All-map f (x ∷ ps) (p, h) = (f x p, All-map f ps h)

-- The longest location is at least as long as each.
longest_bound :
    (ps : List ProxyLocation) {best : ProxyLocation}
    → longest ps ≡ some best
    → All (λ q. len q.location ≤ len best.location) ps
unfolding longest
longest_bound [] h = tt
longest_bound (x ∷ ps) {best} h = elim (Option-cases (longest ps)) [
  | inl empty ↦ rw (longest-none ps empty) (ground arith, tt)
  | inr (b, found) ↦ elim (Bool-cases (ltb (len b.location) (len x.location))) [
    | inl longer ↦ (ground arith, All-map (λ q le_b. ground arith) ps (longest_bound ps found))
    | inr kept ↦ (ground arith, longest_bound ps {best = best} (ground arith))
  ]
]

longest-In : (ps : List ProxyLocation) {best : ProxyLocation} → longest ps ≡ some best → In best ps
unfolding longest
longest-In [] h = cc
longest-In (x ∷ ps) {best} h = elim (Option-cases (longest ps)) [
  | inl empty ↦ here (ground arith)
  | inr (b, found) ↦ elim (Bool-cases (ltb (len b.location) (len x.location))) [
    | inl longer ↦ here (ground arith)
    | inr kept ↦ there (longest-In ps (ground arith))
  ]
]

pub covers_sound :
    (path : Text) (p : ProxyLocation)
    → covers path p ≡ true
    → IsPrefixLocation p.location × IsUnder p.location path
unfolding covers
covers_sound path p h =
    let (slash, rest) = and-parts _ _ h in
    (
      starts_with_sound _ _ slash,
      elim (or-parts _ _ rest) [
        | inl short ↦ elim (or-parts _ _ short) [
          | inl root ↦ all_paths (eq_of_text_eq _ _ root)
          | inr equal ↦ same (eq_of_text_eq _ _ equal)
        ]
        | inr longer ↦ let (tail, e) = starts_with_sound _ _ longer in below tail e
      ],
    )

under_test :
    (path location : Text)
    → IsUnder location path
    → (text_eq location (chars "/")
        || text_eq path (base_of location)
        || starts_with (base_of location ++ chars "/") path)
      ≡ true
under_test path location (all_paths e) =
    let root : text_eq location (chars "/") ≡ true = rw e (text_eq_refl (chars "/")) in ground arith
under_test path location (same e) =
    let equal : text_eq path (base_of location) ≡ true = rw e (text_eq_refl (base_of location)) in
    ground arith
under_test path location (below rest e) =
    let longer : starts_with (base_of location ++ chars "/") path ≡ true =
      rw e (starts_with-append (base_of location ++ chars "/") rest) in
    ground arith

covers_complete :
    (path : Text) (p : ProxyLocation)
    → IsPrefixLocation p.location
    → IsUnder p.location path
    → covers path p ≡ true
unfolding covers
covers_complete path p (t, e) under =
    let slash : starts_with (chars "/") p.location ≡ true =
      rw e (starts_with-append (chars "/") t) in
    let inside = under_test path p.location under in ground arith

-- A route that a request is forwarded to.
pub record IsForwarded (proxies : List ProxyLocation) (path : Text) (r : ProxyLocation)
    : Type 0 where
  pub listed : In r proxies
  pub unreserved : reserved path ≡ false
  pub reason :
      (r.location ≡ chars "= " ++ path)
      ⊎ (IsUnder r.location path
          × ((q : ProxyLocation) → In q proxies → q.location ≢ chars "= " ++ path)
          × ((q : ProxyLocation)
              → In q proxies
              → IsPrefixLocation q.location
              → IsUnder q.location path
              → len q.location ≤ len r.location))

is_exact_sound :
    (path : Text) (p : ProxyLocation) → is_exact path p ≡ true → p.location ≡ chars "= " ++ path
unfolding is_exact
is_exact_sound path p h = elim (Option-cases (strip_prefix (chars "= ") p.location)) [
  | inl missing ↦ ground arith
  | inr (rest, found) ↦
      let e = strip_prefix_sound _ _ _ found in
      let same_rest : rest ≡ path = eq_of_text_eq rest path (ground arith) in rw (← same_rest) e
]

is_exact_complete :
    (path : Text) (p : ProxyLocation) → p.location ≡ chars "= " ++ path → is_exact path p ≡ true
unfolding is_exact
is_exact_complete path p e =
    rw (e, is_exact) (rw (strip_prefix-append (chars "= ") path) (text_eq_refl path))

by_prefix_lem :
    (proxies : List ProxyLocation) (path : Text) (r : ProxyLocation)
    → by_prefix proxies path ≡ ok (forward r)
    → longest (filter (covers path) proxies) ≡ some r
unfolding by_prefix
by_prefix_lem proxies path r h = ground arith

or_prefix_lem :
    (proxies : List ProxyLocation) (path : Text) (query : Option Text) (r : ProxyLocation)
    → or_prefix proxies path query ≡ ok (forward r)
    → (by_prefix proxies path ≡ ok (forward r)) × (find (is_bare path) proxies ≡ none)
unfolding or_prefix
or_prefix_lem proxies path query r h = ground arith

select_cases :
    (proxies : List ProxyLocation) (path : Text) (query : Option Text) (r : ProxyLocation)
    → select proxies path query ≡ ok (forward r)
    → (reserved path ≡ false)
      × ((find (is_exact path) proxies ≡ some r)
          ⊎ ((find (is_exact path) proxies ≡ none)
              × (or_prefix proxies path query ≡ ok (forward r))))
unfolding select
select_cases proxies path query r h = ground arith

prefix_reason :
    (proxies : List ProxyLocation) (path : Text) (query : Option Text) (r : ProxyLocation)
    → find (is_exact path) proxies ≡ none
    → longest (filter (covers path) proxies) ≡ some r
    → reserved path ≡ false
    → IsForwarded proxies path r
prefix_reason proxies path query r no_exact chosen free =
    let (listed, covering) = In-filter (covers path) proxies (longest-In _ chosen) in
    let bounds =
      All-filter (covers path) (λ q. len q.location ≤ len r.location) proxies
        (longest_bound (filter (covers path) proxies) chosen) in
    let others = find-none (is_exact path) proxies no_exact in
    record {
      listed = listed;
      unreserved = free;
      reason = inr (
        (covers_sound path r covering).1,
        (λ q m e.
            cc
              (All-In (λ p. is_exact path p ≡ false) proxies others m, is_exact_complete path q e)),
        (λ q m slash under.
            All-In (λ p. covers path p ≡ true → len p.location ≤ len r.location) proxies bounds m
              (covers_complete path q slash under)),
      );
    }

-- A request is forwarded only to a configured location, and never for a reserved path. Either the
-- location is exactly the path, or no location is and it is the longest of those that the path
-- lies under, where a location ends at a boundary between segments.
pub select-IsForwarded :
    (proxies : List ProxyLocation) (path : Text) (query : Option Text) (r : ProxyLocation)
    → select proxies path query ≡ ok (forward r)
    → IsForwarded proxies path r
select-IsForwarded proxies path query r h =
    let (free, chosen) = select_cases proxies path query r h in
    elim chosen [
      | inl exact ↦
          let (listed, matches) = find_sound (is_exact path) proxies exact in
          record {
            listed = listed;
            unreserved = free;
            reason = inl (is_exact_sound path r matches);
          }
      | inr (no_exact, rest) ↦
          let (by, bare) = or_prefix_lem proxies path query r rest in
          prefix_reason proxies path query r no_exact (by_prefix_lem proxies path r by) free
    ]

-- A location that ends in a slash is not chosen by prefix for its own bare path.
pub select_prefix_lem :
    (proxies : List ProxyLocation) (path : Text) (query : Option Text) (r : ProxyLocation)
    → select proxies path query ≡ ok (forward r)
    → (is_exact path r ≡ true) ⊎ ((covers path r ≡ true) × (is_bare path r ≡ false))
select_prefix_lem proxies path query r h =
    let (free, chosen) = select_cases proxies path query r h in
    elim chosen [
      | inl exact ↦ inl (find_sound (is_exact path) proxies exact).1
      | inr (no_exact, rest) ↦
          let (by, bare) = or_prefix_lem proxies path query r rest in
          let (listed, covering) =
            In-filter (covers path) proxies (longest-In _ (by_prefix_lem proxies path r by)) in
          inr (
            covering,
            All-In (λ p. is_bare path p ≡ false) proxies (find-none (is_bare path) proxies bare)
                listed,
          )
    ]
