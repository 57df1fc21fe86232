-- ===== src/Package/Store/Rounds.antt =====
-- src/package/store.rs, `install_store_package`: the rounds of the loop that collects packages.
use pishoo.Base.{
  In-append, ℕ, zero, suc, ◌+◌, ◌-◌, ◌*◌, ◌≤◌, true, false, some, List, [], ◌∷◌, ◌++◌, chars,
  text_eq, eq_of_text_eq, find, find_sound, find-none, All, In, here, there, length, length-append,
  ◌≡◌, refl, sym, ap, subst, ◌⊎◌, inl, inr, ok, err, Bool-cases, Result-cases, Option-cases, arith,
}
use pishoo.Failure.{Fallible}
use pishoo.Values.{Values, at, is_text}
use pishoo.Package.Store.{Dependency, Resource, Proof, dependency_id}
use pishoo.Package.Store.Order.{has_id}
use pishoo.Package.Store.Progress.{In-last}
use pishoo.Package.Store.Collect.{
  Bytes, InstalledEntry, push_all, has_version, fetch, collect_one, collect,
}
use pishoo.Package.Store.Closure.{
  push_all-In, length-push_all, AreNew, IsHeld, IsHeldOrPending, IsServed, IsProgress,
  AreNew-append, All-IsServed, fetch-dependencies,
}

module _ {Value : Type 0} (V : Values Value) (download : Dependency → Fallible (Bytes × Value))
    (dependencies : Resource (Proof Value) → Fallible (List Dependency))
    (installed : List InstalledEntry) where
  -- A download gives a release of the version that is asked for.
  abbrev pub IsVersioned : Type 0
  IsVersioned =
      (e : Dependency) (bytes : Bytes) (metadata : Value)
      → download e ≡ ok (bytes, metadata)
      → is_text V e.version (at V (chars "version") metadata) ≡ true

  -- The package is not there yet and is fetched, or is there at the version.
  collect_one-cases :
      (d : Dependency) (pending : List Dependency) (resources : List (Resource (Proof Value)))
      {next : List Dependency} {more : List (Resource (Proof Value))}
      → collect_one V download dependencies installed d pending resources ≡ ok (next, more)
      → (IsHeld V download dependencies resources d × (next ≡ pending) × (more ≡ resources))
        ⊎ ((r : Resource (Proof Value)) × (ds : List Dependency) × (fetch V download dependencies
                installed d resources
              ≡ ok (r, ds))
            × All (λ p. text_eq p.id (dependency_id d) ≡ false) resources
            × (next ≡ push_all ds pending)
            × (more ≡ resources ++ r ∷ []))
  unfolding collect_one
  collect_one-cases d pending resources {next} {more} h =
      elim (Option-cases (find (has_id (dependency_id d)) resources)) [
        | inr (r, found) ↦ elim (Bool-cases (has_version V download dependencies d.version r)) [
          | inr other ↦ ground arith
          | inl same ↦
              let (held, e) = find_sound (has_id (dependency_id d)) resources found in
              inl (
                (r, held, eq_of_text_eq r.id (dependency_id d) e, same),
                ground arith,
                ground arith,
              )
        ]
        | inl missing ↦ elim (Result-cases (fetch V download dependencies installed d resources)) [
          | inr (e, fails) ↦ ground arith
          | inl ((r, ds), fetched) ↦ inr (
            r,
            ds,
            fetched,
            find-none (has_id (dependency_id d)) resources missing,
            ground arith,
            ground arith,
          )
        ]
      ]

  -- The package that is popped is held by what the round leaves, and nothing else is lost.
  kept_by :
      (d : Dependency) (pending next : List Dependency)
      (resources more : List (Resource (Proof Value)))
      → IsHeld V download dependencies more d
      → ((e : Dependency)
          → IsHeld V download dependencies resources e
          → IsHeld V download dependencies more e)
      → ((e : Dependency) → In e pending → In e next)
      → (e : Dependency) → IsHeldOrPending V download dependencies (d ∷ pending) resources e
      → IsHeldOrPending V download dependencies next more e
  kept_by d pending next resources more held grow move e (inl h) = inl (grow e h)
  kept_by d pending next resources more held grow move e (inr (here same)) =
      inl (subst (IsHeld V download dependencies more) same held)
  kept_by d pending next resources more held grow move e (inr (there m)) = inr (move e m)

  All-append :
      (P : Resource (Proof Value) → Type 0) (rs : List (Resource (Proof Value)))
      (r : Resource (Proof Value))
      → All P rs
      → P r
      → All P (rs ++ r ∷ [])
  All-append P [] r hs h = (h, tt)
  All-append P (x ∷ rs) r (k, hs) h = (k, All-append P rs r hs h)

  pending-All :
      (ds pending : List Dependency) (resources : List (Resource (Proof Value)))
      → ((d : Dependency) → In d ds → In d pending)
      → All (IsHeldOrPending V download dependencies pending resources) ds
  pending-All [] pending resources inside = tt
  pending-All (d ∷ ds) pending resources inside =
      (inr (inside d (here refl)), pending-All ds pending resources (λ e m. inside e (there m)))

  round-IsProgress :
      (root d : Dependency) (pending : List Dependency) (resources : List (Resource (Proof Value)))
      {next : List Dependency} {more : List (Resource (Proof Value))}
      → IsVersioned
      → IsProgress V download dependencies root (d ∷ pending) resources
      → collect_one V download dependencies installed d pending resources ≡ ok (next, more)
      → IsProgress V download dependencies root next more
  round-IsProgress root d pending resources {next} {more} versioned g h =
      elim (collect_one-cases d pending resources {next = next} {more = more} h) [
        | inl (held, same_next, same_more) ↦
            let keep = kept_by d pending pending resources resources held (λ e k. k) (λ e m. m) in
            subst (λ n. IsProgress V download dependencies root n more) (sym same_next)
              (subst (IsProgress V download dependencies root pending) (sym same_more) (record {
                fresh = g.fresh;
                few = g.few;
                served =
                    All-IsServed V download dependencies (d ∷ pending) pending resources resources
                      keep resources g.served;
                wanted = keep root g.wanted;
              }))
        | inr (r, ds, fetched, new, same_next, same_more) ↦
            let (room, id, version, reads) =
              fetch-dependencies V download dependencies installed d resources {r = r} {ds = ds}
                versioned fetched in
            let keep =
              kept_by d pending (push_all ds pending) resources (resources ++ r ∷ [])
                (r, In-last resources, id, version)
                (λ e (p, at_p, same, v). (p, In-append resources (r ∷ []) at_p, same, v))
                (λ e m. push_all-In ds pending (inr m)) in
            subst (λ n. IsProgress V download dependencies root n more) (sym same_next)
              (subst (IsProgress V download dependencies root (push_all ds pending)) (sym same_more)
                (record {
                  fresh =
                      AreNew-append V download dependencies [] resources r g.fresh
                        (subst (λ i. All (λ p. text_eq p.id i ≡ false) resources) (sym id) new);
                  few = omega (arith, room, length-append resources (r ∷ []));
                  served =
                      All-append
                        (IsServed V download dependencies (push_all ds pending)
                          (resources ++ r ∷ []))
                        resources r
                        (All-IsServed V download dependencies (d ∷ pending) (push_all ds pending)
                          resources (resources ++ r ∷ []) keep resources g.served)
                        (
                          ds,
                          reads,
                          pending-All ds (push_all ds pending) (resources ++ r ∷ [])
                              (λ e m. push_all-In ds pending (inl m)),
                        );
                  wanted = keep root g.wanted;
                }))
      ]

  -- Every package was new when it was added, there are at most 100, and what any of them or the
  -- caller asks for is there at the version asked for.
  abbrev pub IsClosed : Dependency → List (Resource (Proof Value)) → Type 0
  IsClosed root resources =
      AreNew V download dependencies [] resources
      × (length resources ≤ 100)
      × IsHeld V download dependencies resources root
      × All
          (λ r.
            (ds : List Dependency) × (dependencies r ≡ ok ds)
            × All (IsHeld V download dependencies resources) ds)
          resources

  settled :
      (resources : List (Resource (Proof Value))) (d : Dependency)
      → IsHeldOrPending V download dependencies [] resources d
      → IsHeld V download dependencies resources d
  settled resources d (inl h) = h
  settled resources d (inr m) = elim m [ ]

  settled-All :
      (resources : List (Resource (Proof Value))) (ds : List Dependency)
      → All (IsHeldOrPending V download dependencies [] resources) ds
      → All (IsHeld V download dependencies resources) ds
  settled-All resources [] h = tt
  settled-All resources (d ∷ ds) (h, hs) = (settled resources d h, settled-All resources ds hs)

  settled_each :
      (resources rs : List (Resource (Proof Value)))
      → All (IsServed V download dependencies [] resources) rs
      → All
          (λ r.
            (ds : List Dependency) × (dependencies r ≡ ok ds)
            × All (IsHeld V download dependencies resources) ds)
          rs
  settled_each resources [] h = tt
  settled_each resources (r ∷ rs) ((ds, reads, h), hs) =
      ((ds, reads, settled-All resources ds h), settled_each resources rs hs)

  pub collect-IsClosed :
      (fuel : ℕ) (root : Dependency) (pending : List Dependency)
      (resources : List (Resource (Proof Value))) {result : List (Resource (Proof Value))}
      → IsVersioned
      → IsProgress V download dependencies root pending resources
      → collect V download dependencies fuel installed pending resources ≡ some (ok result)
      → IsClosed root result
  unfolding collect
  collect-IsClosed fuel root [] resources {result} versioned g h =
      let same : resources ≡ result = stopped fuel h in
      subst (IsClosed root) same
        (g.fresh, g.few, settled resources root g.wanted, settled_each resources resources g.served)
    where
      stopped :
          (n : ℕ)
          → collect V download dependencies n installed [] resources ≡ some (ok result)
          → resources ≡ result
      stopped zero e = ground arith
      stopped (suc n) e = ground arith
  collect-IsClosed zero root (d ∷ pending) resources versioned g h = ground arith
  collect-IsClosed (suc fuel) root (d ∷ pending) resources {result} versioned g h =
      elim (Result-cases (collect_one V download dependencies installed d pending resources)) [
        | inr (e, fails) ↦ ground arith
        | inl ((next, more), e) ↦
            collect-IsClosed fuel root next more versioned
              (round-IsProgress root d pending resources {next = next} {more = more} versioned g e)
              (ground arith)
      ]

  pub collect-total :
      (fuel : ℕ) (pending : List Dependency) (resources : List (Resource (Proof Value)))
      → IsVersioned
      → ((r : Resource (Proof Value)) (ds : List Dependency)
          → dependencies r ≡ ok ds
          → length ds ≤ 100)
      → length pending + 100 * (100 - length resources) ≤ fuel
      → (outcome : Fallible (List (Resource (Proof Value)))) × (collect V download dependencies fuel
            installed pending resources
          ≡ some outcome)
  unfolding collect
  collect-total zero [] resources versioned few enough = (ok resources, refl)
  collect-total (suc fuel) [] resources versioned few enough = (ok resources, refl)
  collect-total zero (d ∷ pending) resources versioned few enough = absurd (omega (arith, enough))
  collect-total (suc fuel) (d ∷ pending) resources versioned few enough =
      elim (Result-cases (collect_one V download dependencies installed d pending resources)) [
        | inr (e, fails) ↦ (err e, rw (fails, collect) refl)
        | inl ((next, more), e) ↦
            let (outcome, ends) =
              collect-total fuel next more versioned few (smaller next more e) in
            (outcome, rw (e, collect) ends)
      ]
    where
      smaller :
          (next : List Dependency) (more : List (Resource (Proof Value)))
          → collect_one V download dependencies installed d pending resources ≡ ok (next, more)
          → length next + 100 * (100 - length more) ≤ fuel
      smaller next more e =
          elim (collect_one-cases d pending resources {next = next} {more = more} e) [
            | inl (held, same_next, same_more) ↦
                omega (arith, ap (λ l. length l) same_next, ap (λ l. length l) same_more, enough)
            | inr (r, ds, fetched, new, same_next, same_more) ↦
                let (room, id, version, reads) =
                  fetch-dependencies V download dependencies installed d resources {r = r} {ds = ds}
                    versioned fetched in
                omega (
                  arith,
                  room,
                  few r ds reads,
                  ap (λ l. length l) same_next,
                  ap (λ l. length l) same_more,
                  enough,
                  length-push_all ds pending,
                  length-append resources (r ∷ []),
                )
          ]
