-- ===== src/Package/Store/Progress.antt =====
-- src/package/store.rs, `order_packages`: that an order is found where there is one.
use pishoo.Base.{
  In-append, ℕ, zero, suc, ◌≤◌, ◌<◌, true, none, some, List, [], ◌∷◌, ◌++◌, Text, text_eq,
  text_eq_refl, any, All, All-In, In, here, there, length, ◌≡◌, refl, sym, ap, ◌∙◌, subst, ◌⊎◌, inl,
  inr, ok, Bool-cases, Result-cases, arith, leb, leb→le,
}
use pishoo.Failure.{Fallible}
use pishoo.Package.Store.{Dependency, Resource, dependency_id}
use pishoo.Package.Store.Order.{
  has_id, is_ready, find_ready, find_ready-perm, order_loop, order_packages,
}

module _ {ℓ} {A : Type ℓ} where
  pub In-last : (xs : List A) {a : A} → In a (xs ++ a ∷ [])
  In-last [] = here refl
  In-last (x ∷ xs) = there (In-last xs)

module _ {Proof : Type 0} (rank : Text → ℕ) where
  -- A package of the lowest rank.
  lowest :
      (r : Resource Proof) (rs : List (Resource Proof))
      → (m : Resource Proof) × In m (r ∷ rs) × All (λ x. rank m.id ≤ rank x.id) (r ∷ rs)
  lowest r [] = (r, here refl, (omega arith, tt))
  lowest r (s ∷ rs) =
      let (m, at, least) = lowest s rs in
      elim (Bool-cases (leb (rank r.id) (rank m.id))) [
        | inl below ↦ (
          r,
          here refl,
          (omega arith, above m (s ∷ rs) (leb→le (rank r.id) (rank m.id) below) least),
        )
        | inr over ↦ (m, there at, (ground arith, least))
      ]
    where
      above :
          (m : Resource Proof) (xs : List (Resource Proof))
          → rank r.id ≤ rank m.id
          → All (λ x. rank m.id ≤ rank x.id) xs
          → All (λ x. rank r.id ≤ rank x.id) xs
      above m [] h l = tt
      above m (x ∷ xs) h (k, l) = (omega arith, above m xs h l)

  module _ (dependencies : Resource Proof → Fallible (List Dependency)) where
    -- The packages given hold what each of them depends on, at a lower rank.
    abbrev pub IsClosedAt : List (Resource Proof) → Resource Proof → Type 0
    IsClosedAt resources r =
        (ds : List Dependency) × (dependencies r ≡ ok ds)
        × All
            (λ d.
              (p : Resource Proof) × In p resources
              × (p.id ≡ dependency_id d)
              × (rank p.id < rank r.id))
            ds

    any_of_found :
        (ordered : List (Resource Proof)) (id : Text) {p : Resource Proof}
        → In p ordered
        → p.id ≡ id
        → any (has_id id) ordered ≡ true
    any_of_found [] id m e = elim m [ ]
    any_of_found (q ∷ ordered) id {p} (here same) e =
        let found : text_eq q.id id ≡ true =
          subst (λ t. text_eq q.id t ≡ true) (ap (λ r. r.id) same ∙ e) (text_eq_refl q.id) in
        ground arith
    any_of_found (q ∷ ordered) id (there m) e = ground (arith, any_of_found ordered id m e)

    -- The lowest of what is left is ready: what it depends on cannot be left.
    ready_of_lowest :
        (ordered rest resources : List (Resource Proof)) (m : Resource Proof) (ds : List Dependency)
        → ((p : Resource Proof) → In p resources → In p ordered ⊎ In p rest)
        → All (λ x. rank m.id ≤ rank x.id) rest
        → All
            (λ d.
              (p : Resource Proof) × In p resources
              × (p.id ≡ dependency_id d)
              × (rank p.id < rank m.id))
            ds
        → is_ready ordered ds ≡ true
    unfolding is_ready
    ready_of_lowest ordered rest resources m [] held least h = refl
    ready_of_lowest ordered rest resources m (d ∷ ds) held least ((p, at, e, lower), hs) =
        elim (held p at) [
          | inl done ↦ ground (
            arith,
            any_of_found ordered (dependency_id d) done e,
            ready_of_lowest ordered rest resources m ds held least hs,
          )
          | inr left ↦
              let over = All-In (λ (x : Resource Proof). rank m.id ≤ rank x.id) rest least left in
              absurd (omega (arith, over, lower))
        ]

    find_ready-total :
        (ordered rs : List (Resource Proof)) (m : Resource Proof) (ds : List Dependency)
        → In m rs
        → dependencies m ≡ ok ds
        → is_ready ordered ds ≡ true
        → All (λ r. (es : List Dependency) × (dependencies r ≡ ok es)) rs
        → (x : Resource Proof) × (others : List (Resource Proof)) × (find_ready dependencies ordered
              rs
            ≡ ok (some (x, others)))
    unfolding find_ready
    find_ready-total ordered [] m ds at e ready h = elim at [ ]
    find_ready-total ordered (r ∷ rs) m ds (here same) e ready ((es, reads), h) =
        let again : dependencies r ≡ ok ds = subst (λ q. dependencies q ≡ ok ds) (sym same) e in
        (r, rs, rw again (rw ready refl))
    find_ready-total ordered (r ∷ rs) m ds (there at) e ready ((es, reads), h) =
        elim (Bool-cases (is_ready ordered es)) [
          | inl now ↦ (r, rs, rw reads (rw now refl))
          | inr later ↦
              let (x, others, found) = find_ready-total ordered rs m ds at e ready h in
              (x, r ∷ others, rw reads (rw later (rw found refl)))
        ]

    find_ready-split :
        (ordered rs : List (Resource Proof)) {x : Resource Proof} {others : List (Resource Proof)}
        → find_ready dependencies ordered rs ≡ ok (some (x, others))
        → ((p : Resource Proof) → In p rs → In p (x ∷ others))
          × ((p : Resource Proof) → In p others → In p rs)
    unfolding find_ready
    find_ready-split ordered [] h = ground arith
    find_ready-split ordered (r ∷ rs) {x} {others} h = elim (Result-cases (dependencies r)) [
      | inr (e, fails) ↦ ground arith
      | inl (ds, e) ↦ elim (Bool-cases (is_ready ordered ds)) [
        | inl ready ↦
            let same : r ≡ x = ground arith in
            let rest : rs ≡ others = ground arith in
            (
              (λ p m. subst (λ y. In p (y ∷ others)) same (subst (λ ys. In p (r ∷ ys)) rest m)),
              (λ p m. there (subst (λ ys. In p ys) (sym rest) m)),
            )
        | inr waits ↦ elim (Result-cases (find_ready dependencies ordered rs)) [
          | inr (e2, fails) ↦ ground arith
          | inl (none, e2) ↦ ground arith
          | inl (some (y, back), e2) ↦
              let same : y ≡ x = ground arith in
              let rest : r ∷ back ≡ others = ground arith in
              let (into, out) = find_ready-split ordered rs {x = y} {others = back} e2 in
              (
                (λ p m.
                    subst (λ z. In p (z ∷ others)) same
                      (subst (λ zs. In p (y ∷ zs)) rest (kept r y back p (into p) m))),
                (λ p m. back_in r rs back p (out p) (subst (λ zs. In p zs) (sym rest) m)),
              )
        ]
      ]
    ]
      where
        kept :
            (r y : Resource Proof) (back : List (Resource Proof)) (p : Resource Proof)
            → (In p rs → In p (y ∷ back))
            → In p (r ∷ rs)
            → In p (y ∷ r ∷ back)
        kept r y back p into (here e) = there (here e)
        kept r y back p into (there m) = elim (into m) [
          | here e ↦ here e
          | there n ↦ there (there n)
        ]

        back_in :
            (r : Resource Proof) (rs back : List (Resource Proof)) (p : Resource Proof)
            → (In p back → In p rs)
            → In p (r ∷ back)
            → In p (r ∷ rs)
        back_in r rs back p out (here e) = here e
        back_in r rs back p out (there m) = there (out m)

    readable :
        (resources rest : List (Resource Proof))
        → All (IsClosedAt resources) resources
        → ((p : Resource Proof) → In p rest → In p resources)
        → All (λ r. (es : List Dependency) × (dependencies r ≡ ok es)) rest
    readable resources [] closed inside = tt
    readable resources (r ∷ rest) closed inside =
        let (es, reads, needs) =
          All-In (IsClosedAt resources) resources closed (inside r (here refl)) in
        ((es, reads), readable resources rest closed (λ p m. inside p (there m)))

    order_loop-total :
        (fuel : ℕ) (resources rest ordered : List (Resource Proof))
        → All (IsClosedAt resources) resources
        → ((p : Resource Proof) → In p rest → In p resources)
        → ((p : Resource Proof) → In p resources → In p ordered ⊎ In p rest)
        → length rest ≤ fuel
        → (result : List (Resource Proof)) × (order_loop dependencies fuel rest ordered ≡ ok result)
    unfolding order_loop
    order_loop-total zero resources [] ordered closed inside held enough = (ordered, refl)
    order_loop-total zero resources (r ∷ rest) ordered closed inside held enough =
        absurd (omega (arith, enough))
    order_loop-total (suc fuel) resources [] ordered closed inside held enough = (ordered, refl)
    order_loop-total (suc fuel) resources (r ∷ rest) ordered closed inside held enough =
        let (m, at, least) = lowest r rest in
        let (ds, reads, needs) = All-In (IsClosedAt resources) resources closed (inside m at) in
        let ready = ready_of_lowest ordered (r ∷ rest) resources m ds held least needs in
        let (x, others, found) =
          find_ready-total ordered (r ∷ rest) m ds at reads ready
            (readable resources (r ∷ rest) closed inside) in
        let (into, out) = find_ready-split ordered (r ∷ rest) {x = x} {others = others} found in
        let (isready, perm, len) =
          find_ready-perm dependencies ordered (r ∷ rest) {x = x} {others = others} found in
        let (result, ends) =
          order_loop-total fuel resources others (ordered ++ x ∷ []) closed
            (λ p n. inside p (out p n)) (λ p n. moved x others p (into p) (held p n))
            (omega (arith, len, enough)) in
        (result, rw (found, order_loop) ends)
      where
        moved :
            (x : Resource Proof) (others : List (Resource Proof)) (p : Resource Proof)
            → (In p (r ∷ rest) → In p (x ∷ others))
            → In p ordered ⊎ In p (r ∷ rest)
            → In p (ordered ++ x ∷ []) ⊎ In p others
        moved x others p into (inl done) = inl (In-append ordered (x ∷ []) done)
        moved x others p into (inr left) = elim (into left) [
          | here e ↦ inl (subst (λ q. In q (ordered ++ x ∷ [])) e (In-last ordered))
          | there n ↦ inr n
        ]

    -- Packages that hold all they depend on, without a cycle, are ordered: the loop ends with a
    -- result.
    pub order_packages-total :
        (resources : List (Resource Proof))
        → All (IsClosedAt resources) resources
        → (ordered : List (Resource Proof)) × (order_packages dependencies resources ≡ ok ordered)
    unfolding order_packages
    order_packages-total resources closed =
        order_loop-total (length resources) resources resources [] closed (λ p m. m) (λ p m. inr m)
          (omega arith)
