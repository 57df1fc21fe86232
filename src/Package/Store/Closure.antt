-- ===== src/Package/Store/Closure.antt =====
-- src/package/store.rs, `install_store_package`: what the collected packages are, and that the
-- loop ends.
use mathlib.Core.List.{append-nil, append_assoc}
use pishoo.Base.{
  ◌+◌, ◌≤◌, ◌<◌, true, false, ◌&&◌, List, [], ◌∷◌, ◌++◌, chars, text_eq, any, All, In, here, there,
  length, leb, ◌≡◌, sym, ap, ◌∙◌, subst, ◌⊎◌, inl, inr, ok, Bool-cases, Result-cases, arith,
}
use pishoo.Failure.{Fallible}
use pishoo.Values.{Values, at, is_text}
use pishoo.Package.Store.{Dependency, Resource, Proof, dependency_id}
use pishoo.Package.Store.Collect.{
  Bytes, InstalledEntry, push_all, has_version, conflicts_with, previous_release, same_name,
  other_author, fetch,
}

pub push_all-In :
    (ds pending : List Dependency) {d : Dependency}
    → In d ds ⊎ In d pending
    → In d (push_all ds pending)
unfolding push_all
push_all-In [] pending (inl m) = elim m [ ]
push_all-In [] pending (inr m) = m
push_all-In (e ∷ ds) pending (inl (here same)) = push_all-In ds (e ∷ pending) (inr (here same))
push_all-In (e ∷ ds) pending (inl (there m)) = push_all-In ds (e ∷ pending) (inl m)
push_all-In (e ∷ ds) pending (inr m) = push_all-In ds (e ∷ pending) (inr (there m))

pub length-push_all :
    (ds pending : List Dependency) → length (push_all ds pending) ≡ length ds + length pending
unfolding push_all
length-push_all [] pending = omega arith
length-push_all (d ∷ ds) pending = omega (arith, length-push_all ds (d ∷ pending))

module _ {Value : Type 0} (V : Values Value) (download : Dependency → Fallible (Bytes × Value))
    (dependencies : Resource (Proof Value) → Fallible (List Dependency)) where
  -- Every package was new when it was added.
  abbrev pub AreNew : List (Resource (Proof Value)) → List (Resource (Proof Value)) → Type 0
  AreNew before [] = Unit
  AreNew before (r ∷ rs) =
      All (λ p. text_eq p.id r.id ≡ false) before × AreNew (before ++ r ∷ []) rs

  -- The package that is asked for, at the version that is asked for.
  abbrev pub IsHeld : List (Resource (Proof Value)) → Dependency → Type 0
  IsHeld resources d =
      (p : Resource (Proof Value)) × In p resources
      × (p.id ≡ dependency_id d)
      × (has_version V download dependencies d.version p ≡ true)

  abbrev pub IsHeldOrPending : List Dependency → List (Resource (Proof Value)) → Dependency → Type 0
  IsHeldOrPending pending resources d = IsHeld resources d ⊎ In d pending

  -- What a package depends on is held or pending.
  abbrev pub IsServed :
      List Dependency → List (Resource (Proof Value)) → Resource (Proof Value) → Type 0
  IsServed pending resources r =
      (ds : List Dependency) × (dependencies r ≡ ok ds) × All (IsHeldOrPending pending resources) ds

  pub record IsProgress (root : Dependency) (pending : List Dependency)
      (resources : List (Resource (Proof Value))) : Type 0 where
    pub fresh : AreNew [] resources
    pub few : length resources ≤ 100
    pub served : All (IsServed pending resources) resources
    pub wanted : IsHeldOrPending pending resources root

  pub AreNew-append :
      (before rs : List (Resource (Proof Value))) (r : Resource (Proof Value))
      → AreNew before rs
      → All (λ p. text_eq p.id r.id ≡ false) (before ++ rs)
      → AreNew before (rs ++ r ∷ [])
  AreNew-append before [] r h new =
      (subst (λ l. All (λ p. text_eq p.id r.id ≡ false) l) (append-nil before) new, tt)
  AreNew-append before (x ∷ rs) r (h, hs) new = (
    h,
    AreNew-append (before ++ x ∷ []) rs r hs (
        subst (λ l. All (λ p. text_eq p.id r.id ≡ false) l) (sym (append_assoc before (x ∷ []) rs))
          new),
  )

  pub All-kept :
      (pending next : List Dependency) (resources more : List (Resource (Proof Value)))
      → ((d : Dependency) → IsHeldOrPending pending resources d → IsHeldOrPending next more d)
      → (ds : List Dependency) → All (IsHeldOrPending pending resources) ds
      → All (IsHeldOrPending next more) ds
  All-kept pending next resources more keep [] h = tt
  All-kept pending next resources more keep (d ∷ ds) (h, hs) =
      (keep d h, All-kept pending next resources more keep ds hs)

  pub All-IsServed :
      (pending next : List Dependency) (resources more : List (Resource (Proof Value)))
      → ((d : Dependency) → IsHeldOrPending pending resources d → IsHeldOrPending next more d)
      → (rs : List (Resource (Proof Value))) → All (IsServed pending resources) rs
      → All (IsServed next more) rs
  All-IsServed pending next resources more keep [] h = tt
  All-IsServed pending next resources more keep (r ∷ rs) ((ds, reads, h), hs) = (
    (ds, reads, All-kept pending next resources more keep ds h),
    All-IsServed pending next resources more keep rs hs,
  )

  pub fetch-dependencies :
      (installed : List InstalledEntry) (d : Dependency) (resources : List (Resource (Proof Value)))
      {r : Resource (Proof Value)} {ds : List Dependency}
      → ((e : Dependency) (bytes : Bytes) (metadata : Value)
          → download e ≡ ok (bytes, metadata)
          → is_text V e.version (at V (chars "version") metadata) ≡ true)
      → fetch V download dependencies installed d resources ≡ ok (r, ds)
      → (length resources < 100)
        × (r.id ≡ dependency_id d)
        × (has_version V download dependencies d.version r ≡ true)
        × (dependencies r ≡ ok ds)
  unfolding fetch has_version
  fetch-dependencies installed d resources {r} {ds} versioned h =
      elim (Bool-cases (leb 100 (length resources))) [
        | inl full ↦ ground arith
        | inr room ↦
            elim (Bool-cases
              (any (conflicts_with V download dependencies (dependency_id d) d.name) resources)) [
                | inl conflict ↦ ground arith
                | inr apart ↦
                    elim (Bool-cases (
                      any
                        (λ e.
                          same_name V download dependencies d.name e
                          && other_author (dependency_id d) e)
                        installed)) [
                          | inl taken ↦ ground arith
                          | inr free ↦ elim (Result-cases (download d)) [
                            | inr (e, fails) ↦ ground arith
                            | inl ((bytes, metadata), loaded) ↦
                                elim (Result-cases
                                  (previous_release V download dependencies installed d)) [
                                    | inr (e, fails) ↦ ground arith
                                    | inl (previous, e) ↦
                                        let x : Resource (Proof Value) = record {
                                          id = dependency_id d;
                                          bytes = bytes;
                                          proof = record {
                                            metadata = metadata;
                                            previous = previous;
                                          };
                                        } in
                                        elim (Result-cases (dependencies x)) [
                                          | inr (e2, fails) ↦ ground arith
                                          | inl (es, reads) ↦
                                              let same : x ≡ r = ground arith in
                                              let same_ds : es ≡ ds = ground arith in
                                              (
                                                ground arith,
                                                sym (ap (λ y. y.id) same),
                                                subst
                                                    (λ y.
                                                      is_text V d.version
                                                        (at V (chars "version") y.proof.metadata)
                                                      ≡ true)
                                                    same (versioned d bytes metadata loaded),
                                                subst (λ y. dependencies y ≡ ok ds) same
                                                    (reads ∙ ap (λ l. ok l) same_ds),
                                              )
                                        ]
                                  ]
                          ]
                        ]
              ]
      ]
