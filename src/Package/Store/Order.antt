-- ===== src/Package/Store/Order.antt =====
-- src/package/store.rs, `order_packages`: the order of installation. What a package depends on is
-- read by a parameter.
use mathlib.Core.List.{Perm, append-nil, append_assoc}
use mathlib.Core.List.Perm
use pishoo.Base.{
  ℕ, zero, suc, Bool, true, Option, none, some, List, [], ◌∷◌, ◌++◌, Text, text_eq, eq_of_text_eq,
  any, all, All, In, here, there, length, if◌then◌else◌, ◌≡◌, refl, sym, ap, ◌∙◌, subst, inl, inr,
  ok, err, ◌>>=◌, Bool-cases, Result-cases, arith,
}
use pishoo.Failure.{Fallible, bad_request, deadline}
use pishoo.Package.Store.{Dependency, Resource, dependency_id}

module _ {Proof : Type 0} where
  abbrev pub has_id : Text → Resource Proof → Bool
  has_id id r = text_eq r.id id

  unfoldable pub is_ready : List (Resource Proof) → List Dependency → Bool
  is_ready ordered ds = all (λ d. any (has_id (dependency_id d)) ordered) ds

  -- A resource that was passed over stays where it is.
  abbrev pub put_back :
      Resource Proof
      → Fallible (Option (Resource Proof × List (Resource Proof)))
      → Fallible (Option (Resource Proof × List (Resource Proof)))
  put_back r (err e) = err e
  put_back r (ok none) = ok none
  put_back r (ok (some (x, others))) = ok (some (x, r ∷ others))

  module _ (dependencies : Resource Proof → Fallible (List Dependency)) where
    abbrev pub take_if :
        List (Resource Proof)
        → Resource Proof
        → List (Resource Proof)
        → Fallible (Option (Resource Proof × List (Resource Proof)))
        → List Dependency
        → Fallible (Option (Resource Proof × List (Resource Proof)))
    take_if ordered r rs rest ds =
        if is_ready ordered ds then ok (some (r, rs)) else put_back r rest

    -- The first resource whose dependencies are all ordered, and the others.
    unfoldable pub find_ready :
        List (Resource Proof)
        → List (Resource Proof)
        → Fallible (Option (Resource Proof × List (Resource Proof)))
    find_ready ordered [] = ok none
    find_ready ordered (r ∷ rs) =
        let rest = find_ready ordered rs in dependencies r >>= λ ds. take_if ordered r rs rest ds

    -- The loop, on fuel; it runs out only if it is less than the number of resources.
    unfoldable pub order_loop :
        ℕ → List (Resource Proof) → List (Resource Proof) → Fallible (List (Resource Proof))
    order_loop zero [] ordered = ok ordered
    order_loop zero (r ∷ rs) ordered = err deadline
    order_loop (suc fuel) [] ordered = ok ordered
    order_loop (suc fuel) (r ∷ rs) ordered = elim (find_ready ordered (r ∷ rs)) [
      | err e ↦ err e
      | ok none ↦ err (bad_request "cyclic package dependencies")
      | ok (some (x, others)) ↦ order_loop fuel others (ordered ++ x ∷ [])
    ]

    unfoldable pub order_packages : List (Resource Proof) → Fallible (List (Resource Proof))
    unfolding order_loop find_ready is_ready
    order_packages resources = order_loop (length resources) resources []

    -- What a resource that is ready has been found to need.
    abbrev pub IsReadyIn : List (Resource Proof) → Resource Proof → Type 0
    IsReadyIn ordered r =
        (ds : List Dependency) × (dependencies r ≡ ok ds)
        × All (λ d. (p : Resource Proof) × In p ordered × (p.id ≡ dependency_id d)) ds

    -- Every package stands behind all those that it depends on.
    abbrev pub IsTopological : List (Resource Proof) → List (Resource Proof) → Type 0
    IsTopological before [] = Unit
    IsTopological before (r ∷ rs) = IsReadyIn before r × IsTopological (before ++ r ∷ []) rs

    found-In :
        (id : Text) (ordered : List (Resource Proof))
        → any (has_id id) ordered ≡ true
        → (p : Resource Proof) × In p ordered × (p.id ≡ id)
    found-In id [] h = cc
    found-In id (p ∷ ps) h = elim (Bool-cases (text_eq p.id id)) [
      | inl same ↦ (p, here refl, eq_of_text_eq p.id id same)
      | inr other ↦ let (q, m, e) = found-In id ps (ground arith) in (q, there m, e)
    ]

    is_ready-In :
        (ordered : List (Resource Proof)) (ds : List Dependency)
        → is_ready ordered ds ≡ true
        → All (λ d. (p : Resource Proof) × In p ordered × (p.id ≡ dependency_id d)) ds
    unfolding is_ready
    is_ready-In ordered [] h = tt
    is_ready-In ordered (d ∷ ds) h = elim (Bool-cases (any (has_id (dependency_id d)) ordered)) [
      | inl held ↦ (found-In (dependency_id d) ordered held, is_ready-In ordered ds (ground arith))
      | inr missing ↦ ground arith
    ]

    pub find_ready-perm :
        (ordered rs : List (Resource Proof)) {x : Resource Proof} {others : List (Resource Proof)}
        → find_ready ordered rs ≡ ok (some (x, others))
        → IsReadyIn ordered x × Perm rs (x ∷ others) × (length rs ≡ suc (length others))
    unfolding find_ready
    find_ready-perm ordered [] h = ground arith
    find_ready-perm ordered (r ∷ rs) {x} {others} h = elim (Result-cases (dependencies r)) [
      | inr (e, fails) ↦ ground arith
      | inl (ds, e) ↦ elim (Bool-cases (is_ready ordered ds)) [
        | inl ready ↦
            let same : r ≡ x = ground arith in
            let rest : rs ≡ others = ground arith in
            (
              subst (IsReadyIn ordered) same (ds, e, is_ready-In ordered ds ready),
              subst (λ y. Perm (r ∷ rs) (y ∷ others)) same
                  (subst (λ ys. Perm (r ∷ rs) (r ∷ ys)) rest (Perm.refl (r ∷ rs))),
              ap (λ ys. suc (length ys)) rest,
            )
        | inr waits ↦ elim (Result-cases (find_ready ordered rs)) [
          | inr (e2, fails) ↦ ground arith
          | inl (none, e2) ↦ ground arith
          | inl (some (y, back), e2) ↦
              let same : y ≡ x = ground arith in
              let rest : r ∷ back ≡ others = ground arith in
              let (ready, perm, len) = find_ready-perm ordered rs {x = y} {others = back} e2 in
              (
                subst (IsReadyIn ordered) same ready,
                subst (λ z. Perm (r ∷ rs) (z ∷ others)) same
                    (subst (λ zs. Perm (r ∷ rs) (y ∷ zs)) rest
                      (Perm.trans (Perm.cons r perm) (Perm.swap y r back))),
                ap suc len ∙ ap (λ zs. suc (length zs)) rest,
              )
        ]
      ]
    ]

    order_loop-IsTopological :
        (fuel : ℕ) (rs before : List (Resource Proof)) {result : List (Resource Proof)}
        → order_loop fuel rs before ≡ ok result
        → (tail : List (Resource Proof)) × (result ≡ before ++ tail)
          × Perm rs tail
          × IsTopological before tail
    unfolding order_loop
    order_loop-IsTopological zero [] before {result} h =
        let same : before ≡ result = ground arith in
        ([], sym same ∙ sym (append-nil before), Perm.refl [], tt)
    order_loop-IsTopological zero (r ∷ rs) before h = ground arith
    order_loop-IsTopological (suc fuel) [] before {result} h =
        let same : before ≡ result = ground arith in
        ([], sym same ∙ sym (append-nil before), Perm.refl [], tt)
    order_loop-IsTopological (suc fuel) (r ∷ rs) before {result} h =
        elim (Result-cases (find_ready before (r ∷ rs))) [
          | inr (e, fails) ↦ ground arith
          | inl (none, e) ↦ ground arith
          | inl (some (x, others), e) ↦
              let (ready, perm, len) =
                find_ready-perm before (r ∷ rs) {x = x} {others = others} e in
              let (tail, same, rest, order) =
                order_loop-IsTopological fuel others (before ++ x ∷ []) {result = result}
                  (ground arith) in
              (
                x ∷ tail,
                same ∙ append_assoc before (x ∷ []) tail,
                Perm.trans perm (Perm.cons x rest),
                (ready, order),
              )
        ]

    -- The packages that are ordered are those given, each behind all that it depends on.
    pub order_packages-IsTopological :
        (resources : List (Resource Proof)) {ordered : List (Resource Proof)}
        → order_packages resources ≡ ok ordered
        → Perm resources ordered × IsTopological [] ordered
    unfolding order_packages
    order_packages-IsTopological resources {ordered} h =
        let (tail, same, perm, order) =
          order_loop-IsTopological (length resources) resources [] h in
        (subst (Perm resources) (sym same) perm, subst (IsTopological []) (sym same) order)
