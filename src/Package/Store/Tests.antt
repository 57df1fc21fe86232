-- ===== src/Package/Store/Tests.antt =====
-- Two packages, of which the first depends on the second.
use pishoo.Base.{[], ◌∷◌, List, chars, length, ok, ◌≡◌, refl, here, there, arith}
use pishoo.Failure.{Fallible}
use pishoo.Package.Store.{Dependency, Resource}
use pishoo.Package.Store.Order.{order_packages}
use pishoo.Package.Store.Progress.{order_packages-total}

abbrev base_package : Dependency
base_package = record { publisher = chars "a"; name = chars "b"; version = chars "1.0.0" }

abbrev upper : Resource (List Dependency)
upper = record { id = chars "a/upper"; bytes = []; proof = base_package ∷ [] }

abbrev lower : Resource (List Dependency)
lower = record { id = chars "a/b"; bytes = []; proof = [] }

abbrev named : Resource (List Dependency) → Fallible (List Dependency)
named r = ok r.proof

order_packages-total_example :
    (ordered : List (Resource (List Dependency))) × (order_packages named (upper ∷ lower ∷ [])
      ≡ ok ordered)
order_packages-total_example =
    order_packages-total (λ id. length id) named (upper ∷ lower ∷ [])
      (
        (base_package ∷ [], refl, ((lower, there (here refl), refl, omega arith), tt)),
        (([], refl, tt), tt),
      )
