-- ===== src/Package/Declarations/Tests.antt =====
-- A document with one operation, in one group.
use pishoo.Base.{
  chars, text_eq, strip_prefix, starts_with, trim, trim_start, trim_end, len, true, ok, ◌≡◌, refl,
}
use pishoo.Values.{lookup, has_only, get, at, is_true}
use pishoo.Package.Names.{valid_name}
use pishoo.Package.Sample.{Node, str, arr, obj, nil, cons, end, field, values}
use pishoo.Package.Declarations.{validate_declarations}
use pishoo.Package.Declarations.Membership.{IsDeclared, validate_declarations-IsDeclared}

reading : Unit {0}
unfolding text_eq strip_prefix starts_with trim trim_start trim_end len lookup has_only get at
    is_true valid_name validate_declarations
reading = tt

abbrev operation : Node
operation = obj (
    field (chars "operationId") (str (chars "list")) (
      field (chars "summary") (str (chars "s"))
        (field (chars "x-access-group") (str (chars "readers")) end)))

abbrev group : Node
group = obj (
    field (chars "title") (str (chars "t"))
      (field (chars "operations") (arr (cons (str (chars "list")) nil)) end))

abbrev document : Node
document = obj (
    field (chars "info") (obj (field (chars "title") (str (chars "t")) end)) (
      field (chars "paths")
        (obj (field (chars "/items") (obj (field (chars "get") operation end)) end))
        (field (chars "x-access-groups") (obj (field (chars "readers") group end)) end)))

sample_document : validate_declarations values (λ s. true) (λ s. true) document ≡ ok tt
unfolding reading
sample_document = refl

validate_declarations-IsDeclared_example : IsDeclared values (λ s. true) (λ s. true) document
validate_declarations-IsDeclared_example =
    validate_declarations-IsDeclared values (λ s. true) (λ s. true) document sample_document
