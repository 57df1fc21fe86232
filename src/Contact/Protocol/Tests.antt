-- ===== src/Contact/Protocol/Tests.antt =====
-- A name in short form, a default page and an expiry in an hour.
use pishoo.Base.{
  ℕ, ◌≤◌, ◌<◌, Option, none, some, List, [], ◌∷◌, Text, chars, text_eq, ends_with, trim, trim_start,
  trim_end, to_ascii_lowercase, split, len, starts_with, strip_prefix, ok, ◌≡◌, ◌⊎◌, refl,
}
use pishoo.Setup.Requests.{Json, value_at}
use pishoo.Contact.Protocol.{
  ℤ, pos, i64_max, ends_in, expand, good_label, only_suffixes, name, find_parameter, integer, page,
  at_key, asked_expiry, request_expiry,
}
use pishoo.Contact.Protocol.Laws.{IsName, name-IsName, request_expiry-future}

protocol : Unit {0}
unfolding text_eq ends_with trim trim_start trim_end to_ascii_lowercase split len starts_with
    strip_prefix value_at ends_in expand good_label only_suffixes name find_parameter integer page
    asked_expiry request_expiry
protocol = tt

short_form : name (chars " Ann~") ≡ ok (chars "ann.dhttp.net")
unfolding protocol
short_form = refl

name-IsName_example : IsName (chars "ann.dhttp.net")
name-IsName_example = name-IsName (chars " Ann~") short_form

abbrev no_query : Text → List (Text × Text)
no_query q = []

abbrev no_number : Text → Option ℤ
no_number t = none

first_page : page no_query no_number [] ≡ ok (1, 20)
unfolding protocol
first_page = refl

-- A number is the body that asks for that many seconds.
abbrev seconds : Json ℕ
seconds = record { as_object = λ n. some ((chars "expires_after", n) ∷ []); as_str = λ n. none }

abbrev as_pos : ℕ → Option ℤ
as_pos n = some (pos n)

in_an_hour : request_expiry seconds as_pos 1000 3600 ≡ ok 4600
unfolding protocol
in_an_hour = refl

request_expiry-future_example :
    (1000 < 4600) × ((at_key seconds as_pos (chars "expires_after") 3600 ≡ none) ⊎ (4600 ≤ i64_max))
request_expiry-future_example = request_expiry-future seconds as_pos 1000 3600 in_an_hour
