-- ===== src/Management/Tests.antt =====
-- The removal of one package by its owner.
use pishoo.Base.{
  ℕ, Bool, true, false, Option, none, some, List, [], ◌∷◌, Text, chars, text_eq, split, split_once,
  last_part, contains_char, ok, ◌≡◌, refl, starts_with, strip_prefix, len,
}
use pishoo.Failure.{Fallible}
use pishoo.Package.Names.{valid_id, valid_name}
use pishoo.Setup.Requests.{Json, value_at}
use pishoo.Setup.Owner.{Owner, bytes, check_owner, supported, any_v1, IsOwner}
use pishoo.Management.{
  ManagementRequest, remove, command, ends_list, allows, query_name, named, short_name,
  read_install, read_command, read_request, manage,
}
use pishoo.Management.Admission.{IsCommandOf, manage-IsCommandOf}
use pishoo.Management.Removal.{Installed, without_id, unexpected, remove_registered, remove_named}

managing : Unit {0}
unfolding text_eq split split_once last_part contains_char starts_with strip_prefix len valid_id
    valid_name value_at check_owner supported any_v1 ends_list allows query_name named short_name
    read_install read_command read_request manage without_id unexpected remove_registered
    remove_named
managing = tt

abbrev keep : Text → Option Text
keep t = some t

abbrev keep_value : ℕ → Option ℕ
keep_value v = some v

abbrev no_values : Json ℕ
no_values = record { as_object = λ v. none; as_str = λ v. none }

abbrev ann : Owner ℕ
ann = record { name = chars "ann"; local_subject = ok 7 }

abbrev always : ℕ → ℕ → Bool
always a b = true

abbrev removal : ManagementRequest ℕ ℕ
removal = record {
  visitor = some (record { name = chars "ann"; subject = 7 });
  method = chars "DELETE";
  path = chars "/std/sys/pkg";
  query = some (chars "name=chat");
  versions = [];
  expected_id = some (chars "ann/chat");
  content_type = none;
  has_trailer = false;
  body = λ limit. ok (bytes 0);
}

removal_command :
    manage keep no_values keep_value keep always ann removal
    ≡ ok (command (remove (chars "chat") (some (chars "ann/chat"))))
unfolding managing
removal_command = refl

manage-IsCommandOf_example :
    IsOwner always ann removal.visitor
    × IsCommandOf keep removal (remove (chars "chat") (some (chars "ann/chat")))
manage-IsCommandOf_example =
    manage-IsCommandOf keep no_values keep_value keep always ann removal removal_command

abbrev one_package : Installed
one_package = record {
  packages = (chars "chat", chars "ann/chat") ∷ [];
  apps = chars "ann/chat" ∷ [];
  libs = [];
  is_closed = false;
}

abbrev no_package : Installed
no_package = record { packages = []; apps = []; libs = []; is_closed = false }

abbrev drop_all : Text → List (Text × Text) → Fallible (List (Text × Text))
drop_all id rows = ok []
