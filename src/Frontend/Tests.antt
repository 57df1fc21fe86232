-- ===== src/Frontend/Tests.antt =====
-- A deep link of a single page App.
use pishoo.Base.{
  ℕ, none, some, Text, chars, ok, err, text_eq, starts_with, strip_prefix, trim_start, trim_end,
  split, last_part, contains_char, if◌then◌else◌,
}
use pishoo.Failure.{Fallible, route_not_found}
use pishoo.Package.Names.{dot_part}
use pishoo.Access.{is_read}
use pishoo.Frontend.{
  AppRequest, app_response, app_content, open_or_index, unsafe_suffix, file_name, is_asset,
}

reading : Unit {0}
unfolding dot_part app_response app_content open_or_index unsafe_suffix file_name is_asset is_read
    text_eq starts_with strip_prefix trim_start trim_end split last_part contains_char
reading = tt

abbrev deep_link : AppRequest
deep_link = record {
  method = chars "GET";
  path = chars "/app/chat/rooms/1";
  query = none;
  fetch_dest = some (chars "document");
}

abbrev only_index : Text → Fallible ℕ
only_index name = if text_eq name (chars "index.html") then ok 5 else err route_not_found
