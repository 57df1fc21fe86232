-- ===== src/Setup/Tests.antt =====
-- One mount of a local upstream, set, read back and removed by its owner.
use pishoo.Base.{
  ℕ, Bool, true, false, Option, none, some, List, [], ◌∷◌, Text, chars, text_eq, strip_prefix,
  starts_with, split, has_double, contains_char, In, All, ◌≡◌, ◌⊎◌, refl, if◌then◌else◌, ok,
}
use pishoo.Package.Names.{dot_part}
use pishoo.Routes.{UriParts, ProxyLocation, reserved}
use pishoo.Setup.{
  SocketAddr, Addresses, path_of, valid_path, after_scheme, uri_text, is_local, is_pathless,
  parse_upstream, parse_rows, text_less, put, sort, parse_proxies, upstream_text,
}
use pishoo.Setup.Locations.{IsMount, AreDistinct, parse_proxies-AreDistinct}
use pishoo.Setup.Database.{
  ConfigDatabase, ServerConfig, no_table, valid_listen, read_listen, read_config, takes, app_mounts,
  lib_mounts, check_proxy_mounts, read_server_config,
}
use pishoo.Setup.Requests.{
  get, patch, Files, Json, Settings, mounts, value_at, parse_one, parse_rule, deletion_of,
  validate_listen_patch, parse_proxy_json, listen_of, planned,
}
use pishoo.Setup.Transactions.{
  without_row, at_location, delete_rule, set_rule, set_listen, change, prepare, commit, transact,
  answer, run_planned, run, config_database,
}
use pishoo.Setup.Atomicity.{config_database-IsKept, IsKept}
use pishoo.Setup.Rules.{IsMounted, IsUnmounted, config_database-IsMounted, delete_rule-IsUnmounted}
use pishoo.Setup.Owner.{
  bytes, Owner, ConfigRequest, config_request, IsOwner, config_request-IsOwner,
}

setup : Unit {0}
unfolding text_eq strip_prefix starts_with split has_double contains_char dot_part reserved path_of
    valid_path after_scheme uri_text is_local is_pathless parse_upstream parse_rows text_less put
    sort parse_proxies upstream_text valid_listen read_listen read_config takes app_mounts
    lib_mounts check_proxy_mounts read_server_config value_at parse_one parse_rule deletion_of
    validate_listen_patch parse_proxy_json listen_of planned without_row delete_rule set_rule
    set_listen change prepare commit transact answer run_planned run config_database
setup = tt

abbrev loopback : SocketAddr
loopback = record { text = chars "127.0.0.1:80"; is_loopback = true; port = 80 }

abbrev local_parts : UriParts
local_parts = record {
  scheme = some (chars "http");
  authority = some (chars "127.0.0.1:80");
  path_and_query = none;
}

abbrev one_address : Addresses
one_address = record {
  parse_address = λ t. if text_eq t (chars "127.0.0.1:80") then some loopback else none;
  parse_uri = λ t. if text_eq t (chars "http://127.0.0.1:80") then some local_parts else none;
}

-- A payload: the object of a location and an upstream, or a text.
data Node : Type 0 where
  pair : Text → Text → Node
  leaf : Text → Node

abbrev node_object : Node → Option (List (Text × Node))
node_object (pair l u) = some ((chars "location", leaf l) ∷ (chars "proxy_pass", leaf u) ∷ [])
node_object (leaf t) = none

abbrev node_text : Node → Option Text
node_text (pair l u) = none
node_text (leaf t) = some t

abbrev nodes : Json Node
nodes = record { as_object = node_object; as_str = node_text }

abbrev working : Files
working = record { initialize = ok tt; opening = ok tt; inherit = ok tt }

abbrev no_params : Text → List (Text × Text)
no_params t = []

abbrev fresh : ConfigDatabase
fresh = record {
  version = 3;
  listen = none;
  rows = [];
  apps = some (chars "chat" ∷ []);
  libs = no_table;
}

abbrev wiki : ProxyLocation
wiki = record { location = chars "/wiki"; proxy_pass = local_parts }

abbrev wiki_row : Text × Text
wiki_row = (chars "/wiki", chars "http://127.0.0.1:80")

abbrev with_wiki : ConfigDatabase
with_wiki = record fresh { rows = wiki_row ∷ [] }

wiki_parsed : parse_proxies one_address (wiki_row ∷ []) ≡ ok (wiki ∷ [])
unfolding setup
wiki_parsed = refl

parse_proxies-AreDistinct_example : All (IsMount one_address) (wiki ∷ []) × AreDistinct (wiki ∷ [])
parse_proxies-AreDistinct_example =
    parse_proxies-AreDistinct one_address (wiki_row ∷ []) wiki_parsed

wiki_mounted :
    config_database nodes one_address no_params working patch
      (chars "/std/sys/mount")
      none
      (some (pair (chars "/wiki") (chars "127.0.0.1:80")))
      fresh
    ≡ (ok (mounts (wiki_row ∷ [])), with_wiki)
unfolding setup
wiki_mounted = refl

config_database-IsMounted_example :
    (rule : ProxyLocation) × (parse_proxy_json nodes one_address
        (pair (chars "/wiki") (chars "127.0.0.1:80"))
      ≡ ok rule)
    × IsMounted rule fresh with_wiki
config_database-IsMounted_example =
    config_database-IsMounted nodes one_address no_params working
      (pair (chars "/wiki") (chars "127.0.0.1:80")) fresh wiki_mounted

config_database-IsKept_example : IsKept {A = Settings} one_address working fresh (
    config_database nodes one_address no_params working patch
      (chars "/std/sys/mount")
      none
      (some (pair (chars "/wiki") (chars "127.0.0.1:80")))
      fresh)
config_database-IsKept_example =
    config_database-IsKept nodes one_address no_params working patch (chars "/std/sys/mount") none
      (some (pair (chars "/wiki") (chars "127.0.0.1:80"))) fresh

wiki_deleted : delete_rule one_address wiki with_wiki ≡ ok fresh
unfolding setup
wiki_deleted = refl

delete_rule-IsUnmounted_example :
    (config : ServerConfig) × (read_config one_address with_wiki ≡ ok config)
    × (((fresh ≡ with_wiki) × All (λ p. at_location wiki.location p ≡ false) config.proxy_locations)
        ⊎ ((existing : ProxyLocation) × In existing config.proxy_locations
            × (existing.location ≡ wiki.location)
            × (upstream_text existing ≡ upstream_text wiki)
            × IsUnmounted wiki with_wiki fresh))
delete_rule-IsUnmounted_example = delete_rule-IsUnmounted one_address wiki with_wiki wiki_deleted

abbrev reading_request : ConfigRequest ℕ ℕ
reading_request = record {
  visitor = some (record { name = chars "ann"; subject = 7 });
  method = get;
  path = chars "/std/sys/mount";
  query = none;
  versions = [];
  content_type = none;
  body = λ limit. bytes 0;
}

abbrev ann : Owner ℕ
ann = record { name = chars "ann"; local_subject = ok 7 }

abbrev always : ℕ → ℕ → Bool
always a b = true

abbrev no_json : ℕ → Option Node
no_json b = none

config_request-IsOwner_example :
    ((config_request always ann no_json nodes one_address no_params working reading_request
        with_wiki).1
      ≡ with_wiki)
    ⊎ IsOwner always ann reading_request.visitor
config_request-IsOwner_example =
    config_request-IsOwner always ann no_json nodes one_address no_params working reading_request
      with_wiki
