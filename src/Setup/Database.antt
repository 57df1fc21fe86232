-- ===== src/Setup/Database.antt =====
-- src/setup.rs: the configuration database as it is read: the rows of `setting` and
-- `proxy_location`, and the mounts of installed packages that a proxy may not take.
use pishoo.Base.{
  ℕ, Bool, false, not, ◌||◌, Option, none, some, List, [], ◌++◌, Text, chars, text_eq, starts_with,
  any, filter, map, if◌then◌else◌, ok, err, ◌>>=◌, ◌>>◌, refuse_if, ◌==◌,
}
use pishoo.Failure.{Fallible, invalid_config}
use pishoo.Routes.{ProxyLocation, reserved}
use pishoo.Setup.{Addresses, path_of, parse_proxies}

-- The view `lib`: rows of name and author, or of name and id for a registry without authors.
pub data LibTable : Type 0 where
  no_table : LibTable
  by_author : List (Text × Option Text) → LibTable
  by_id : List (Text × Text) → LibTable

pub record ConfigDatabase : Type 0 where
  pub version : ℕ
  -- The value of the key `listen` of `setting`.
  pub listen : Option Text
  -- `proxy_location`, whose key is the location.
  pub rows : List (Text × Text)
  -- The names of the view `app`, if there is one.
  pub apps : Option (List Text)
  pub libs : LibTable

pub record ServerConfig : Type 0 where
  pub listen : Text
  pub proxy_locations : List ProxyLocation

unfoldable pub valid_listen : Text → Bool
unfolding text_eq
valid_listen v =
    text_eq v (chars "loopback")
    || text_eq v (chars "internal")
    || text_eq v (chars "external")
    || text_eq v (chars "all")

unfoldable pub read_listen : Option Text → Fallible Text
unfolding valid_listen
read_listen none = ok (chars "off")
read_listen (some v) =
    if text_eq v (chars "off")
    then err (invalid_config "disabled listening must have no KV record")
    else if valid_listen v
    then ok v
    else err (invalid_config "invalid listen mode")

-- The rows are read by location; `parse_proxies` sorts what they parse to.
unfoldable pub read_config : Addresses → ConfigDatabase → Fallible ServerConfig
unfolding read_listen
read_config addresses db =
    refuse_if (not (db.version == 3)) (invalid_config "unsupported schema")
    >> read_listen db.listen
    >>= λ listen. parse_proxies addresses db.rows >>= λ proxies.
        ok (record { listen = listen; proxy_locations = proxies })

unfoldable pub takes : Text → ProxyLocation → Bool
takes mount p =
    text_eq (path_of p.location) mount || starts_with (mount ++ chars "/") (path_of p.location)

abbrev pub takes_some : List ProxyLocation → Text → Bool
takes_some proxies mount = any (takes mount) proxies

unfoldable pub app_mounts : Option (List Text) → List Text
app_mounts none = []
app_mounts (some names) = map (λ name. chars "/app/" ++ name) names

abbrev pub is_standard : Option Text → Bool
is_standard none = false
is_standard (some author) =
    text_eq author (chars "std.dhttp.net") || text_eq author (chars "dev.genmeta.tech.dhttp.net")

abbrev pub is_standard_id : Text → Bool
is_standard_id id =
    starts_with (chars "std.dhttp.net/") id || starts_with (chars "dev.genmeta.tech.dhttp.net/") id

unfoldable pub lib_mounts : LibTable → List Text
lib_mounts no_table = []
lib_mounts (by_author libs) =
    map (λ row. chars "/" ++ row.0) (filter (λ row. not (is_standard row.1)) libs)
lib_mounts (by_id libs) =
    map (λ row. chars "/" ++ row.0) (filter (λ row. not (is_standard_id row.1)) libs)

abbrev pub is_reserved : ProxyLocation → Bool
is_reserved p = reserved (path_of p.location)

unfoldable pub check_proxy_mounts : ConfigDatabase → List ProxyLocation → Fallible (Unit {0})
unfolding app_mounts lib_mounts
check_proxy_mounts db proxies =
    refuse_if (any is_reserved proxies) (invalid_config "proxy cannot occupy /std")
    >> refuse_if (any (takes_some proxies) (app_mounts db.apps))
        (invalid_config "proxy conflicts with installed App")
    >> refuse_if (any (takes_some proxies) (lib_mounts db.libs))
        (invalid_config "proxy conflicts with installed Lib")

unfoldable pub read_server_config : Addresses → ConfigDatabase → Fallible ServerConfig
unfolding read_config check_proxy_mounts
read_server_config addresses db =
    read_config addresses db >>= λ config. check_proxy_mounts db config.proxy_locations >> ok config
