-- ===== src/Setup/Transactions.antt =====
-- src/setup.rs, `config_database`: the transaction of a change and the answer.
use pishoo.Base.{
  Bool, not, ◌||◌, Option, none, some, List, [], ◌∷◌, ◌++◌, Text, chars, text_eq, find, filter, map,
  is_some, if◌then◌else◌, ok, err, ◌>>=◌, ◌>>◌, refuse_if,
}
use pishoo.Failure.{Fallible, bad_request, route_not_found, io_invalid_input, task}
use pishoo.Routes.{ProxyLocation}
use pishoo.Setup.{Addresses, upstream_text}
use pishoo.Setup.Database.{ConfigDatabase, ServerConfig, read_config, read_server_config}
use pishoo.Setup.Requests.{
  Method, get, delete, Files, Json, Settings, nothing, listening, mounts, is_listen, is_mount,
  deletion_of, planned, listen_of,
}

abbrev pub other_than : Text → Text × Text → Bool
other_than location row = not (text_eq row.0 location)

-- DELETE FROM proxy_location WHERE location=?1
unfoldable pub without_row : Text → List (Text × Text) → List (Text × Text)
without_row location rows = filter (other_than location) rows

abbrev pub at_location : Text → ProxyLocation → Bool
at_location location p = text_eq p.location location

unfoldable pub delete_rule : Addresses → ProxyLocation → ConfigDatabase → Fallible ConfigDatabase
unfolding without_row
delete_rule addresses rule db = read_config addresses db >>= λ current.
    elim (find (at_location rule.location) current.proxy_locations) [
      | none ↦ ok db
      | some existing ↦
          if not (text_eq (upstream_text existing) (upstream_text rule))
          then err io_invalid_input
          else ok (record db { rows = without_row rule.location db.rows })
    ]

unfoldable pub set_rule : ProxyLocation → ConfigDatabase → ConfigDatabase
unfolding without_row
set_rule rule db = record db {
  rows = without_row rule.location db.rows ++ (rule.location, upstream_text rule) ∷ [];
}

unfoldable pub set_listen : Option Text → ConfigDatabase → Fallible ConfigDatabase
set_listen none db = err task
set_listen (some v) db =
    if text_eq v (chars "off")
    then ok (record db { listen = none })
    else ok (record db { listen = some v })

-- The statements of the transaction between `upgrade_settings` and the last `read_config`.
unfoldable pub change :
    Addresses
    → Method
    → Option ProxyLocation
    → Option ProxyLocation
    → Option Text
    → ConfigDatabase
    → Fallible ConfigDatabase
unfolding delete_rule set_rule set_listen
change addresses delete (some rule) proxy mode db = delete_rule addresses rule db
change addresses delete none proxy mode db = ok (record db { listen = none })
change addresses _ deletion (some rule) mode db = ok (set_rule rule db)
change addresses _ deletion none mode db = set_listen mode db

module _ (addresses : Addresses) (files : Files) where
  unfoldable pub prepare : ConfigDatabase → Fallible ServerConfig
  prepare db = files.initialize >> files.opening >> read_server_config addresses db

  abbrev pub hand_over : ServerConfig → Fallible ServerConfig
  hand_over config = files.inherit >> ok config

  -- What is read of the changed database decides whether the change is committed.
  unfoldable pub commit : ConfigDatabase → ConfigDatabase → Fallible ServerConfig × ConfigDatabase
  commit db changed = elim (read_server_config addresses changed) [
    | err e ↦ (err e, db)
    | ok config ↦ (hand_over config, changed)
  ]

  unfoldable pub transact :
      (ConfigDatabase → Fallible ConfigDatabase)
      → ConfigDatabase
      → Fallible ServerConfig × ConfigDatabase
  unfolding commit prepare
  transact statements db = elim (prepare db >>= λ config. statements db) [
    | err e ↦ (err e, db)
    | ok changed ↦ commit db changed
  ]

abbrev pub row_of : ProxyLocation → Text × Text
row_of proxy = (proxy.location, upstream_text proxy)

unfoldable pub answer : Method → Text → ServerConfig → Settings
answer delete path config = nothing
answer _ path config =
    if is_listen path then listening config.listen else mounts (map row_of config.proxy_locations)

abbrev pub answered :
    Method → Text → Fallible ServerConfig × ConfigDatabase → Fallible Settings × ConfigDatabase
answered method path (r, db) = ((r >>= λ config. ok (answer method path config)), db)

module _ (addresses : Addresses) (files : Files) where
  -- The change of a PATCH or DELETE, once it is planned.
  unfoldable pub run_planned :
      Method
      → Option ProxyLocation
      → Option Text
      → ConfigDatabase
      → Fallible (Option ProxyLocation)
      → Fallible ServerConfig × ConfigDatabase
  unfolding transact change
  run_planned method deletion mode db (err e) = (err e, db)
  run_planned method deletion mode db (ok proxy) =
      transact addresses files (change addresses method deletion proxy mode) db

module _ {Value : Type 0} (json : Json Value) (addresses : Addresses)
    (parse_query : Text → List (Text × Text)) (files : Files) where
  unfoldable pub run :
      Method
      → Text
      → Option ProxyLocation
      → Option Value
      → ConfigDatabase
      → Fallible ServerConfig × ConfigDatabase
  unfolding planned run_planned listen_of
  run get path deletion payload db = (
    refuse_if (is_some payload) (bad_request "GET does not accept a body")
        >> files.opening
        >> read_server_config addresses db,
    db,
  )
  run method path deletion payload db =
      run_planned addresses files method deletion (listen_of json payload) db
        (planned json addresses method path payload)

  abbrev pub run_checked :
      Method
      → Text
      → Option Value
      → ConfigDatabase
      → Fallible (Option ProxyLocation)
      → Fallible Settings × ConfigDatabase
  run_checked method path payload db (err e) = (err e, db)
  run_checked method path payload db (ok deletion) =
      answered method path (run method path deletion payload db)

  unfoldable pub config_database :
      Method
      → Text
      → Option Text
      → Option Value
      → ConfigDatabase
      → Fallible Settings × ConfigDatabase
  unfolding run answer deletion_of
  config_database method path query payload db = run_checked method path payload db (
      refuse_if (not (is_listen path || is_mount path)) route_not_found
      >> deletion_of addresses parse_query method path query)
