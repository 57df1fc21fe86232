-- ===== src/Setup/Atomicity.antt =====
-- src/setup.rs, `config_database`: what a request leaves in the database.
use pishoo.Base.{
  Option, List, Text, ◌≡◌, ◌⊎◌, inl, inr, refl, ok, err, ◌>>=◌, ◌>>◌, refuse_if, not, ◌||◌,
  Result-cases, arith,
}
use pishoo.Failure.{Error, Fallible, route_not_found}
use pishoo.Routes.{ProxyLocation}
use pishoo.Setup.{Addresses}
use pishoo.Setup.Database.{ConfigDatabase, ServerConfig, read_server_config}
use pishoo.Setup.Requests.{
  Method, get, patch, delete, other, Files, Json, Settings, deletion_of, planned, listen_of,
  is_listen, is_mount,
}
use pishoo.Setup.Transactions.{
  prepare, hand_over, commit, transact, change, run_planned, run, answered, run_checked,
  config_database,
}

-- A database that the server can be started with.
abbrev pub IsReadable : Addresses → ConfigDatabase → Type 0
IsReadable addresses db = (config : ServerConfig) × (read_server_config addresses db ≡ ok config)

-- What is left: the database as it was, or one that can be read, and an error then comes only
-- from the work on files that follows the commit.
abbrev pub IsKept :
    {A : Type 0} → Addresses → Files → ConfigDatabase → Fallible A × ConfigDatabase → Type 0
IsKept addresses files db (r, left) =
    (left ≡ db) ⊎ (IsReadable addresses left × ((e : Error) → r ≡ err e → files.inherit ≡ err e))

module _ (addresses : Addresses) (files : Files) where
  hand_over-err :
      (config : ServerConfig) (e : Error)
      → hand_over addresses files config ≡ err e
      → files.inherit ≡ err e
  hand_over-err config e h = elim (Result-cases files.inherit) [
    | inl (u, done) ↦ ground arith
    | inr (e2, fails) ↦ ground arith
  ]

  commit-IsKept :
      (db changed : ConfigDatabase)
      → IsKept {A = ServerConfig} addresses files db (commit addresses files db changed)
  unfolding commit
  commit-IsKept db changed = go (read_server_config addresses changed) refl
    where
      go :
          (r : Fallible ServerConfig)
          → read_server_config addresses changed ≡ r
          → IsKept {A = ServerConfig} addresses files db (elim r [
            | err e ↦ (err e, db)
            | ok config ↦ (hand_over addresses files config, changed)
          ])
      go (err e) h = inl refl
      go (ok config) h = inr ((config, h), hand_over-err config)

  transact-IsKept :
      (statements : ConfigDatabase → Fallible ConfigDatabase) (db : ConfigDatabase)
      → IsKept {A = ServerConfig} addresses files db (transact addresses files statements db)
  unfolding transact
  transact-IsKept statements db = go (prepare addresses files db >>= λ config. statements db)
    where
      go :
          (r : Fallible ConfigDatabase)
          → IsKept {A = ServerConfig} addresses files db
              (elim r [ err e ↦ (err e, db) | ok changed ↦ commit addresses files db changed ])
      go (err e) = inl refl
      go (ok changed) = commit-IsKept db changed

  answered-IsKept :
      (method : Method) (path : Text) (db : ConfigDatabase)
      (o : Fallible ServerConfig × ConfigDatabase)
      → IsKept {A = ServerConfig} addresses files db o
      → IsKept {A = Settings} addresses files db (answered method path o)
  answered-IsKept method path db (r, left) (inl same) = inl same
  answered-IsKept method path db (ok config, left) (inr (readable, fails)) =
      inr (readable, λ e h. cc)
  answered-IsKept method path db (err e, left) (inr (readable, fails)) =
      inr (readable, λ e2 h. fails e2 (cc))

  run_planned-IsKept :
      (method : Method) (deletion : Option ProxyLocation) (mode : Option Text) (db : ConfigDatabase)
      (plan : Fallible (Option ProxyLocation))
      → IsKept {A = ServerConfig} addresses files db
          (run_planned addresses files method deletion mode db plan)
  unfolding run_planned
  run_planned-IsKept method deletion mode db (err e) = inl refl
  run_planned-IsKept method deletion mode db (ok proxy) =
      transact-IsKept (change addresses method deletion proxy mode) db

module _ {Value : Type 0} (json : Json Value) (addresses : Addresses)
    (parse_query : Text → List (Text × Text)) (files : Files) where
  run-IsKept :
      (method : Method) (path : Text) (deletion : Option ProxyLocation) (payload : Option Value)
      (db : ConfigDatabase)
      → IsKept {A = ServerConfig} addresses files db
          (run json addresses parse_query files method path deletion payload db)
  unfolding run
  run-IsKept get path deletion payload db = inl refl
  run-IsKept patch path deletion payload db =
      run_planned-IsKept addresses files patch deletion (listen_of json payload) db
        (planned json addresses patch path payload)
  run-IsKept delete path deletion payload db =
      run_planned-IsKept addresses files delete deletion (listen_of json payload) db
        (planned json addresses delete path payload)
  run-IsKept other path deletion payload db =
      run_planned-IsKept addresses files other deletion (listen_of json payload) db
        (planned json addresses other path payload)

  run_checked-IsKept :
      (method : Method) (path : Text) (payload : Option Value) (db : ConfigDatabase)
      (checked : Fallible (Option ProxyLocation))
      → IsKept {A = Settings} addresses files db
          (run_checked json addresses parse_query files method path payload db checked)
  run_checked-IsKept method path payload db (err e) = inl refl
  run_checked-IsKept method path payload db (ok deletion) =
      answered-IsKept addresses files method path db
        (run json addresses parse_query files method path deletion payload db)
        (run-IsKept method path deletion payload db)

  -- A request leaves the database as it was, or leaves one that the server can be started with.
  -- In the second case an error comes only from the work on files after the commit.
  pub config_database-IsKept :
      (method : Method) (path : Text) (query : Option Text) (payload : Option Value)
      (db : ConfigDatabase)
      → IsKept {A = Settings} addresses files db
          (config_database json addresses parse_query files method path query payload db)
  unfolding config_database
  config_database-IsKept method path query payload db = run_checked-IsKept method path payload db (
      refuse_if (not (is_listen path || is_mount path)) route_not_found
      >> deletion_of addresses parse_query method path query)
