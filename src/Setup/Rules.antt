-- ===== src/Setup/Rules.antt =====
-- src/setup.rs, `config_database`: what a mounted or unmounted rule changes in the table.
use pishoo.Base.{
  true, false, Option, none, some, List, [], ◌∷◌, ◌++◌, Text, chars, text_eq, text_eq_refl,
  eq_of_text_eq, find, find_sound, find-none, In, All, ◌≡◌, ◌≢◌, ◌⊎◌, inl, inr, refl, sym, ap, ◌∙◌,
  subst, ok, err, ◌>>=◌, Result-cases, Option-cases, Bool-cases, arith,
}
use pishoo.Failure.{Fallible}
use pishoo.Routes.{ProxyLocation}
use pishoo.Setup.{Addresses, upstream_text}
use pishoo.Setup.Database.{ConfigDatabase, ServerConfig, read_config, read_server_config}
use pishoo.Setup.Requests.{
  Method, patch, Files, Json, Settings, has_key, deletion_of, planned, listen_of, parse_proxy_json,
}
use pishoo.Setup.Transactions.{
  without_row, at_location, delete_rule, set_rule, change, prepare, commit, transact, run,
  run_planned, answered, config_database,
}

-- The row of the table at a location.
abbrev pub row_at : Text → ConfigDatabase → Option (Text × Text)
row_at location db = find (has_key location) db.rows

find-without_row :
    (location : Text) (rows : List (Text × Text))
    → find (has_key location) (without_row location rows) ≡ none
unfolding without_row
find-without_row location [] = refl
find-without_row location ((l, u) ∷ rows) = elim (Bool-cases (text_eq l location)) [
  | inl same ↦ ground (arith, find-without_row location rows)
  | inr other ↦ ground (arith, find-without_row location rows)
]

other_key : (l a b : Text) → a ≢ b → text_eq l a ≡ true → text_eq l b ≡ false
other_key l a b differ h = elim (Bool-cases (text_eq l b)) [
  | inl same ↦ absurd (differ (sym (eq_of_text_eq l a h) ∙ eq_of_text_eq l b same))
  | inr other ↦ other
]

find_other-without_row :
    (location other : Text) (rows : List (Text × Text))
    → other ≢ location
    → find (has_key other) (without_row location rows) ≡ find (has_key other) rows
unfolding without_row
find_other-without_row location other [] differ = refl
find_other-without_row location other ((l, u) ∷ rows) differ = elim (Bool-cases (text_eq l other)) [
  | inl here ↦ ground (arith, other_key l other location differ here)
  | inr elsewhere ↦ ground (arith, find_other-without_row location other rows differ)
]

find-append :
    (key : Text) (rows : List (Text × Text)) (row : Text × Text)
    → find (has_key key) rows ≡ none
    → find (has_key key) (rows ++ row ∷ []) ≡ find (has_key key) (row ∷ [])
find-append key [] row h = refl
find-append key (r ∷ rows) row h = elim (Bool-cases (has_key key r)) [
  | inl here ↦ ground arith
  | inr elsewhere ↦ ground (arith, find-append key rows row)
]

find-append_other :
    (key : Text) (rows : List (Text × Text)) (row : Text × Text)
    → has_key key row ≡ false
    → find (has_key key) (rows ++ row ∷ []) ≡ find (has_key key) rows
find-append_other key [] row h = ground arith
find-append_other key (r ∷ rows) row h = elim (Bool-cases (has_key key r)) [
  | inl here ↦ ground arith
  | inr elsewhere ↦ ground (arith, find-append_other key rows row h)
]

set_rule-row_at :
    (rule : ProxyLocation) (db : ConfigDatabase)
    → row_at rule.location (set_rule rule db) ≡ some (rule.location, upstream_text rule)
unfolding set_rule
set_rule-row_at rule db =
    find-append rule.location (without_row rule.location db.rows) _
      (find-without_row rule.location db.rows)
    ∙ rw (text_eq_refl rule.location) refl

set_rule-other :
    (rule : ProxyLocation) (db : ConfigDatabase) (other : Text)
    → other ≢ rule.location
    → row_at other (set_rule rule db) ≡ row_at other db
unfolding set_rule
set_rule-other rule db other differ =
    find-append_other other (without_row rule.location db.rows) _ (
      other_key rule.location rule.location other (λ e. differ (sym e))
        (text_eq_refl rule.location))
    ∙ find_other-without_row rule.location other db.rows differ

module _ (addresses : Addresses) (files : Files) where
  commit-ok :
      (db changed : ConfigDatabase) {config : ServerConfig} {left : ConfigDatabase}
      → commit addresses files db changed ≡ (ok config, left)
      → changed ≡ left
  unfolding commit
  commit-ok db changed h = elim (Result-cases (read_server_config addresses changed)) [
    | inl (read, e) ↦ ground arith
    | inr (e, fails) ↦ ground arith
  ]

  transact-ok :
      (statements : ConfigDatabase → Fallible ConfigDatabase) (db : ConfigDatabase)
      {config : ServerConfig} {left : ConfigDatabase}
      → transact addresses files statements db ≡ (ok config, left)
      → statements db ≡ ok left
  unfolding transact
  transact-ok statements db {config} {left} h = elim (Result-cases (prepare addresses files db)) [
    | inr (e, fails) ↦ ground arith
    | inl (before, ready) ↦ elim (Result-cases (statements db)) [
      | inr (e, fails) ↦ ground arith
      | inl (changed, e) ↦
          let same : changed ≡ left = commit-ok db changed {config = config} (ground arith) in
          e ∙ ap (λ c. ok c) same
    ]
  ]

answered-ok :
    (method : Method) (path : Text) (o : Fallible ServerConfig × ConfigDatabase)
    {settings : Settings} {left : ConfigDatabase}
    → answered method path o ≡ (ok settings, left)
    → (config : ServerConfig) × (o ≡ (ok config, left))
answered-ok method path (ok config, changed) {left = left} h =
    let same : changed ≡ left = ap (λ p. p.1) h in (config, ap (λ d. (ok config, d)) same)
answered-ok method path (err e, changed) h = ground arith

-- The rule is in the table, and every other location as before.
abbrev pub IsMounted : ProxyLocation → ConfigDatabase → ConfigDatabase → Type 0
IsMounted rule db left =
    (row_at rule.location left ≡ some (rule.location, upstream_text rule))
    × ((other : Text) → other ≢ rule.location → row_at other left ≡ row_at other db)

-- No rule is at the location, and every other location is as before.
abbrev pub IsUnmounted : ProxyLocation → ConfigDatabase → ConfigDatabase → Type 0
IsUnmounted rule db left =
    (row_at rule.location left ≡ none)
    × ((other : Text) → other ≢ rule.location → row_at other left ≡ row_at other db)

set_rule-IsMounted :
    (rule : ProxyLocation) (db : ConfigDatabase) → IsMounted rule db (set_rule rule db)
set_rule-IsMounted rule db = (set_rule-row_at rule db, set_rule-other rule db)

module _ {Value : Type 0} (json : Json Value) (addresses : Addresses)
    (parse_query : Text → List (Text × Text)) (files : Files) where
  -- A PATCH of the mounts that succeeds has a valid rule as its payload. The rule is then in the
  -- table in place of the one at its location, and the other locations are as before.
  pub config_database-IsMounted :
      (value : Value) (db : ConfigDatabase) {settings : Settings} {left : ConfigDatabase}
      → config_database json addresses parse_query files patch
          (chars "/std/sys/mount")
          none
          (some value)
          db
        ≡ (ok settings, left)
      → (rule : ProxyLocation) × (parse_proxy_json json addresses value ≡ ok rule)
        × IsMounted rule db left
  unfolding config_database run run_planned planned deletion_of change text_eq
  config_database-IsMounted value db {settings} {left} h =
      elim (Result-cases (parse_proxy_json json addresses value)) [
        | inr (e, fails) ↦ ground arith
        | inl (rule, e) ↦
            let plan =
              subst
                (λ r.
                  answered patch (chars "/std/sys/mount") (
                    run_planned addresses files patch none (listen_of json (some value)) db
                      (r >>= λ rule. ok (some rule)))
                  ≡ (ok settings, left))
                e h in
            let done = answered-ok patch (chars "/std/sys/mount") _ plan in
            let rows =
              transact-ok addresses files
                (change addresses patch none (some rule) (listen_of json (some value))) db done.1 in
            let same : set_rule rule db ≡ left = ground arith in
            (rule, e, subst (IsMounted rule db) same (set_rule-IsMounted rule db))
      ]

module _ (addresses : Addresses) where
  -- A rule is removed only if the rule in force at its location has the upstream that the request
  -- names; the other locations then stay. Without a rule at the location nothing changes.
  pub delete_rule-IsUnmounted :
      (rule : ProxyLocation) (db : ConfigDatabase) {left : ConfigDatabase}
      → delete_rule addresses rule db ≡ ok left
      → (config : ServerConfig) × (read_config addresses db ≡ ok config)
        × (((left ≡ db) × All (λ p. at_location rule.location p ≡ false) config.proxy_locations)
            ⊎ ((existing : ProxyLocation) × In existing config.proxy_locations
                × (existing.location ≡ rule.location)
                × (upstream_text existing ≡ upstream_text rule)
                × IsUnmounted rule db left))
  unfolding delete_rule
  delete_rule-IsUnmounted rule db {left} h = elim (Result-cases (read_config addresses db)) [
    | inr (e, fails) ↦ ground arith
    | inl (config, e) ↦
        elim (Option-cases (find (at_location rule.location) config.proxy_locations)) [
          | inl missing ↦
              (config, e, inl (ground arith, find-none _ config.proxy_locations missing))
          | inr (existing, found) ↦
              elim (Bool-cases (text_eq (upstream_text existing) (upstream_text rule))) [
                | inr changed ↦ ground arith
                | inl agrees ↦
                    let at = find_sound (at_location rule.location) config.proxy_locations found in
                    let removed : record db { rows = without_row rule.location db.rows } ≡ left =
                      ground arith in
                    (
                      config,
                      e,
                      inr (
                        existing,
                        at.0,
                        eq_of_text_eq existing.location rule.location at.1,
                        eq_of_text_eq (upstream_text existing) (upstream_text rule) agrees,
                        subst (IsUnmounted rule db) removed (
                          find-without_row rule.location db.rows,
                          λ other differ. find_other-without_row rule.location other db.rows differ,
                        ),
                      ),
                    )
              ]
        ]
  ]
