-- ===== src/Migrations.antt =====
-- src/repository/migrations.rs: versioned migrations of the schema. What a script does to the tables, the columns
-- of `rp_users`, SHA-256 and the texts of the scripts are parameters. The rows of `schema_migrations` are
-- in the order of their versions: a row is only written with a version above all others.
pub mod History
pub mod Progress
pub mod Complete
pub mod Pending
pub mod Blank
pub mod Examples
use rust_panel.Accounts.Tables.{is_none}
use rust_panel.Prelude.Decimal.{digits}
use rust_panel.Prelude.Map.{or_else}
use rust_panel.Prelude.{
  [], ◌∷◌, none, some, ok, err, false, List, Option, Result, Text, ℕ, Bool, find_first,
  if◌then◌else◌, trim, any, ltb, not, is_empty, length, one_of, ◌==◌, text_eq, ◌&&◌, ◌+◌,
}
use rust_panel.Db.{
  ◌>>=◌, ◌>>◌, Db, constrained, pure, query, spend, update, fail_when, finish, throw,
}
use rust_panel.Prelude.{codes, ◌++◌, map}

pub record Migration : Type 0 where
  pub version : ℕ
  pub name : Text
  pub sql : Text

abbrev pub expected_schema_version : ℕ
expected_schema_version = 8

abbrev pub numbered : (Text → Text) → ℕ → Text → Migration
numbered sql_of version name = record { version = version; name = name; sql = sql_of name }

-- `MIGRATIONS`: the first, and those after it, from the texts of the scripts by their names
abbrev pub baseline_of : (Text → Text) → Migration
baseline_of sql_of = numbered sql_of 1 (codes "001_initial")

abbrev pub later_of : (Text → Text) → List Migration
later_of sql_of =
    numbered sql_of 2 (codes "002_argon2_password")
    ∷ numbered sql_of 3 (codes "003_sessions")
    ∷ numbered sql_of 4 (codes "004_rbac")
    ∷ numbered sql_of 5 (codes "005_audit")
    ∷ numbered sql_of 6 (codes "006_sse_tickets")
    ∷ numbered sql_of 7 (codes "007_secrets")
    ∷ numbered sql_of 8 (codes "008_sse_sessions")
    ∷ []

-- a row of `schema_migrations`
pub record Applied : Type 0 where
  pub version : ℕ
  pub name : Text
  pub checksum : Text
  pub applied_at : ℕ

-- The history, once its table is there, and the other tables.
pub record Schema (D : Type 0) : Type 0 where
  pub history : Option (List Applied)
  pub rest : D

abbrev pub rows_of : {D : Type 0} → Schema D → List Applied
rows_of s = or_else s.history []

abbrev pub pair_of : Applied → ℕ × Text
pair_of r = (r.version, r.checksum)

abbrev pub last_version : List (ℕ × Text) → ℕ
last_version [] = 0
last_version (r ∷ []) = r.0
last_version (r ∷ s ∷ rows) = last_version (s ∷ rows)

abbrev pub required_columns : List Text
required_columns =
    codes "id"
    ∷ codes "username"
    ∷ codes "password"
    ∷ codes "salt"
    ∷ codes "initial_password"
    ∷ codes "authority"
    ∷ codes "error_count"
    ∷ codes "status"
    ∷ codes "created_at"
    ∷ codes "updated_at"
    ∷ []

-- how a run of a script stands against the tables: its error, if it has one
abbrev pub error_of : {D : Type 0} → Result Text D → Option Text
error_of (ok d) = none
error_of (err m) = some m

abbrev pub result_of : {D : Type 0} → D → Result Text D → D
result_of before (ok d) = d
result_of before (err m) = before

-- the first column that is missing of those that the baseline needs
abbrev pub missing_column : List Text → Option Text
missing_column columns = find_first (λ c. not (one_of columns c)) required_columns

module _ (hash : Text → Text) where
  unfoldable pub checksum : Text → Text
  checksum sql = hash (trim sql)

  -- the loop of `validate_history`; a history that is longer than the migrations is refused before
  unfoldable pub check_rows : List Migration → List (ℕ × Text) → Result Text (Unit {0})
  check_rows ms [] = ok tt
  check_rows [] (r ∷ rows) = err (codes "Database contains migrations newer than this binary")
  check_rows (m ∷ ms) (r ∷ rows) =
      let rest = check_rows ms rows in
      if not (r.0 == m.version)
      then err (codes "Unknown migration or history gap at version " ++ digits r.0)
      else if not (text_eq r.1 (checksum m.sql))
      then err (codes "Migration " ++ (digits r.0 ++ codes " checksum mismatch"))
      else rest

  unfoldable pub validate_history : List Migration → List (ℕ × Text) → Bool → Result Text ℕ
  validate_history ms applied complete =
      if ltb (length ms) (length applied)
      then err (codes "Database contains migrations newer than this binary")
      else elim (check_rows ms applied) [
        | err m ↦ err m
        | ok _ ↦
            if complete && not (last_version applied == expected_schema_version)
            then err (codes "Verified database missing expected schema version")
            else ok (last_version applied)
      ]

module _ (hash : Text → Text) (now : ℕ) where
  abbrev pub applied_row : Migration → Applied
  applied_row m = record {
    version = m.version;
    name = m.name;
    checksum = checksum hash m.sql;
    applied_at = now;
  }

module _ {D : Type 0} where
  abbrev pub version_taken : ℕ → Schema D → Option Text
  version_taken v s =
      if any (λ r. Applied.version r == v) (rows_of s)
      then some (codes "UNIQUE constraint failed: schema_migrations.version")
      else none

  unfoldable pub applied_versions : Db (Schema D) Text (List (ℕ × Text))
  applied_versions =
      query (λ e. codes "Failed to read schema_migrations: " ++ e) (λ s. map pair_of (rows_of s))

  -- `CREATE TABLE IF NOT EXISTS schema_migrations`
  abbrev pub ensure_table : Schema D → Schema D
  ensure_table s = record s { history = some (rows_of s) }

  abbrev pub lift : {A : Type 0} → Result Text A → Db (Schema D) Text A
  lift (ok a) = pure a
  lift (err e) = throw e

-- the end of `apply_pending`
abbrev pub expect_version : {D : Type 0} → ℕ → Db (Schema D) Text ℕ
expect_version current = do
  fail_when (not (current == expected_schema_version)) (
      codes "Schema version mismatch: database is at "
      ++ (digits current ++ (codes ", binary expects " ++ digits expected_schema_version)))
  pure current

module _ {D : Type 0} (hash : Text → Text) (now : ℕ) where
  abbrev pub add_row : Migration → Schema D → Schema D
  add_row m s = record s { history = some (rows_of s ++ applied_row hash now m ∷ []) }

  unfoldable pub record_migration : Migration → Db (Schema D) Text (Unit {0})
  record_migration m =
      constrained
        (λ e. codes "Failed to record migration " ++ (digits m.version ++ (codes ": " ++ e)))
        (version_taken m.version) (λ s. (tt, add_row m s))

module _ {D : Type 0} (run : Text → D → Result Text D) (hash : Text → Text) (now : ℕ) where
  unfoldable pub run_script : Migration → Db (Schema D) Text (Unit {0})
  run_script m =
      constrained
        (λ e.
          codes "Migration "
          ++ (digits m.version ++ (codes " (" ++ (m.name ++ (codes ") failed: " ++ e)))))
        (λ s. error_of (run m.sql s.rest))
        (λ s. (tt, record s { rest = result_of s.rest (run m.sql s.rest) }))

  -- The immediate transaction of a turn of the loop of `apply_pending`. After a COMMIT that fails there is no ROLLBACK in
  -- the code: the tables here are those that the database keeps when the connection is closed.
  unfoldable pub apply_one : Migration → Db (Schema D) Text (Unit {0})
  apply_one m =
      spend (λ e. codes "Failed to begin migration transaction: " ++ e)
        (λ c.
          finish
            (λ e. codes "Failed to commit migration " ++ (digits m.version ++ (codes ": " ++ e)))
            c.tables ((run_script m >> record_migration hash now m) c))

  -- a turn of the loop, with the row of the migration if it has one, and the turns that follow
  abbrev pub apply_turn :
      Migration → ℕ → Db (Schema D) Text ℕ → Option (ℕ × Text) → Db (Schema D) Text ℕ
  apply_turn m current rest (some r) = do
    fail_when (not (text_eq r.1 (checksum hash m.sql))) (
        codes "Migration "
        ++ (digits m.version
            ++ codes " checksum mismatch: database has a different SQL history than this binary"))
    rest
  apply_turn m current rest none = do
    fail_when (not (m.version == current + 1)) (
        codes "Migration gap: expected version "
        ++ (digits (current + 1) ++ (codes ", found pending " ++ digits m.version)))
    apply_one m
    rest

  unfoldable pub apply_each : List Migration → List (ℕ × Text) → ℕ → Db (Schema D) Text ℕ
  apply_each [] applied current = pure current
  apply_each (m ∷ ms) applied current =
      apply_turn m current (apply_each ms applied m.version)
        (find_first (λ r. r.0 == m.version) applied)

module _ {D : Type 0} (run : Text → D → Result Text D) (user_columns : D → Option (List Text))
    (hash : Text → Text) (now : ℕ) where
  abbrev pub adopt : Migration → Option (List Text) → Db (Schema D) Text (Unit {0})
  adopt baseline none = pure tt
  adopt baseline (some columns) = do
    found ← query (λ e. codes "Cannot inspect legacy schema: " ++ e) (λ s. missing_column columns)
    fail_when (not (is_none found))
        (codes "Unsupported legacy schema: missing rp_users." ++ or_else found [])
    record_migration hash now baseline

  unfoldable pub adopt_legacy_baseline : Migration → Db (Schema D) Text (Unit {0})
  adopt_legacy_baseline baseline = do
    applied ← applied_versions
    if not (is_empty applied)
        then pure tt
        else (query (λ e. codes "Failed to inspect table rp_users: " ++ e)
              (λ s. user_columns s.rest)
            >>= adopt baseline)

  unfoldable pub apply_pending : Migration → List Migration → Db (Schema D) Text ℕ
  apply_pending baseline later = do
    update (λ e. codes "Failed to create schema_migrations: " ++ e) (λ s. (tt, ensure_table s))
    adopt_legacy_baseline baseline
    applied ← applied_versions
    start ← lift (validate_history hash (baseline ∷ later) applied false)
    current ← apply_each run hash now (baseline ∷ later) applied start
    expect_version current
