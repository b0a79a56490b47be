-- ===== src/Migrations/Examples.antt =====
-- The theorems on the migrations at the migrations of the binary, with scripts that add their names.
use rust_panel.Db.Safe.{Safe}
use rust_panel.Prelude.{
  refl, [], ◌∷◌, none, ok, err, true, false, Bool, List, Text, arith, ◌≡◌, Option, Result, codes,
  take, ℕ, if◌then◌else◌, ◌++◌, ◌&&◌, text_eq, find_first,
}
use rust_panel.Db.{◌>>◌, update, query, fail_when, finish, constrained, quiet}
use rust_panel.Migrations.{
  Schema, Migration, baseline_of, later_of, apply_pending, apply_each, validate_history, Bool, List,
  Text, Option, Result, codes, ℕ, text_eq, adopt_legacy_baseline, applied_versions, check_rows,
  find_first, apply_one, run_script, record_migration,
}
use rust_panel.Migrations.Complete.{IsOrderly, Rising}
use rust_panel.Migrations.Blank.{played, played_on, apply_pending-blank}
use rust_panel.Prelude.{some}
use rust_panel.Migrations.History.{expected}
use rust_panel.Migrations.Complete.{pairs}
use rust_panel.Migrations.Pending.{IsMigrated, apply_pending-IsMigrated}
use rust_panel.Migrations.Progress.{Ran, RanPart, pending, apply_each-Ran}
use rust_panel.Migrations.History.{IsVerdict, validate_history-IsInitial}

abbrev script : Text → Text
script name = codes " " ++ name

-- the tables are the names of the scripts that ran; the fifth is refused when `stops` is set
abbrev run_on : Bool → Text → List Text → Result Text (List Text)
run_on stops sql names =
    if stops && text_eq sql (script (codes "005_audit"))
    then err (codes "near line 1: syntax error")
    else ok (names ++ sql ∷ [])

abbrev appends : Text → List Text → List Text
appends sql names = names ++ sql ∷ []

abbrev legacy : List Text → Option (List Text)
legacy names = none

abbrev short_hash : Text → Text
short_hash sql = take 3 sql

abbrev blank : Schema (List Text)
blank = record { history = none; rest = [] }

abbrev two_rows : List (ℕ × Text)
two_rows = (1, codes "001") ∷ (2, codes "002") ∷ []

abbrev all_migrations : List Migration
all_migrations = baseline_of script ∷ later_of script

abbrev rises : Rising 0 all_migrations
rises = (
  omega arith,
  (
    omega arith,
    (omega arith, (omega arith, (omega arith, (omega arith, (omega arith, (omega arith, tt)))))),
  ),
)

-- a blank database is brought to the last version
blank_is_migrated :
    (apply_pending
      (run_on false)
      legacy
      short_hash
      7
      (baseline_of script)
      (later_of script)
      (record { tables = blank; faults = [] })).0
    ≡ ok 8
unfolding apply_pending ◌>>◌ update adopt_legacy_baseline applied_versions query validate_history
    check_rows apply_each find_first fail_when apply_one finish run_script constrained
    record_migration
blank_is_migrated = refl

validate_history-IsInitial_example :
    IsVerdict short_hash all_migrations two_rows false
      (validate_history short_hash all_migrations two_rows false)
validate_history-IsInitial_example =
    validate_history-IsInitial short_hash all_migrations two_rows false

apply_each-Ran_example :
    Safe
      (apply_each (run_on true) short_hash 7 all_migrations two_rows 2)
      blank
      (λ v u. Ran (run_on true) short_hash 7 (pending two_rows all_migrations) blank u)
      (λ _ u. RanPart (run_on true) short_hash 7 (pending two_rows all_migrations) blank u)
apply_each-Ran_example = apply_each-Ran (run_on true) short_hash 7 all_migrations two_rows 2 blank

apply_pending-IsMigrated_example :
    Safe
      (apply_pending (run_on true) legacy short_hash 7 (baseline_of script) (later_of script))
      blank
      (IsMigrated (run_on true) legacy short_hash 7 (baseline_of script) (later_of script) rises)
      (λ _ u. IsOrderly short_hash all_migrations blank u)
apply_pending-IsMigrated_example =
    apply_pending-IsMigrated (run_on true) legacy short_hash 7 (baseline_of script)
      (later_of script) rises blank

apply_pending-blank_example :
    (apply_pending
        (played appends short_hash 7)
        legacy
        short_hash
        7
        (baseline_of script)
        (later_of script)
        (quiet blank)
      ≡ (
        ok 8,
        quiet (
            played_on appends short_hash 7 all_migrations
              (record { history = some []; rest = [] })),
      ))
    × (pairs short_hash
          (played_on appends short_hash 7 all_migrations (record { history = some []; rest = [] }))
        ≡ expected short_hash all_migrations)
apply_pending-blank_example =
    apply_pending-blank appends short_hash 7 legacy (baseline_of script) (later_of script) [] refl
      (refl, (refl, (refl, (refl, (refl, (refl, (refl, (refl, refl))))))))
