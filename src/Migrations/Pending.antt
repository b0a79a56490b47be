-- ===== src/Migrations/Pending.antt =====
-- `apply_pending` of src/repository/migrations.rs on any connection.
use rust_panel.Prelude.{[], not, ◌==◌, sym, ◌∙◌, arith}
use rust_panel.Db.Safe.{
  Safe, Safe->>, Safe->>=, Safe-update, Safe-imp, Safe-pure, Safe-query, Safe-throw, Safe-fail_when,
}
use rust_panel.Prelude.{◌∷◌, ok, err, false, inl, inr, Text, Result, Option, List, ℕ, ◌≡◌}
use mathlib.Core.List.{append-nil}
use rust_panel.Db.{◌>>=◌, ◌>>◌, Db, fail_when, pure}
use rust_panel.Migrations.Complete.{
  Rising, IsOrderly, pairs, whole_of_Ran, part_of_Ran, adopt_legacy_baseline-IsOrderly,
}
use rust_panel.Migrations.History.{IsInitial, IsVerdict, expected, validate_history-IsInitial}
use rust_panel.Migrations.Progress.{apply_each-Ran}
use rust_panel.Migrations.{
  Migration, Schema, apply_pending, Text, Result, Option, List, ℕ, applied_versions,
  expected_schema_version, lift, validate_history, ensure_table, not,
}
use rust_panel.Prelude.{refl}

module _ {D : Type 0} (run : Text → D → Result Text D) (user_columns : D → Option (List Text))
    (hash : Text → Text) (now : ℕ) (baseline : Migration) (later : List Migration)
    (rising : Rising 0 (baseline ∷ later)) where
  abbrev pub all_of : List Migration
  all_of = baseline ∷ later

  -- The history has a row for each migration of the binary, and the version is the last.
  abbrev pub IsMigrated : ℕ → Schema D → Type 0
  IsMigrated n u = (n ≡ expected_schema_version) × (pairs hash u ≡ expected hash (baseline ∷ later))

  checked :
      (t v : Schema D)
      → IsOrderly hash all_of t v
      → (f : ℕ → Db (Schema D) Text ℕ)
      → ((n : ℕ)
          → IsInitial hash (pairs hash v) all_of
          → Safe (f n) v IsMigrated (λ _ u. IsOrderly hash all_of t u))
      → (x : Result Text ℕ) → IsVerdict hash all_of (pairs hash v) false x
      → Safe (lift x >>= f) v IsMigrated (λ _ u. IsOrderly hash all_of t u)
  checked t v o f k (ok n) h = Safe->>= _ _ (Safe-pure n (k n h.0))
  checked t v o f k (err e) h = Safe->>= _ _ (Safe-throw e o)

  finished :
      (t u : Schema D) (n : ℕ)
      → pairs hash u ≡ expected hash all_of
      → (e : Text)
      → Safe
          (fail_when (not (n == expected_schema_version)) e >> pure n)
          u
          IsMigrated
          (λ _ w. IsOrderly hash all_of t w)
  finished t u n whole e = Safe->> _ _ (
      Safe-fail_when _ _ (λ fine. Safe-pure n (last fine, whole))
        (inr ([], sym whole ∙ sym (append-nil (pairs hash u)))))
    where
      last : not (n == expected_schema_version) ≡ false → n ≡ expected_schema_version
      last fine = ground arith

  -- Where the versions of the migrations rise, whatever statement fails: after a failure the rows of the history are
  -- those of before, or an initial part of the migrations; after a success they are those of all
  -- migrations, and the answer is the expected version.
  pub apply_pending-IsMigrated :
      (t : Schema D)
      → Safe
          (apply_pending run user_columns hash now baseline later)
          t
          IsMigrated
          (λ _ u. IsOrderly hash (baseline ∷ later) t u)
  unfolding apply_pending applied_versions
  apply_pending-IsMigrated t = Safe->> _ _ (
      Safe-update _ _
        (Safe->> _ _ (
          Safe-imp
            (λ _ v o. Safe->>= _ _ (
              Safe-query _ _
                (checked t v o _
                  (λ n initial. Safe->>= _ _ (
                    Safe-imp
                      (λ m u ran.
                        finished t u m (whole_of_Ran hash run now all_of v u rising initial ran) _)
                      (λ _ u part. inr (part_of_Ran hash run now all_of v u rising initial part))
                      (apply_each-Ran run hash now all_of (pairs hash v) n v)))
                  (validate_history hash all_of (pairs hash v) false)
                  (validate_history-IsInitial hash all_of (pairs hash v) false))
                (λ _. o)))
            (λ _ u o. o)
            (adopt_legacy_baseline-IsOrderly hash run user_columns now baseline later t
              (ensure_table t) refl)))
        (λ _. inl refl))
