-- ===== src/Migrations/Blank.antt =====
-- `apply_pending` of src/repository/migrations.rs on a blank database.
use rust_panel.Migrations.History.{expected}
use rust_panel.Migrations.Complete.{pairs, pairs_of_Ran}
use rust_panel.Prelude.{none, some, Bool, not, ◌∙◌, ap, Option, ltb, length}
use rust_panel.Prelude.{
  refl, [], ◌∷◌, ok, false, Text, ℕ, List, Result, ◌<◌, ◌≡◌, any, find_first, ◌+◌, arith, ◌==◌,
}
use rust_panel.Db.{Db, Conn, continue, update, query}
use rust_panel.Db.{◌>>=◌, ◌>>◌, quiet, fail_when, finish, constrained}
use rust_panel.Prelude.{any-append}
use rust_panel.Migrations.{
  Migration, Schema, apply_one, Text, ℕ, List, Result, apply_each, run_script, any, find_first,
  record_migration, Applied, rows_of, applied_row, Bool, apply_pending, not, adopt_legacy_baseline,
  applied_versions, validate_history, check_rows, Option, expected_schema_version, lift, ltb,
  expect_version, length,
}
use rust_panel.Migrations.Progress.{Ran, none_left, next}
use rust_panel.Migrations.Progress.{after}

passes :
    {S E A : Type 0} (b : Bool) (e : E) (k : Db S E A) (c : Conn S)
    → b ≡ false
    → (fail_when b e >> k) c ≡ k c
unfolding fail_when ◌>>◌ ◌>>=◌
passes b e k c h = rw (h) refl

module _ {D : Type 0} (plays : Text → D → D) (hash : Text → Text) (now : ℕ) where
  -- scripts that all succeed
  abbrev pub played : Text → D → Result Text D
  played sql d = ok (plays sql d)

  -- No row has a version above `n`.
  abbrev pub IsBelow : ℕ → Schema D → Type 0
  IsBelow n t = (v : ℕ) → n < v → any (λ r. Applied.version r == v) (rows_of t) ≡ false

  -- The versions follow on `n` without a gap, and end at `last`.
  abbrev pub IsNumbered : ℕ → List Migration → ℕ → Type 0
  IsNumbered n [] last = n ≡ last
  IsNumbered n (m ∷ ms) last = (m.version ≡ n + 1) × IsNumbered (n + 1) ms last

  abbrev pub played_on : List Migration → Schema D → Schema D
  played_on [] t = t
  played_on (m ∷ ms) t = played_on ms (after played hash now m (plays m.sql t.rest) t)

  IsBelow-after :
      (n : ℕ) (m : Migration) (d : D) (t : Schema D)
      → IsBelow n t
      → m.version ≡ n + 1
      → IsBelow (n + 1) (after played hash now m d t)
  IsBelow-after n m d t h same v above = ground (
    arith,
    any-append (λ r. Applied.version r == v) (rows_of t) (applied_row hash now m ∷ []),
    h v (omega (arith, above)),
    same,
    above,
  )

  apply_one-quiet :
      (n : ℕ) (m : Migration) (t : Schema D)
      → IsBelow n t
      → m.version ≡ n + 1
      → apply_one played hash now m (quiet t)
        ≡ (ok tt, quiet (after played hash now m (plays m.sql t.rest) t))
  unfolding apply_one run_script record_migration finish constrained ◌>>◌ ◌>>=◌
  apply_one-quiet n m t h same = rw (h m.version (omega (arith, same))) refl

  apply_each-quiet :
      (n last : ℕ) (ms : List Migration) (t : Schema D)
      → IsBelow n t
      → IsNumbered n ms last
      → apply_each played hash now ms [] n (quiet t) ≡ (ok last, quiet (played_on ms t))
  unfolding apply_each find_first ◌>>◌ ◌>>=◌
  apply_each-quiet n last [] t h e = cc e
  apply_each-quiet n last (m ∷ ms) t h (same, more) =
      passes (not (m.version == n + 1)) _ _ (quiet t) (ground (arith, same))
      ∙ ap (continue (λ _. apply_each played hash now ms [] m.version))
          (apply_one-quiet n m t h same)
      ∙ ap
          (λ v.
            apply_each played hash now ms [] v
              (quiet (after played hash now m (plays m.sql t.rest) t)))
          same
      ∙ apply_each-quiet (n + 1) last ms (after played hash now m (plays m.sql t.rest) t)
          (IsBelow-after n m (plays m.sql t.rest) t h same) more

  played_on-Ran : (ms : List Migration) (t : Schema D) → Ran played hash now ms t (played_on ms t)
  played_on-Ran [] t = none_left
  played_on-Ran (m ∷ ms) t =
      next refl (played_on-Ran ms (after played hash now m (plays m.sql t.rest) t))

  validate_history-blank : (ms : List Migration) → validate_history hash ms [] false ≡ ok 0
  unfolding validate_history check_rows
  validate_history-blank ms = rw (none_below (length ms)) refl
    where
      none_below : (n : ℕ) → ltb n 0 ≡ false
      none_below n = ground arith

  -- On a database without history and without users, whose statements are all answered, and with scripts that all
  -- succeed, a binary whose versions are 1, 2 and so on to the expected one answers that version: each
  -- script ran in its turn, and the history has the rows of all.
  pub apply_pending-blank :
      (user_columns : D → Option (List Text)) (baseline : Migration) (later : List Migration)
      (d : D)
      → user_columns d ≡ none
      → IsNumbered 0 (baseline ∷ later) expected_schema_version
      → (apply_pending played user_columns hash now baseline later
            (quiet (record { history = none; rest = d }))
          ≡ (
            ok expected_schema_version,
            quiet (played_on (baseline ∷ later) (record { history = some []; rest = d })),
          ))
        × (pairs hash (played_on (baseline ∷ later) (record { history = some []; rest = d }))
            ≡ expected hash (baseline ∷ later))
  unfolding apply_pending adopt_legacy_baseline applied_versions update query fail_when ◌>>◌ ◌>>=◌
  apply_pending-blank user_columns baseline later d absent numbered = (
    rw (absent) (
        ap
          (λ x.
            (lift x >>= λ start.
            apply_each played hash now (baseline ∷ later) [] start >>= expect_version)
              (quiet (record { history = some []; rest = d })))
          (validate_history-blank (baseline ∷ later))
        ∙ ap (continue expect_version) (
            apply_each-quiet 0 expected_schema_version (baseline ∷ later)
              (record { history = some []; rest = d }) (λ v above. refl) numbered)),
    pairs_of_Ran hash played now (baseline ∷ later) (record { history = some []; rest = d }) _
        (played_on-Ran (baseline ∷ later) (record { history = some []; rest = d })),
  )
