-- ===== src/Migrations/Progress.antt =====
-- The loop of `apply_pending` of src/repository/migrations.rs, as steps on the tables.
use rust_panel.Prelude.{some, Option}
use rust_panel.Db.{◌>>◌}
use rust_panel.Accounts.Tables.{is_none}
use rust_panel.Db.{Db}
use rust_panel.Prelude.{
  refl, [], ◌∷◌, none, ok, err, Text, Result, ℕ, List, ◌≡◌, retain, subst, ◌++◌, find_first, ◌==◌,
  sym,
}
use rust_panel.Db.Safe.{
  Safe, Safe-pure, Safe-transaction, Safe->>, Safe-constrained, Safe-imp, Safe-fail_when,
}
use rust_panel.Migrations.{
  apply_turn, Migration, Schema, add_row, apply_one, Text, Result, ℕ, List, apply_each, error_of,
  run_script, Db, record_migration, result_of, is_none, find_first, Option,
}

-- the migrations without a row
abbrev pub pending : List (ℕ × Text) → List Migration → List Migration
pending applied = retain (λ m. is_none (find_first (λ r. r.0 == Migration.version m) applied))

module _ {D : Type 0} (run : Text → D → Result Text D) (hash : Text → Text) (now : ℕ) where
  -- the schema when a script left the tables `d` and its row is written
  abbrev pub after : Migration → D → Schema D → Schema D
  after m d t = add_row hash now m (record t { rest = d })

  -- The scripts ran, one after another, and each has its row.
  pub data Ran : List Migration → Schema D → Schema D → Type 0 where
    none_left : {t : Schema D} → Ran [] t t
    next :
        {m : Migration} {ms : List Migration} {d : D} {t u : Schema D}
        → run m.sql t.rest ≡ ok d
        → Ran ms (after m d t) u
        → Ran (m ∷ ms) t u

  -- An initial part of the scripts ran.
  abbrev pub RanPart : List Migration → Schema D → Schema D → Type 0
  RanPart ms t u = (done rest : List Migration) × ((ms ≡ done ++ rest) × Ran done t u)

  abbrev pub RanOne : Migration → Schema D → Schema D → Type 0
  RanOne m t u = (d : D) × ((run m.sql t.rest ≡ ok d) × (u ≡ after m d t))

  ran_ok : (r : Result Text D) (before : D) → error_of r ≡ none → r ≡ ok (result_of before r)
  ran_ok (ok d) before h = refl
  ran_ok (err e) before h = absurd (cc h)

  apply_one-RanOne :
      (m : Migration) (t : Schema D)
      → Safe (apply_one run hash now m) t (λ _ u. RanOne m t u) (λ _ u. u ≡ t)
  unfolding apply_one run_script record_migration
  apply_one-RanOne m t =
      Safe-transaction _ _ _
        (Safe->> _ _ (
          Safe-constrained _ _ _
            (λ good.
              Safe-constrained _ _ _
                (λ free. (
                  result_of t.rest (run m.sql t.rest),
                  (ran_ok (run m.sql t.rest) t.rest good, refl),
                ))
                (λ _. tt))
            (λ _. tt)))
        (λ _. refl)

  RanPart-next :
      {m : Migration} {ms : List Migration} {t v : Schema D} {u : Schema D}
      → RanOne m t v
      → RanPart ms v u
      → RanPart (m ∷ ms) t u
  RanPart-next {m} {ms} {t} {v} {u} (d, (ran, same)) (done, rest, (split, steps)) =
      (m ∷ done, rest, (cc split, next ran (subst (λ w. Ran done w u) same steps)))

  after_one :
      (m : Migration) (ms : List Migration) (t : Schema D) (rest : Db (Schema D) Text ℕ)
      → ((u : Schema D) → Safe rest u (λ v w. Ran ms u w) (λ _ w. RanPart ms u w))
      → Safe
          (apply_one run hash now m >> rest)
          t
          (λ v u. Ran (m ∷ ms) t u)
          (λ _ u. RanPart (m ∷ ms) t u)
  after_one m ms t rest h = Safe->> _ _ (
      Safe-imp
        (λ _ v one.
          Safe-imp
            (λ n w (steps : Ran ms v w). next one.1.0 (subst (λ x. Ran ms x w) one.1.1 steps))
            (λ _ w part. RanPart-next one part) (h v))
        (λ _ v same. ([], m ∷ ms, (refl, subst (λ w. Ran [] t w) (sym same) none_left)))
        (apply_one-RanOne m t))

  apply_turn-Ran :
      (m : Migration) (ms : List Migration) (applied : List (ℕ × Text)) (current : ℕ) (t : Schema D)
      (rest : Db (Schema D) Text ℕ)
      → ((u : Schema D)
          → Safe rest u
              (λ v w. Ran (pending applied ms) u w)
              (λ _ w. RanPart (pending applied ms) u w))
      → (o : Option (ℕ × Text)) → find_first (λ r. r.0 == m.version) applied ≡ o
      → Safe
          (apply_turn run hash now m current rest o)
          t
          (λ v u. Ran (pending applied (m ∷ ms)) t u)
          (λ _ u. RanPart (pending applied (m ∷ ms)) t u)
  unfolding retain
  apply_turn-Ran m ms applied current t rest h (some r) found =
      rw (found)
        (Safe->> _ _ (Safe-fail_when _ _ (λ _. h t) ([], pending applied ms, (refl, none_left))))
  apply_turn-Ran m ms applied current t rest h none new = rw (new) (
      Safe->> _ _ (
        Safe-fail_when _ _ (λ _. after_one m (pending applied ms) t rest h)
          ([], m ∷ pending applied ms, (refl, none_left))))

  -- Whatever statement fails, the scripts that have no row yet ran from the first on, each on the tables that the
  -- one before left, and each with its row written, up to some script; a failed one leaves nothing. On
  -- success all of them ran.
  pub apply_each-Ran :
      (ms : List Migration) (applied : List (ℕ × Text)) (current : ℕ) (t : Schema D)
      → Safe
          (apply_each run hash now ms applied current)
          t
          (λ v u. Ran (pending applied ms) t u)
          (λ _ u. RanPart (pending applied ms) t u)
  unfolding apply_each retain
  apply_each-Ran [] applied current t = Safe-pure current none_left
  apply_each-Ran (m ∷ ms) applied current t =
      apply_turn-Ran m ms applied current t (apply_each run hash now ms applied m.version)
        (λ u. apply_each-Ran ms applied m.version u) _ refl
