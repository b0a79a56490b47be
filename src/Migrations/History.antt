-- ===== src/Migrations/History.antt =====
-- `validate_history` of src/repository/migrations.rs, against the rows that the migrations are to have.
use rust_panel.Prelude.{
  true, false, ==_iff, Bool, length, ap, if◌then◌else◌, ltb, ◌≤◌, arith, text_eq_iff, ◌&&◌, not,
  ◌⊎◌, ltb→lt,
}
use rust_panel.Prelude.{inl, inr, Bool-cases, ◌==◌, text_eq}
use rust_panel.Migrations.{
  Migration, check_rows, checksum, text_eq, Bool, length, validate_history, last_version, ltb,
  expected_schema_version, not,
}
use rust_panel.Prelude.{refl, [], ◌∷◌, ok, err, Text, Result, List, ℕ, ◌≡◌}
use rust_panel.Prelude.{codes, ◌++◌}

module _ (hash : Text → Text) where
  -- the row that a migration is to have
  abbrev pub expected : List Migration → List (ℕ × Text)
  expected [] = []
  expected (m ∷ ms) = (m.version, checksum hash m.sql) ∷ expected ms

  abbrev pub IsInitial : List (ℕ × Text) → List Migration → Type 0
  IsInitial rows ms = (rest : List (ℕ × Text)) × (expected ms ≡ rows ++ rest)

  abbrev pub IsChecked : List (ℕ × Text) → List Migration → Result Text (Unit {0}) → Type 0
  IsChecked rows ms (ok u) = IsInitial rows ms
  IsChecked rows ms (err e) = ¬ IsInitial rows ms

  pub IsInitial-head :
      (m : Migration) (r : ℕ × Text) (ms : List Migration) (rows : List (ℕ × Text))
      → IsInitial (r ∷ rows) (m ∷ ms)
      → (r ≡ (m.version, checksum hash m.sql)) × IsInitial rows ms
  IsInitial-head m r ms rows (rest, e) = (cc e, (rest, cc e))

  initial_of :
      (m : Migration) (r : ℕ × Text) (ms : List Migration) (rows : List (ℕ × Text))
      → r ≡ (m.version, checksum hash m.sql)
      → (x : Result Text (Unit {0})) → IsChecked rows ms x
      → IsChecked (r ∷ rows) (m ∷ ms) x
  initial_of m r ms rows same (ok u) (rest, e) = (rest, cc (same, e))
  initial_of m r ms rows same (err x) h = λ k. h (IsInitial-head m r ms rows k).1

  check_rows-IsChecked :
      (ms : List Migration) (rows : List (ℕ × Text)) → IsChecked rows ms (check_rows hash ms rows)
  unfolding check_rows
  check_rows-IsChecked ms [] = (expected ms, refl)
  check_rows-IsChecked [] (r ∷ rows) = λ h. nothing r rows h.0 h.1
    where
      nothing : (r : ℕ × Text) (rows rest : List (ℕ × Text)) → [] ≡ (r ∷ rows) ++ rest → ⊥
      nothing r rows rest e = cc e
  check_rows-IsChecked (m ∷ ms) (r ∷ rows) = elim (Bool-cases (r.0 == m.version)) [
    | inr other ↦
        rw (other) (λ h.
          cc (other, (==_iff r.0 m.version).1 (ap (λ x. x.0) (IsInitial-head m r ms rows h).0)))
    | inl same ↦ elim (Bool-cases (text_eq r.1 (checksum hash m.sql))) [
      | inr differs ↦ rw (same) (
          rw (differs) (λ h. cc (
            differs,
            (text_eq_iff r.1 (checksum hash m.sql)).1
                (ap (λ x. x.1) (IsInitial-head m r ms rows h).0),
          )))
      | inl matches ↦ rw (same) (
          rw (matches) (
            initial_of m r ms rows
              (cc
                ((==_iff r.0 m.version).0 same, (text_eq_iff r.1 (checksum hash m.sql)).0 matches))
              (check_rows hash ms rows) (check_rows-IsChecked ms rows)))
    ]
  ]

  initial-length :
      (ms : List Migration) (rows : List (ℕ × Text)) → IsInitial rows ms → length rows ≤ length ms
  initial-length ms [] h = omega arith
  initial-length [] (r ∷ rows) (rest, e) = absurd (cc e)
  initial-length (m ∷ ms) (r ∷ rows) h =
      omega (arith, initial-length ms rows (IsInitial-head m r ms rows h).1)

  abbrev pub IsVerdict : List Migration → List (ℕ × Text) → Bool → Result Text ℕ → Type 0
  IsVerdict ms rows complete (ok v) =
      IsInitial rows ms
      × ((v ≡ last_version rows) × (complete ≡ true → v ≡ expected_schema_version))
  IsVerdict ms rows complete (err e) =
      ¬ IsInitial rows ms ⊎ ((complete ≡ true) × ¬ (last_version rows ≡ expected_schema_version))

  verdict :
      (ms : List Migration) (rows : List (ℕ × Text)) (complete : Bool) (x : Result Text (Unit {0}))
      → IsChecked rows ms x
      → IsVerdict ms rows complete (elim x [
        | err m ↦ err m
        | ok _ ↦
            if complete && not (last_version rows == expected_schema_version)
            then err (codes "Verified database missing expected schema version")
            else ok (last_version rows)
      ])
  verdict ms rows complete (err m) h = inl h
  verdict ms rows false (ok u) h = (h, (refl, λ e. absurd (cc e)))
  verdict ms rows true (ok u) h = elim (Bool-cases (last_version rows == expected_schema_version)) [
    | inl same ↦
        rw (same) (h, (refl, λ _. (==_iff (last_version rows) expected_schema_version).0 same))
    | inr other ↦
        rw (other)
          (inr (refl, λ e. cc (other, (==_iff (last_version rows) expected_schema_version).1 e)))
  ]

  -- A history that passes is an initial part of the migrations with their checksums, the answer is its last version,
  -- and that is the expected version when a complete history is asked for. One that is refused is no initial
  -- part, or it is to be complete and ends at another version.
  pub validate_history-IsInitial :
      (ms : List Migration) (rows : List (ℕ × Text)) (complete : Bool)
      → IsVerdict ms rows complete (validate_history hash ms rows complete)
  unfolding validate_history
  validate_history-IsInitial ms rows complete = elim (Bool-cases (ltb (length ms) (length rows))) [
    | inl longer ↦ rw (longer) (
        inl (λ h. omega (arith, ltb→lt (length ms) (length rows) longer, initial-length ms rows h)))
    | inr fits ↦
        rw (fits)
          (verdict ms rows complete (check_rows hash ms rows) (check_rows-IsChecked ms rows))
  ]
