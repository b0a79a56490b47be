-- ===== src/Migrations/Complete.antt =====
-- The history in `apply_pending` and `adopt_legacy_baseline` of src/repository/migrations.rs.
use rust_panel.Db.{◌>>=◌, pure, query}
use rust_panel.Prelude.{none, some, inl, inr, Option, ◌⊎◌, if◌then◌else◌, sym, not, is_empty, codes}
use rust_panel.Prelude.{
  refl, [], ◌∷◌, Text, retain, ℕ, List, find_first, ◌++◌, ◌<◌, ◌≡◌, ◌≤◌, ==_iff, ap, arith, Result,
  map, ◌∙◌, map-append,
}
use mathlib.Core.List.{append-nil, append_assoc}
use rust_panel.Migrations.Progress.{after}
use rust_panel.Migrations.History.{IsInitial, expected, IsInitial-head}
use rust_panel.Migrations.Progress.{Ran, none_left, next, RanPart, pending}
use rust_panel.Db.Safe.{
  Safe, Safe-constrained, Safe-pure, Safe->>=, Safe-query, Safe->>, Safe-fail_when,
}
use rust_panel.Migrations.{
  Migration, Schema, Text, ℕ, List, find_first, Result, map, add_row, pair_of, checksum, rows_of,
  applied_row, Option, adopt, adopt_legacy_baseline, record_migration, applied_versions, not,
  is_empty, codes,
}

-- The versions rise, from above `n`.
abbrev pub Rising : ℕ → List Migration → Type 0
Rising n [] = Unit
Rising n (m ∷ ms) = (n < m.version) × Rising m.version ms

pending_below :
    (r : ℕ × Text) (rows : List (ℕ × Text)) (n : ℕ) (ms : List Migration)
    → Rising n ms
    → r.0 ≤ n
    → pending (r ∷ rows) ms ≡ pending rows ms
unfolding retain find_first
pending_below r rows n [] h below = refl
pending_below r rows n (m ∷ ms) h below =
    ground (arith, pending_below r rows m.version ms h.1 (omega (arith, h.0, below)), h.0, below)

pending_all : (ms : List Migration) → pending [] ms ≡ ms
unfolding retain find_first
pending_all [] = refl
pending_all (m ∷ ms) = ap (λ xs. m ∷ xs) (pending_all ms)

module _ (hash : Text → Text) where
  expected-append :
      (ms rest : List Migration)
      → expected hash (ms ++ rest) ≡ expected hash ms ++ expected hash rest
  expected-append [] rest = refl
  expected-append (m ∷ ms) rest = cc (expected-append ms rest)

  pending_head :
      (m : Migration) (r : ℕ × Text) (ms : List Migration) (rows : List (ℕ × Text))
      → r.0 ≡ m.version
      → Rising m.version ms
      → pending (r ∷ rows) (m ∷ ms) ≡ pending rows ms
  unfolding retain find_first
  pending_head m r ms rows same h =
      rw ((==_iff r.0 m.version).1 same) (pending_below r rows m.version ms h (omega (arith, same)))

  -- An initial part and what is pending are the whole.
  initial_whole :
      (n : ℕ) (ms : List Migration) (rows : List (ℕ × Text))
      → Rising n ms
      → IsInitial hash rows ms
      → rows ++ expected hash (pending rows ms) ≡ expected hash ms
  initial_whole n ms [] h i = ap (expected hash) (pending_all ms)
  initial_whole n [] (r ∷ rows) h (rest, e) = absurd (cc e)
  initial_whole n (m ∷ ms) (r ∷ rows) h i =
      let head = IsInitial-head hash m r ms rows i in
      cc (
        head.0,
        pending_head m r ms rows (ap (λ x. x.0) head.0) h.1,
        initial_whole m.version ms rows h.1 head.1,
      )

  abbrev pub pairs : {D : Type 0} → Schema D → List (ℕ × Text)
  pairs s = map pair_of (rows_of s)

  module _ {D : Type 0} (run : Text → D → Result Text D) (now : ℕ) where
    pairs-add_row :
        (m : Migration) (s : Schema D)
        → pairs (add_row hash now m s) ≡ pairs s ++ (m.version, checksum hash m.sql) ∷ []
    pairs-add_row m s = map-append pair_of (rows_of s) (applied_row hash now m ∷ [])

    pub pairs_of_Ran :
        (ms : List Migration) (t u : Schema D)
        → Ran run hash now ms t u
        → pairs u ≡ pairs t ++ expected hash ms
    pairs_of_Ran _ t _ none_left = sym (append-nil (pairs t))
    pairs_of_Ran _ t u (next {m} {ms} {d} ran more) =
        pairs_of_Ran ms (after run hash now m d t) u more
        ∙ ap (λ p. p ++ expected hash ms) (pairs-add_row m (record t { rest = d }))
        ∙ append_assoc (pairs t) ((m.version, checksum hash m.sql) ∷ []) (expected hash ms)

    -- A history that stands at an initial part of the migrations stays so under pending ones.
    pub whole_of_Ran :
        (ms : List Migration) (t u : Schema D)
        → Rising 0 ms
        → IsInitial hash (pairs t) ms
        → Ran run hash now (pending (pairs t) ms) t u
        → pairs u ≡ expected hash ms
    whole_of_Ran ms t u h i ran =
        pairs_of_Ran (pending (pairs t) ms) t u ran ∙ initial_whole 0 ms (pairs t) h i

    pub part_of_Ran :
        (ms : List Migration) (t u : Schema D)
        → Rising 0 ms
        → IsInitial hash (pairs t) ms
        → RanPart run hash now (pending (pairs t) ms) t u
        → IsInitial hash (pairs u) ms
    part_of_Ran ms t u h i (done, rest, (split, ran)) = (
      expected hash rest,
      sym (initial_whole 0 ms (pairs t) h i)
          ∙ ap (λ p. pairs t ++ expected hash p) split
          ∙ ap (λ p. pairs t ++ p) (expected-append done rest)
          ∙ sym (append_assoc (pairs t) (expected hash done) (expected hash rest))
          ∙ ap (λ p. p ++ expected hash rest) (sym (pairs_of_Ran done t u ran)),
    )

  -- The history of `u` is that of `t`, or an initial part of the migrations.
  abbrev pub IsOrderly : {D : Type 0} → List Migration → Schema D → Schema D → Type 0
  IsOrderly ms t u = (pairs u ≡ pairs t) ⊎ IsInitial hash (pairs u) ms

  module _ {D : Type 0} (run : Text → D → Result Text D) (user_columns : D → Option (List Text))
      (now : ℕ) where
    record_migration-IsInitial :
        (m : Migration) (ms : List Migration) (t u : Schema D)
        → pairs u ≡ []
        → pairs u ≡ pairs t
        → Safe
            (record_migration hash now m)
            u
            (λ _ v. IsOrderly (m ∷ ms) t v)
            (λ _ v. IsOrderly (m ∷ ms) t v)
    unfolding record_migration
    record_migration-IsInitial m ms t u empty same =
        Safe-constrained _ _ _ (λ _. inr (expected hash ms, cc (pairs-add_row run now m u, empty)))
          (λ _. inl same)

    adopt-IsOrderly :
        (m : Migration) (ms : List Migration) (t u : Schema D) (columns : Option (List Text))
        → pairs u ≡ []
        → pairs u ≡ pairs t
        → Safe
            (adopt run user_columns hash now m columns)
            u
            (λ _ v. IsOrderly (m ∷ ms) t v)
            (λ _ v. IsOrderly (m ∷ ms) t v)
    adopt-IsOrderly m ms t u none empty same = Safe-pure tt (inl same)
    adopt-IsOrderly m ms t u (some columns) empty same = Safe->>= _ _ (
        Safe-query _ _
          (Safe->> _ _
            (Safe-fail_when _ _ (λ _. record_migration-IsInitial m ms t u empty same) (inl same)))
          (λ _. inl same))

    pub adopt_legacy_baseline-IsOrderly :
        (m : Migration) (ms : List Migration) (t u : Schema D)
        → pairs u ≡ pairs t
        → Safe
            (adopt_legacy_baseline run user_columns hash now m)
            u
            (λ _ v. IsOrderly (m ∷ ms) t v)
            (λ _ v. IsOrderly (m ∷ ms) t v)
    unfolding adopt_legacy_baseline applied_versions
    adopt_legacy_baseline-IsOrderly m ms t u same =
        Safe->>= _ _ (Safe-query _ _ (go (pairs u) refl) (λ _. inl same))
      where
        go :
            (rows : List (ℕ × Text))
            → pairs u ≡ rows
            → Safe
                (if not (is_empty rows)
                  then pure tt
                  else (query
                        (λ e. codes "Failed to inspect table rp_users: " ++ e)
                        (λ s. user_columns s.rest)
                      >>= adopt run user_columns hash now m))
                u
                (λ _ v. IsOrderly (m ∷ ms) t v)
                (λ _ v. IsOrderly (m ∷ ms) t v)
        go [] empty = Safe->>= _ _ (
            Safe-query _ _ (adopt-IsOrderly m ms t u (user_columns u.rest) empty same)
              (λ _. inl same))
        go (r ∷ rows) e = Safe-pure tt (inl same)
