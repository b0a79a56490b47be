-- ===== src/Db/Quiet.antt =====
-- Statements that are answered, under constraints that hold.
use rust_panel.Prelude.{refl, none, ok, Text, Option, ◌≡◌, ap}
use rust_panel.Db.{◌>>=◌, ◌>>◌, Text, constrained, Option, Db, quiet, continue}

module _ {S E : Type 0} where
  pub constrained-quiet :
      {A : Type 0} (e : Text → E) (broken : S → Option Text) (f : S → A × S) (t : S)
      → broken t ≡ none
      → constrained e broken f (quiet t) ≡ (ok (f t).0, quiet (f t).1)
  unfolding constrained
  constrained-quiet e broken f t met = rw (met) refl

  pub >>-constrained-quiet :
      {B : Type 0} (e : Text → E) (broken : S → Option Text) (f : S → Unit {0} × S) (k : Db S E B)
      (t : S)
      → broken t ≡ none
      → (constrained e broken f >> k) (quiet t) ≡ k (quiet (f t).1)
  unfolding ◌>>◌ ◌>>=◌
  >>-constrained-quiet e broken f k t met =
      ap (continue (λ _. k)) (constrained-quiet e broken f t met)

  pub >>=-constrained-quiet :
      {A B : Type 0} (e : Text → E) (broken : S → Option Text) (f : S → A × S) (k : A → Db S E B)
      (t : S)
      → broken t ≡ none
      → (constrained e broken f >>= k) (quiet t) ≡ k (f t).0 (quiet (f t).1)
  unfolding ◌>>=◌
  >>=-constrained-quiet e broken f k t met = ap (continue k) (constrained-quiet e broken f t met)
