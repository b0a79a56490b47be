-- ===== src/Db/Keeps.antt =====
-- What an operation keeps of the tables, whether it succeeds or fails and whatever statements fail.
use rust_panel.Prelude.{inl, inr, Option-cases}
use rust_panel.Db.Rules.{transaction-err, spend-cases}
use rust_panel.Db.Ensures.{Ensures, ensures-ok, ensures-transaction}
use rust_panel.Prelude.{refl, none, some, ok, err, Text, Option, Result, ◌≡◌, subst, sym}
use rust_panel.Db.{
  ◌>>=◌, ◌>>◌, Db, Text, acquire, constrained, pure, query, require, update, Conn, Option, Result,
  spend, continue, transaction,
}

pub record Keeps {S E A : Type 0} (P : S → Type 0) (m : Db S E A) : Type 0 where
  pub at : (c : Conn S) → P c.tables → P (m c).1.tables

module _ {S E : Type 0} {P : S → Type 0} where
  Keeps-spend : {A : Type 0} (e : Text → E) (run : Db S E A) → Keeps P run → Keeps P (spend e run)
  Keeps-spend e run h = record {
    at = λ c p. elim (spend-cases e run c) [
      | inl (d, same, ran) ↦ subst (λ r. P r.1.tables) (sym ran) (h.at d (subst P (sym same) p))
      | inr (m, d, same, missed) ↦ subst (λ r. P r.1.tables) (sym missed) (subst P (sym same) p)
    ];
  }

  pub Keeps-query : {A : Type 0} (e : Text → E) (f : S → A) → Keeps P (query e f)
  unfolding query
  Keeps-query e f = Keeps-spend e _ (record { at = λ c p. p })

  pub Keeps-acquire : (e : Text → E) → Keeps P (acquire e)
  unfolding acquire
  Keeps-acquire e = Keeps-spend e _ (record { at = λ c p. p })

  pub Keeps-update :
      {A : Type 0} (e : Text → E) (f : S → A × S)
      → ((t : S) → P t → P (f t).1)
      → Keeps P (update e f)
  unfolding update
  Keeps-update e f h = Keeps-spend e _ (record { at = λ c p. h c.tables p })

  pub Keeps-constrained :
      {A : Type 0} (e : Text → E) (broken : S → Option Text) (f : S → A × S)
      → ((t : S) → broken t ≡ none → P t → P (f t).1)
      → Keeps P (constrained e broken f)
  unfolding constrained
  Keeps-constrained e broken f h = Keeps-spend e _ (record {
    at = λ c p. elim (Option-cases (broken c.tables)) [
      | inl met ↦ rw (met) (h c.tables met p)
      | inr (m, unmet) ↦ rw (unmet) p
    ];
  })

  pub Keeps-pure : {A : Type 0} (a : A) → Keeps {E = E} P (pure a)
  Keeps-pure a = record { at = λ c p. p }

  pub Keeps-require : {A : Type 0} (o : Option A) (e : E) → Keeps P (require o e)
  unfolding require
  Keeps-require none e = record { at = λ c p. p }
  Keeps-require (some a) e = record { at = λ c p. p }

  -- A transaction that fails changes nothing, so it is enough that it keeps `P` when it is committed.
  pub Keeps-transaction :
      {A : Type 0} (e : Text → E) (body : Db S E A)
      → ((t : S) → P t → Ensures body t (λ _ u. P u))
      → Keeps P (transaction e body)
  Keeps-transaction {A = A} e body h = record { at = λ c p. go c p (transaction e body c) refl }
    where
      go :
          (c : Conn S)
          → P c.tables
          → (r : Result E A × Conn S) → transaction e body c ≡ r
          → P r.1.tables
      go c p (ok a, d) ran =
          ensures-ok c (ensures-transaction e body c.tables (λ _ u. P u) (h c.tables p)) ran
      go c p (err x, d) ran = subst P (sym (transaction-err e body c ran)) p

  pub Keeps->>= :
      {A B : Type 0} (m : Db S E A) (f : A → Db S E B)
      → Keeps P m
      → ((a : A) → Keeps P (f a))
      → Keeps P (m >>= f)
  unfolding ◌>>=◌
  Keeps->>= {A = A} {B = B} m f h g = record { at = λ c p. go (m c) (h.at c p) }
    where
      go : (r : Result E A × Conn S) → P r.1.tables → P (continue f r).1.tables
      go (ok a, d) p = (g a).at d p
      go (err x, d) p = p

  pub Keeps->> :
      {B : Type 0} (m : Db S E (Unit {0})) (k : Db S E B) → Keeps P m → Keeps P k → Keeps P (m >> k)
  unfolding ◌>>◌
  Keeps->> m k h g = Keeps->>= m (λ _. k) h (λ _. g)
