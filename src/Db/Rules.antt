-- ===== src/Db/Rules.antt =====
-- What a successful operation did, statement by statement; and that a failed transaction did nothing.
use rust_panel.Prelude.{[], ◌∷◌, inl, inr, Result, ◌∙◌, ◌⊎◌, List}
use rust_panel.Db.{
  acquire, fail_when, query, require, transaction, update, Bool, Option, Text, Conn, Db, Result,
  finish, map_err, spend, List, continue, relabel, constrained,
}
use rust_panel.Db.{◌>>=◌, ◌>>◌}
use rust_panel.Prelude.{
  refl, none, some, ok, err, true, false, Bool, Option, Text, ◌≡◌, ap, arith, sym,
}

module _ {S E : Type 0} where
  pub query-ok :
      {A : Type 0} (e : Text → E) (f : S → A) (c : Conn S) {a : A} {d : Conn S}
      → query e f c ≡ (ok a, d)
      → (a ≡ f c.tables) × (d.tables ≡ c.tables)
  unfolding query
  query-ok e f c h = ground arith

  pub update-ok :
      {A : Type 0} (e : Text → E) (f : S → A × S) (c : Conn S) {a : A} {d : Conn S}
      → update e f c ≡ (ok a, d)
      → (a ≡ (f c.tables).0) × (d.tables ≡ (f c.tables).1)
  unfolding update
  update-ok e f c h = ground arith

  pub constrained-ok :
      {A : Type 0} (e : Text → E) (broken : S → Option Text) (f : S → A × S) (c : Conn S) {a : A}
      {d : Conn S}
      → constrained e broken f c ≡ (ok a, d)
      → (broken c.tables ≡ none) × (a ≡ (f c.tables).0) × (d.tables ≡ (f c.tables).1)
  unfolding constrained
  constrained-ok e broken f c h = ground arith

  pub acquire-ok :
      (e : Text → E) (c : Conn S) {a : Unit {0}} {d : Conn S}
      → acquire e c ≡ (ok a, d)
      → d.tables ≡ c.tables
  unfolding acquire
  acquire-ok e c h = ground arith

  pub fail_when-ok :
      (b : Bool) (e : E) (c : Conn S) {a : Unit {0}} {d : Conn S}
      → fail_when b e c ≡ (ok a, d)
      → (b ≡ false) × (d ≡ c)
  unfolding fail_when
  fail_when-ok true e c h = cc (ap (λ x. x.0) h)
  fail_when-ok false e c h = (refl, sym (ap (λ x. x.1) h))

  pub require-ok :
      {A : Type 0} (o : Option A) (e : E) (c : Conn S) {a : A} {d : Conn S}
      → require o e c ≡ (ok a, d)
      → (o ≡ some a) × (d ≡ c)
  unfolding require
  require-ok none e c h = cc (ap (λ x. x.0) h)
  require-ok (some a) e c h = ground arith

  pub >>=-ok :
      {A B : Type 0} (m : Db S E A) (f : A → Db S E B) (c : Conn S) {b : B} {d : Conn S}
      → (m >>= f) c ≡ (ok b, d)
      → (a : A) × (c' : Conn S) × (m c ≡ (ok a, c')) × (f a c' ≡ (ok b, d))
  unfolding ◌>>=◌
  >>=-ok {A = A} {B = B} m f c {b} {d} h = go (m c) refl h
    where
      go :
          (r : Result E A × Conn S)
          → m c ≡ r
          → continue f r ≡ (ok b, d)
          → (a : A) × (c' : Conn S) × (m c ≡ (ok a, c')) × (f a c' ≡ (ok b, d))
      go (ok a, c') e k = (a, c', e, k)
      go (err x, c') e k = cc (ap (λ x. x.0) k)

  pub >>-ok :
      {B : Type 0} (m : Db S E (Unit {0})) (k : Db S E B) (c : Conn S) {b : B} {d : Conn S}
      → (m >> k) c ≡ (ok b, d)
      → (c' : Conn S) × (m c ≡ (ok tt, c')) × (k c' ≡ (ok b, d))
  unfolding ◌>>◌
  >>-ok m k c h = let (u, c', p, q) = >>=-ok m (λ _. k) c h in (c', p, q)

  finish-ok :
      {A : Type 0} (e : Text → E) (t : S) (r : Result E A × Conn S) {a : A} {d : Conn S}
      → finish e t r ≡ (ok a, d)
      → (d' : Conn S) × (r ≡ (ok a, d')) × (d.tables ≡ d'.tables)
  unfolding finish
  finish-ok e t (err x, c) h = cc (ap (λ x. x.0) h)
  finish-ok e t (ok a, c) h = (c, ground arith, ground arith)

  finish-err :
      {A : Type 0} (e : Text → E) (t : S) (r : Result E A × Conn S) {x : E} {d : Conn S}
      → finish e t r ≡ (err x, d)
      → d.tables ≡ t
  unfolding finish
  finish-err e t (err x, c) h = ground arith
  finish-err e t (ok a, c) h = ground arith

  -- A statement is answered on the tables as they are, or fails and changes none.
  pub spend-cases :
      {A : Type 0} (e : Text → E) (run : Db S E A) (c : Conn S)
      → ((c' : Conn S) × (c'.tables ≡ c.tables) × (spend e run c ≡ run c'))
        ⊎ ((m : Text) × (c' : Conn S) × (c'.tables ≡ c.tables) × (spend e run c ≡ (err (e m), c')))
  spend-cases e run c = go c.faults refl
    where
      go :
          (fs : List (Option Text))
          → c.faults ≡ fs
          → ((c' : Conn S) × (c'.tables ≡ c.tables) × (spend e run c ≡ run c'))
            ⊎ ((m : Text) × (c' : Conn S) × (c'.tables ≡ c.tables)
                × (spend e run c ≡ (err (e m), c')))
      go [] h = inl (c, refl, ground arith)
      go (none ∷ rest) h = inl (record c { faults = rest }, refl, ground arith)
      go (some m ∷ rest) h = inr (m, record c { faults = rest }, refl, ground arith)

  -- A committed transaction did what its body did.
  pub transaction-ok :
      {A : Type 0} (e : Text → E) (body : Db S E A) (c : Conn S) {a : A} {d : Conn S}
      → transaction e body c ≡ (ok a, d)
      → (c' : Conn S) × (d' : Conn S) × (c'.tables ≡ c.tables)
        × (body c' ≡ (ok a, d'))
        × (d.tables ≡ d'.tables)
  unfolding transaction
  transaction-ok e body c h = elim (spend-cases e (λ k. finish e k.tables (body k)) c) [
    | inl (c', same, ran) ↦
        let (d', p, q) = finish-ok e c'.tables (body c') (sym ran ∙ h) in (c', d', same, p, q)
    | inr (m, c', same, failed) ↦ cc (ap (λ x. x.0) (sym failed ∙ h))
  ]

  -- A transaction that fails, wherever it fails, leaves the tables as they were.
  pub transaction-err :
      {A : Type 0} (e : Text → E) (body : Db S E A) (c : Conn S) {x : E} {d : Conn S}
      → transaction e body c ≡ (err x, d)
      → d.tables ≡ c.tables
  unfolding transaction
  transaction-err e body c h = elim (spend-cases e (λ k. finish e k.tables (body k)) c) [
    | inl (c', same, ran) ↦ finish-err e c'.tables (body c') (sym ran ∙ h) ∙ same
    | inr (m, c', same, failed) ↦ ap (λ x. x.1.tables) (sym (sym failed ∙ h)) ∙ same
  ]

  pub map_err-ok :
      {F A : Type 0} (f : E → F) (m : Db S E A) (c : Conn S) {a : A} {d : Conn S}
      → map_err f m c ≡ (ok a, d)
      → m c ≡ (ok a, d)
  unfolding map_err
  map_err-ok {F = F} {A = A} f m c {a} {d} h = go (m c) h
    where
      go : (r : Result E A × Conn S) → relabel f r ≡ (ok a, d) → r ≡ (ok a, d)
      go (ok b, k) e = ground arith
      go (err x, k) e = cc (ap (λ x. x.0) e)
