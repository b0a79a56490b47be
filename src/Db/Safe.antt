-- ===== src/Db/Safe.antt =====
-- What holds after an operation, with a postcondition for success and one for failure.
use rust_panel.Prelude.{[], ◌∷◌, some, ◌⊎◌}
use rust_panel.Prelude.{true, false, Bool, List}
use rust_panel.Db.Rules.{spend-cases}
use rust_panel.Prelude.{
  refl, none, ok, err, inl, inr, Result, Text, Option, subst, sym, ◌≡◌, Option-cases, ◌∙◌,
}
use rust_panel.Db.{
  ◌>>=◌, ◌>>◌, Db, Result, Text, constrained, pure, query, throw, update, Conn, Option, spend,
  continue, acquire, fail_when, finish, Bool, List,
}

abbrev pub Ends :
    {S E A : Type 0} → (A → S → Type 0) → (E → S → Type 0) → Result E A × Conn S → Type 0
Ends Q R (ok a, d) = Q a d.tables
Ends Q R (err e, d) = R e d.tables

-- From the tables `t`, a success satisfies `Q` and a failure satisfies `R`.
pub record Safe {S E A : Type 0} (m : Db S E A) (t : S) (Q : A → S → Type 0) (R : E → S → Type 0)
    : Type 0 where
  pub at : (c : Conn S) → c.tables ≡ t → Ends Q R (m c)

module _ {S E A : Type 0} {t : S} {Q : A → S → Type 0} {R : E → S → Type 0} where
  Safe-spend :
      (e : Text → E) (run : Db S E A)
      → Safe run t Q R
      → ((m : Text) → R (e m) t)
      → Safe (spend e run) t Q R
  Safe-spend e run h r = record {
    at = λ c same. elim (spend-cases e run c) [
      | inl (d, kept, ran) ↦ subst (Ends Q R) (sym ran) (h.at d (kept ∙ same))
      | inr (m, d, kept, failed) ↦
          subst (Ends Q R) (sym failed) (subst (R (e m)) (sym (kept ∙ same)) (r m))
    ];
  }

  pub Safe-query :
      (e : Text → E) (f : S → A) → Q (f t) t → ((m : Text) → R (e m) t) → Safe (query e f) t Q R
  unfolding query
  Safe-query e f q r =
      Safe-spend e _ (record { at = λ c same. subst (λ u. Q (f u) u) (sym same) q }) r

  pub Safe-update :
      (e : Text → E) (f : S → A × S)
      → Q (f t).0 (f t).1
      → ((m : Text) → R (e m) t)
      → Safe (update e f) t Q R
  unfolding update
  Safe-update e f q r =
      Safe-spend e _ (record { at = λ c same. subst (λ u. Q (f u).0 (f u).1) (sym same) q }) r

  pub Safe-constrained :
      (e : Text → E) (broken : S → Option Text) (f : S → A × S)
      → (broken t ≡ none → Q (f t).0 (f t).1)
      → ((m : Text) → R (e m) t)
      → Safe (constrained e broken f) t Q R
  unfolding constrained
  Safe-constrained e broken f q r =
      Safe-spend e _
        (record {
          at = λ c same. elim (Option-cases (broken c.tables)) [
            | inl met ↦ rw (met) (subst (λ u. broken u ≡ none → Q (f u).0 (f u).1) (sym same) q met)
            | inr (m, unmet) ↦ rw (unmet) (subst (R (e m)) (sym same) (r m))
          ];
        })
        r

  pub Safe-pure : (a : A) → Q a t → Safe {E = E} (pure a) t Q R
  Safe-pure a q = record { at = λ c same. subst (Q a) (sym same) q }

  pub Safe-throw : (e : E) → R e t → Safe (throw e) t Q R
  Safe-throw e r = record { at = λ c same. subst (R e) (sym same) r }

pub Safe-acquire :
    {S E : Type 0} {t : S} {Q : Unit {0} → S → Type 0} {R : E → S → Type 0} (e : Text → E)
    → Q tt t
    → ((m : Text) → R (e m) t)
    → Safe (acquire e) t Q R
unfolding acquire
Safe-acquire {Q} e q r = Safe-spend e _ (record { at = λ c same. subst (Q tt) (sym same) q }) r

pub Safe->>= :
    {S E A B : Type 0} {t : S} {Q : B → S → Type 0} {R : E → S → Type 0} (m : Db S E A)
    (f : A → Db S E B)
    → Safe m t (λ a u. Safe (f a) u Q R) R
    → Safe (m >>= f) t Q R
unfolding ◌>>=◌
Safe->>= {S} {E} {A} {B} {t} {Q} {R} m f h = record { at = λ c same. go (m c) (h.at c same) }
  where
    go : (r : Result E A × Conn S) → Ends (λ a u. Safe (f a) u Q R) R r → Ends Q R (continue f r)
    go (ok a, d) p = p.at d refl
    go (err e, d) p = p

pub Safe->> :
    {S E B : Type 0} {t : S} {Q : B → S → Type 0} {R : E → S → Type 0} (m : Db S E (Unit {0}))
    (k : Db S E B)
    → Safe m t (λ _ u. Safe k u Q R) R
    → Safe (m >> k) t Q R
unfolding ◌>>◌
Safe->> m k h = Safe->>= m (λ _. k) h

-- Weaker postconditions.
pub Safe-imp :
    {S E A : Type 0} {m : Db S E A} {t : S} {Q Q' : A → S → Type 0} {R R' : E → S → Type 0}
    → ((a : A) (u : S) → Q a u → Q' a u)
    → ((e : E) (u : S) → R e u → R' e u)
    → Safe m t Q R
    → Safe m t Q' R'
Safe-imp {S} {E} {A} {m} {t} {Q} {Q'} {R} {R'} f g h = record {
  at = λ c same. go (m c) (h.at c same);
}
  where
    go : (r : Result E A × Conn S) → Ends Q R r → Ends Q' R' r
    go (ok a, d) p = f a d.tables p
    go (err e, d) p = g e d.tables p

pub Safe-fail_when :
    {S E : Type 0} {t : S} {Q : Unit {0} → S → Type 0} {R : E → S → Type 0} (b : Bool) (e : E)
    → (b ≡ false → Q tt t)
    → R e t
    → Safe (fail_when b e) t Q R
unfolding fail_when
Safe-fail_when true e q r = Safe-throw e r
Safe-fail_when false e q r = Safe-pure tt (q refl)

Faults-cases :
    (fs : List (Option Text))
    → (fs ≡ [])
      ⊎ (((rest : List (Option Text)) × (fs ≡ none ∷ rest))
          ⊎ ((m : Text) × (rest : List (Option Text)) × (fs ≡ some m ∷ rest)))
Faults-cases [] = inl refl
Faults-cases (none ∷ rest) = inr (inl (rest, refl))
Faults-cases (some m ∷ rest) = inr (inr (m, rest, refl))

-- A transaction that is committed did what its body did; else nothing is done.
pub Safe-transaction :
    {S E A : Type 0} {t : S} {Q : A → S → Type 0} {R : E → S → Type 0} (begin commit : Text → E)
    (body : Db S E A)
    → Safe body t Q (λ _ _. Unit)
    → ((e : E) → R e t)
    → Safe (spend begin (λ c. finish commit c.tables (body c))) t Q R
unfolding finish
Safe-transaction {S} {E} {A} {t} {Q} {R} begin commit body h r =
    Safe-spend begin _ (record { at = λ c same. go c same (body c) (h.at c same) })
      (λ m. r (begin m))
  where
    committed :
        (a : A) (d : Conn S) (before : S)
        → Q a d.tables
        → ((e : E) → R e before)
        → Ends Q R (finish commit before (ok a, d))
    committed a d before k z = elim (Faults-cases d.faults) [
      | inl none_left ↦ rw (none_left) k
      | inr (inl (rest, answered)) ↦ rw (answered) k
      | inr (inr (m, rest, failed)) ↦ rw (failed) (z (commit m))
    ]

    go :
        (c : Conn S)
        → c.tables ≡ t
        → (x : Result E A × Conn S) → Ends Q (λ _ _. Unit) x
        → Ends Q R (finish commit c.tables x)
    go c same (err e, d) k = subst (R e) (sym same) (r e)
    go c same (ok a, d) k = committed a d c.tables k (λ e. subst (R e) (sym same) (r e))
