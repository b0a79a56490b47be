-- ===== src/Db/Steps.antt =====
-- The rules of `Ensures` for an operation that begins with a statement or a test.
use rust_panel.Prelude.{refl, true, if◌then◌else◌, subst, sym}
use rust_panel.Db.Ensures.{
  Ensures, ensures->>, ensures->>=, ensures-acquire, ensures-constrained, ensures-fail_when,
  ensures-query, ensures-require, ensures-update, ensures-imp, ensures-any,
}
use rust_panel.Prelude.{none, some, false, Bool, Option, Text, ◌≡◌}
use rust_panel.Db.{
  ◌>>=◌, ◌>>◌, Bool, Option, Text, Db, acquire, constrained, fail_when, query, require, update,
}

module _ {S E A B : Type 0} {t : S} {Q : B → S → Type 0} where
  pub reading :
      (e : Text → E) (f : S → A) (k : A → Db S E B)
      → Ensures (k (f t)) t Q
      → Ensures (query e f >>= k) t Q
  reading e f k h = ensures->>= (query e f) k t Q (ensures-query e f t _ h)

  pub writing :
      (e : Text → E) (f : S → A × S) (k : A → Db S E B)
      → Ensures (k (f t).0) (f t).1 Q
      → Ensures (update e f >>= k) t Q
  writing e f k h = ensures->>= (update e f) k t Q (ensures-update e f t _ h)

  pub having :
      (o : Option A) (e : E) (k : A → Db S E B)
      → ((a : A) → o ≡ some a → Ensures (k a) t Q)
      → Ensures (require o e >>= k) t Q
  having o e k h = ensures->>= (require o e) k t Q (ensures-require o e t _ h)

module _ {S E B : Type 0} {t : S} {Q : B → S → Type 0} where
  pub changing :
      (e : Text → E) (f : S → Unit {0} × S) (k : Db S E B)
      → Ensures k (f t).1 Q
      → Ensures (update e f >> k) t Q
  changing e f k h = ensures->> (update e f) k t Q (ensures-update e f t _ h)

  pub inserting :
      (e : Text → E) (broken : S → Option Text) (f : S → Unit {0} × S) (k : Db S E B)
      → (broken t ≡ none → Ensures k (f t).1 Q)
      → Ensures (constrained e broken f >> k) t Q
  inserting e broken f k h =
      ensures->> (constrained e broken f) k t Q (ensures-constrained e broken f t _ h)

  pub checking :
      (b : Bool) (e : E) (k : Db S E B)
      → (b ≡ false → Ensures k t Q)
      → Ensures (fail_when b e >> k) t Q
  checking b e k h = ensures->> (fail_when b e) k t Q (ensures-fail_when b e t _ h)

  pub connecting : (e : Text → E) (k : Db S E B) → Ensures k t Q → Ensures (acquire e >> k) t Q
  connecting e k h = ensures->> (acquire e) k t Q (ensures-acquire e t _ h)

-- A branch on a test.
pub branching :
    {S E B : Type 0} {t : S} {Q : B → S → Type 0} (b : Bool) (m k : Db S E B)
    → (b ≡ true → Ensures m t Q)
    → (b ≡ false → Ensures k t Q)
    → Ensures (if b then m else k) t Q
branching true m k h g = h refl
branching false m k h g = g refl

-- After a part that leaves the tables as they are.
pub keeping :
    {S E A B : Type 0} {t : S} {Q : B → S → Type 0} (P : A → Type 0) (m : Db S E A)
    (k : A → Db S E B)
    → Ensures m t (λ a u. P a × (u ≡ t))
    → ((a : A) → P a → Ensures (k a) t Q)
    → Ensures (m >>= k) t Q
keeping {t = t} {Q = Q} P m k h g =
    ensures->>= m k t Q
      (ensures-imp (λ a u v. subst (λ u. Ensures (k a) u Q) (sym v.1) (g a v.0)) h)

pub guarding :
    {S E B : Type 0} {t : S} {Q : B → S → Type 0} (P : Type 0) (m : Db S E (Unit {0}))
    (k : Db S E B)
    → Ensures m t (λ _ u. P × (u ≡ t))
    → (P → Ensures k t Q)
    → Ensures (m >> k) t Q
guarding {t = t} {Q = Q} P m k h g =
    ensures->> m k t Q (ensures-imp (λ _ u v. subst (λ u. Ensures k u Q) (sym v.1) (g v.0)) h)

-- After a part that may leave any tables.
pub whatever :
    {S E A B : Type 0} {t : S} {Q : B → S → Type 0} (m : Db S E A) (k : A → Db S E B)
    → ((a : A) (u : S) → Ensures (k a) u Q)
    → Ensures (m >>= k) t Q
whatever {t = t} {Q = Q} m k h = ensures->>= m k t Q (ensures-any m t _ h)
