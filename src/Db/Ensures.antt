-- ===== src/Db/Ensures.antt =====
-- What holds after an operation that succeeds, whatever statements fail: a postcondition, with a rule for each
-- form of operation. A proof reads as the operation does.
use mathlib.Core.Path.{subst₂, ap}
use rust_panel.Db.Rules.{
  >>-ok, >>=-ok, query-ok, update-ok, map_err-ok, transaction-ok, acquire-ok, constrained-ok,
  fail_when-ok, require-ok,
}
use rust_panel.Prelude.{none, some, false, Bool, Option, ◌∙◌, ap}
use rust_panel.Prelude.{refl, ok, err, Result, Text, subst, sym, ◌≡◌}
use rust_panel.Db.{
  ◌>>=◌, ◌>>◌, Db, Result, pure, query, throw, update, Conn, Text, Bool, Option, acquire, map_err,
  transaction, constrained, fail_when, require,
}

abbrev pub Post : {S E A : Type 0} → (A → S → Type 0) → Result E A × Conn S → Type 0
Post Q (ok a, d) = Q a d.tables
Post Q (err e, d) = Unit

-- From the tables `t`, if `m` succeeds, its value and the tables that it leaves satisfy `Q`.
pub record Ensures {S E A : Type 0} (m : Db S E A) (t : S) (Q : A → S → Type 0) : Type 0 where
  pub at : (c : Conn S) → c.tables ≡ t → Post Q (m c)

module _ {S E A : Type 0} where
  pub ensures-ok :
      {m : Db S E A} {Q : A → S → Type 0} (c : Conn S) {a : A} {d : Conn S}
      → Ensures m c.tables Q
      → m c ≡ (ok a, d)
      → Q a d.tables
  ensures-ok {Q} c h e = subst (Post Q) e (h.at c refl)

  post_intro :
      (Q : A → S → Type 0) (r : Result E A × Conn S)
      → ((a : A) (d : Conn S) → r ≡ (ok a, d) → Q a d.tables)
      → Post Q r
  post_intro Q (ok a, d) h = h a d refl
  post_intro Q (err e, d) h = tt

  -- From an inversion lemma to a rule.
  pub ensures_intro :
      (m : Db S E A) (t : S) (Q : A → S → Type 0)
      → ((c : Conn S) → c.tables ≡ t → (a : A) (d : Conn S) → m c ≡ (ok a, d) → Q a d.tables)
      → Ensures m t Q
  ensures_intro m t Q h = record { at = λ c e. post_intro Q (m c) (h c e) }

  -- A weaker postcondition.
  pub ensures-imp :
      {m : Db S E A} {t : S} {Q R : A → S → Type 0}
      → ((a : A) (u : S) → Q a u → R a u)
      → Ensures m t Q
      → Ensures m t R
  ensures-imp {m} {t} {Q} {R} f h =
      ensures_intro m t R
        (λ c e a d p. f a d.tables (ensures-ok c (subst (λ u. Ensures m u Q) (sym e) h) p))

  pub ensures-pure : (a : A) (t : S) (Q : A → S → Type 0) → Q a t → Ensures {E = E} (pure a) t Q
  ensures-pure a t Q q = record { at = λ c e. subst (Q a) (sym e) q }

  -- what holds of all values and tables
  pub ensures-any :
      (m : Db S E A) (t : S) (Q : A → S → Type 0) → ((a : A) (u : S) → Q a u) → Ensures m t Q
  ensures-any m t Q q = ensures_intro m t Q (λ c e a d h. q a d.tables)

  pub ensures-throw : (x : E) (t : S) (Q : A → S → Type 0) → Ensures (throw x) t Q
  ensures-throw x t Q = record { at = λ c e. tt }

  pub ensures-query :
      (e : Text → E) (f : S → A) (t : S) (Q : A → S → Type 0) → Q (f t) t → Ensures (query e f) t Q
  ensures-query e f t Q q = ensures_intro (query e f) t Q λ c same a d h.
      let (value, kept) = query-ok e f c h in
      subst₂ Q (ap f (sym same) ∙ sym value) (sym same ∙ sym kept) q

  pub ensures-update :
      (e : Text → E) (f : S → A × S) (t : S) (Q : A → S → Type 0)
      → Q (f t).0 (f t).1
      → Ensures (update e f) t Q
  ensures-update e f t Q q = ensures_intro (update e f) t Q λ c same a d h.
      let (value, kept) = update-ok e f c h in
      subst₂ Q (ap (λ u. (f u).0) (sym same) ∙ sym value) (ap (λ u. (f u).1) (sym same) ∙ sym kept)
        q

  pub ensures-constrained :
      (e : Text → E) (broken : S → Option Text) (f : S → A × S) (t : S) (Q : A → S → Type 0)
      → (broken t ≡ none → Q (f t).0 (f t).1)
      → Ensures (constrained e broken f) t Q
  ensures-constrained e broken f t Q q = ensures_intro (constrained e broken f) t Q λ c same a d h.
      let (met, value, kept) = constrained-ok e broken f c h in
      subst₂ Q (ap (λ u. (f u).0) (sym same) ∙ sym value) (ap (λ u. (f u).1) (sym same) ∙ sym kept)
        (q (ap broken (sym same) ∙ met))

  pub ensures-require :
      (o : Option A) (e : E) (t : S) (Q : A → S → Type 0)
      → ((a : A) → o ≡ some a → Q a t)
      → Ensures (require o e) t Q
  ensures-require o e t Q q = ensures_intro (require o e) t Q λ c same a d h.
      let (got, kept) = require-ok o e c h in
      subst (Q a) (sym same ∙ ap (λ k. k.tables) (sym kept)) (q a got)

  pub ensures-transaction :
      (e : Text → E) (body : Db S E A) (t : S) (Q : A → S → Type 0)
      → Ensures body t Q
      → Ensures (transaction e body) t Q
  ensures-transaction e body t Q q = ensures_intro (transaction e body) t Q λ c same a d h.
      let (c', d', start, ran, kept) = transaction-ok e body c h in
      subst (Q a) (sym kept)
        (ensures-ok c' (subst (λ u. Ensures body u Q) (sym (start ∙ same)) q) ran)

module _ {S E : Type 0} where
  pub ensures-fail_when :
      (b : Bool) (e : E) (t : S) (Q : Unit {0} → S → Type 0)
      → (b ≡ false → Q tt t)
      → Ensures (fail_when b e) t Q
  ensures-fail_when b e t Q q = ensures_intro (fail_when b e) t Q λ c same a d h.
      let (passed, kept) = fail_when-ok b e c h in
      subst (Q tt) (sym same ∙ ap (λ k. k.tables) (sym kept)) (q passed)

  pub ensures-acquire :
      (e : Text → E) (t : S) (Q : Unit {0} → S → Type 0) → Q tt t → Ensures (acquire e) t Q
  ensures-acquire e t Q q =
      ensures_intro (acquire e) t Q
        λ c same a d h. subst (Q tt) (sym same ∙ sym (acquire-ok e c h)) q

  pub ensures->>= :
      {A B : Type 0} (m : Db S E A) (f : A → Db S E B) (t : S) (Q : B → S → Type 0)
      → Ensures m t (λ a u. Ensures (f a) u Q)
      → Ensures (m >>= f) t Q
  ensures->>= m f t Q h = ensures_intro (m >>= f) t Q λ c same b d p.
      let (a, c', first, second) = >>=-ok m f c p in
      ensures-ok c'
        (ensures-ok c (subst (λ u. Ensures m u (λ a u. Ensures (f a) u Q)) (sym same) h) first)
        second

  pub ensures->> :
      {B : Type 0} (m : Db S E (Unit {0})) (k : Db S E B) (t : S) (Q : B → S → Type 0)
      → Ensures m t (λ a u. Ensures k u Q)
      → Ensures (m >> k) t Q
  ensures->> m k t Q h = ensures_intro (m >> k) t Q λ c same b d p.
      let (c', first, second) = >>-ok m k c p in
      ensures-ok c'
        (ensures-ok c (subst (λ u. Ensures m u (λ a u. Ensures k u Q)) (sym same) h) first) second

module _ {S E F : Type 0} where
  pub ensures-map_err :
      {A : Type 0} (f : E → F) (m : Db S E A) (t : S) (Q : A → S → Type 0)
      → Ensures m t Q
      → Ensures (map_err f m) t Q
  ensures-map_err f m t Q h =
      ensures_intro (map_err f m) t Q
        λ c same a d p. ensures-ok c (subst (λ u. Ensures m u Q) (sym same) h) (map_err-ok f m c p)
