-- ===== src/Db/Whole.antt =====
-- Operations that do all they do or nothing: a transaction on a connection from the pool.
use rust_panel.Db.Steps.{connecting}
use rust_panel.Db.Rules.{spend-cases, transaction-err}
use rust_panel.Db.Ensures.{Ensures, ensures-ok, ensures-transaction}
use rust_panel.Prelude.{refl, ok, err, inl, inr, Result, Text, ◌≡◌, sym, ap, ◌∙◌}
use rust_panel.Db.{◌>>=◌, ◌>>◌, Result, Text, acquire, Conn, Db, transaction, continue}

-- Either the tables are the ones that a success leaves, or there was an error and they are as before.
abbrev pub IsWhole : {E A S : Type 0} → S → S → Result E A × Conn S → Type 0
IsWhole before after (ok a, d) = d.tables ≡ after
IsWhole before after (err e, d) = d.tables ≡ before

module _ {S E A : Type 0} where
  pooled-err :
      (e f : Text → E) (body : Db S E A) (c : Conn S) {x : E} {d : Conn S}
      → (acquire e >> transaction f body) c ≡ (err x, d)
      → d.tables ≡ c.tables
  unfolding acquire ◌>>◌ ◌>>=◌
  pooled-err e f body c {x} {d} h = elim (spend-cases e (λ k. (ok tt, k)) c) [
    | inl (k, same, ran) ↦
        transaction-err f body k (sym (ap (continue (λ _. transaction f body)) ran) ∙ h) ∙ same
    | inr (m, k, same, failed) ↦
        ap (λ r. r.1.tables) (sym (sym (ap (continue (λ _. transaction f body)) failed) ∙ h)) ∙ same
  ]

  pub pooled-IsWhole :
      (e f : Text → E) (body : Db S E A) (c : Conn S) (after : S)
      → Ensures body c.tables (λ _ u. u ≡ after)
      → IsWhole c.tables after ((acquire e >> transaction f body) c)
  pooled-IsWhole e f body c after h = go ((acquire e >> transaction f body) c) refl
    where
      go :
          (r : Result E A × Conn S)
          → (acquire e >> transaction f body) c ≡ r
          → IsWhole c.tables after r
      go (ok a, d) ran = ensures-ok c (connecting e _ (ensures-transaction f body c.tables _ h)) ran
      go (err x, d) ran = pooled-err e f body c ran
