-- ===== src/Paths/Results.antt =====
-- What a successful chain of results went through.
use rust_panel.Prelude.{inl, inr, if◌then◌else◌, ◌⊎◌}
use rust_panel.Paths.Resolve.{IoError, or_io, or_missing, not_found, failed}
use rust_panel.Paths.Lexical.{PathBoundError, or_err}
use rust_panel.Prelude.{
  refl, none, some, ok, err, true, false, Bool, Option, Result, ◌≡◌, fail_if, ap,
}
use rust_panel.Prelude.{◌>>=◌, ◌>>◌}

module _ {E : Type 0} where
  pub >>=-ok :
      {A B : Type 0} (r : Result E A) (f : A → Result E B) {b : B}
      → (r >>= f) ≡ ok b
      → (a : A) × (r ≡ ok a) × (f a ≡ ok b)
  >>=-ok (err e) f h = cc h
  >>=-ok (ok a) f h = (a, refl, h)

  pub >>-ok :
      {B : Type 0} (r : Result E (Unit {0})) (k : Result E B) {b : B}
      → (r >> k) ≡ ok b
      → (r ≡ ok tt) × (k ≡ ok b)
  >>-ok (err e) k h = cc h
  >>-ok (ok a) k h = (refl, h)

  pub fail_if-ok :
      {A : Type 0} (b : Bool) (e : E) (rest : Result E A) {a : A}
      → (fail_if b e >> rest) ≡ ok a
      → (b ≡ false) × (rest ≡ ok a)
  fail_if-ok true e rest h = cc h
  fail_if-ok false e rest h = (refl, h)

  pub ok_injective : {A : Type 0} {a b : A} → ◌≡◌ {A = Result E A} (ok a) (ok b) → a ≡ b
  ok_injective h = cc h

  pub err-ok : {A : Type 0} {e : E} {a : A} → ◌≡◌ {A = Result E A} (err e) (ok a) → ⊥
  err-ok h = cc h

pub or_missing-ok :
    {A : Type 0} (e : PathBoundError) (r : Result IoError A) {a : A}
    → or_missing e r ≡ ok a
    → r ≡ ok a
or_missing-ok e (ok a) h = ap ok (ok_injective h)
or_missing-ok e (err (not_found m)) h = cc h
or_missing-ok e (err (failed m)) h = cc h

pub or_io-ok : {A : Type 0} (r : Result IoError A) {a : A} → or_io r ≡ ok a → r ≡ ok a
or_io-ok (ok a) h = ap ok (ok_injective h)
or_io-ok (err e) h = cc h

pub or_err-ok :
    {A : Type 0} (o : Option A) (e : PathBoundError) {a : A} → or_err o e ≡ ok a → o ≡ some a
or_err-ok none e h = cc h
or_err-ok (some a) e h = ap some (ok_injective h)

pub if_cases :
    {A : Type 0} (b : Bool) (x y : A) {a : A}
    → (if b then x else y) ≡ a
    → ((b ≡ true) × (x ≡ a)) ⊎ ((b ≡ false) × (y ≡ a))
if_cases true x y h = inl (refl, h)
if_cases false x y h = inr (refl, h)
