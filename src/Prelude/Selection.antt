-- ===== src/Prelude/Selection.antt =====
-- Boolean tests over lists, and the rows that they select.
use Prim.Native.Nat.{ℕ}
use mathlib.Core.Path.{◌≡◌, refl, ap}
use mathlib.Core.Bool.{Bool, true, false, not, ◌&&◌, ◌||◌}
use mathlib.Core.List.{List, [], ◌∷◌, ◌++◌, map}
use mathlib.Core.Option
use mathlib.Core.Option.{Option, none, some}
use native.Mathlib.Omega.{arith}
use rust_panel.Prelude.Tests.{ltb}
use rust_panel.Prelude.Lists.{all, any, retain, count, sum_over, find_first, find_last}

module _ {ℓ} {A : Type ℓ} where
  -- The item that is found passes the test; where none is found, none passes.
  pub find_first-some : (p : A → Bool) (xs : List A) {x : A} → find_first p xs ≡ some x → p x ≡ true
  unfolding find_first
  find_first-some p [] h = cc
  find_first-some p (y ∷ xs) {x} h =
      ground (arith, λ (k : find_first p xs ≡ some x). find_first-some p xs k)

  pub find_first-none : (p : A → Bool) (xs : List A) → find_first p xs ≡ none → any p xs ≡ false
  unfolding find_first
  find_first-none p [] h = refl
  find_first-none p (y ∷ xs) h = ground (arith, find_first-none p xs)

  pub find_first_of_any-eq-false :
      (p : A → Bool) (xs : List A) → any p xs ≡ false → find_first p xs ≡ none
  unfolding find_first
  find_first_of_any-eq-false p [] h = refl
  find_first_of_any-eq-false p (y ∷ xs) h = ground (arith, find_first_of_any-eq-false p xs)

  pub find_first-append :
      (p : A → Bool) (xs ys : List A) → any p xs ≡ false → find_first p (xs ++ ys) ≡ find_first p ys
  unfolding find_first
  find_first-append p [] ys h = refl
  find_first-append p (x ∷ xs) ys h = ground (arith, find_first-append p xs ys)

  pub any-append : (p : A → Bool) (xs ys : List A) → any p (xs ++ ys) ≡ (any p xs || any p ys)
  any-append p [] ys = refl
  any-append p (x ∷ xs) ys = ground (arith, any-append p xs ys)

  pub any-retain : (p q : A → Bool) (xs : List A) → any p (retain q xs) ≡ any (λ x. q x && p x) xs
  unfolding retain
  any-retain p q [] = refl
  any-retain p q (x ∷ xs) = ground (arith, any-retain p q xs)

  pub any-eq-false : (p : A → Bool) (xs : List A) → ((x : A) → p x ≡ false) → any p xs ≡ false
  any-eq-false p [] h = refl
  any-eq-false p (x ∷ xs) h = ground (arith, h x, any-eq-false p xs h)

  pub any-and : (b : Bool) (p : A → Bool) (xs : List A) → any (λ x. b && p x) xs ≡ (b && any p xs)
  any-and b p [] = ground arith
  any-and b p (x ∷ xs) = ground (arith, any-and b p xs)

  -- What is dropped is gone.
  pub any-retain-not : (p : A → Bool) (xs : List A) → any p (retain (λ x. not (p x)) xs) ≡ false
  unfolding retain
  any-retain-not p [] = refl
  any-retain-not p (x ∷ xs) = ground (arith, any-retain-not p xs)

  pub all-map_of_imp :
      (p : A → Bool) (f : A → A) (xs : List A)
      → ((x : A) → p x ≡ true → p (f x) ≡ true)
      → all p xs ≡ true
      → all p (map f xs) ≡ true
  all-map_of_imp p f [] h e = refl
  all-map_of_imp p f (x ∷ xs) h e = ground (arith, h x, all-map_of_imp p f xs h)

  pub find_last-all :
      (p q : A → Bool) (xs : List A) {x : A}
      → all q xs ≡ true
      → find_last p xs ≡ some x
      → q x ≡ true
  unfolding find_last
  find_last-all p q [] h e = cc
  find_last-all p q (y ∷ xs) {x} h e =
      ground (arith, λ (k : find_last p xs ≡ some x). find_last-all p q xs (ground arith) k)

  -- A count is positive where some item passes, and a sum where some summand is.
  pub count-positive : (p : A → Bool) (xs : List A) → ltb 0 (count p xs) ≡ any p xs
  unfolding count
  count-positive p [] = refl
  count-positive p (x ∷ xs) = ground (arith, count-positive p xs)

  pub sum_over-positive :
      (xs : List A) (f : A → ℕ) → ltb 0 (sum_over xs f) ≡ any (λ x. ltb 0 (f x)) xs
  unfolding sum_over
  sum_over-positive [] f = refl
  sum_over-positive (x ∷ xs) f = ground (arith, sum_over-positive xs f)

  pub any-map :
      {B : Type 0} (p : B → Bool) (f : A → B) (xs : List A)
      → any p (map f xs) ≡ any (λ x. p (f x)) xs
  any-map p f [] = refl
  any-map p f (x ∷ xs) = ground (arith, any-map p f xs)

  pub any-ext : (p q : A → Bool) (xs : List A) → ((x : A) → p x ≡ q x) → any p xs ≡ any q xs
  any-ext p q [] h = refl
  any-ext p q (x ∷ xs) h = ground (arith, h x, any-ext p q xs h)

  pub map-append :
      {B : Type 0} (f : A → B) (xs ys : List A) → map f (xs ++ ys) ≡ map f xs ++ map f ys
  map-append f [] ys = refl
  map-append f (x ∷ xs) ys = ap (λ t. f x ∷ t) (map-append f xs ys)

  -- A test that no item passes after a rewriting counts none.
  pub count-map-eq-zero :
      {B : Type 0} (p : B → Bool) (f : A → B) (xs : List A)
      → ((x : A) → p (f x) ≡ false)
      → count p (map f xs) ≡ 0
  unfolding count
  count-map-eq-zero p f [] h = refl
  count-map-eq-zero p f (x ∷ xs) h = ground (arith, h x, count-map-eq-zero p f xs h)

  -- A rewriting that a test does not notice maps the item that is found.
  pub find_first-map_eq :
      (p : A → Bool) (f : A → A) (xs : List A) {x : A}
      → ((y : A) → p (f y) ≡ p y)
      → find_first p xs ≡ some x
      → find_first p (map f xs) ≡ some (f x)
  unfolding find_first
  find_first-map_eq p f [] h e = cc
  find_first-map_eq p f (y ∷ xs) {x} h e =
      ground (arith, h y, λ (k : find_first p xs ≡ some x). find_first-map_eq p f xs h k)

  pub find_last-map_eq :
      (p : A → Bool) (f : A → A) (xs : List A)
      → ((y : A) → p (f y) ≡ p y)
      → find_last p (map f xs) ≡ Option.map f (find_last p xs)
  unfolding find_last
  find_last-map_eq p f [] h = refl
  find_last-map_eq p f (y ∷ xs) h = ground (arith, h y, find_last-map_eq p f xs h)

  pub find_last-some : (p : A → Bool) (xs : List A) {x : A} → find_last p xs ≡ some x → p x ≡ true
  unfolding find_last
  find_last-some p [] e = cc
  find_last-some p (y ∷ xs) {x} e =
      ground (arith, λ (k : find_last p xs ≡ some x). find_last-some p xs k)

  -- What holds of every item after a rewriting holds of the item that is found.
  pub find_first-map :
      (p q : A → Bool) (f : A → A) (xs : List A) {x : A}
      → ((y : A) → p (f y) ≡ true → q (f y) ≡ true)
      → find_first p (map f xs) ≡ some x
      → q x ≡ true
  unfolding find_first
  find_first-map p q f [] h e = cc
  find_first-map p q f (y ∷ xs) {x} h e =
      ground (arith, h y, λ (k : find_first p (map f xs) ≡ some x). find_first-map p q f xs h k)
