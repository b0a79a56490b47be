-- ===== src/Audit/Ids.antt =====
-- Rows that are told apart by an id below a highest id that was given.
use rust_panel.Prelude.{
  refl, [], ◌∷◌, true, false, ℕ, Bool, List, retain, ◌≡◌, all, any, ap, arith, not, ◌++◌, ◌+◌, ◌<◌,
  any-append, leb, ◌&&◌, ◌==◌, ◌||◌,
}
use rust_panel.Prelude.{map}

module _ {A : Type 0} (id : A → ℕ) where
  abbrev pub has : ℕ → List A → Bool
  has n xs = any (λ x. id x == n) xs

  abbrev pub fresh : ℕ → List A → Bool
  fresh top xs = all (λ x. leb (id x) top) xs

  abbrev pub distinct : List A → Bool
  distinct [] = true
  distinct (x ∷ xs) = not (has (id x) xs) && distinct xs

  pub has_of_fresh : (top n : ℕ) (xs : List A) → fresh top xs ≡ true → top < n → has n xs ≡ false
  has_of_fresh top n [] h lt = refl
  has_of_fresh top n (x ∷ xs) h lt = ground (arith, has_of_fresh top n xs)

  pub fresh_mono : (top : ℕ) (xs : List A) → fresh top xs ≡ true → fresh (top + 1) xs ≡ true
  fresh_mono top [] h = refl
  fresh_mono top (x ∷ xs) h = ground (arith, fresh_mono top xs)

  -- A new row gets the next id.
  pub fresh-append :
      (top : ℕ) (xs : List A) (x : A)
      → fresh top xs ≡ true
      → id x ≡ top + 1
      → fresh (top + 1) (xs ++ x ∷ []) ≡ true
  fresh-append top [] x h e = ground arith
  fresh-append top (y ∷ xs) x h e = ground (arith, fresh-append top xs x)

  pub distinct-append :
      (top : ℕ) (xs : List A) (x : A)
      → fresh top xs ≡ true
      → distinct xs ≡ true
      → id x ≡ top + 1
      → distinct (xs ++ x ∷ []) ≡ true
  distinct-append top [] x h d e = refl
  distinct-append top (y ∷ xs) x h d e =
      ground (arith, distinct-append top xs x, any-append (λ z. id z == id y) xs (x ∷ []))

  -- A deletion
  pub fresh-retain :
      (p : A → Bool) (top : ℕ) (xs : List A) → fresh top xs ≡ true → fresh top (retain p xs) ≡ true
  unfolding retain
  fresh-retain p top [] h = refl
  fresh-retain p top (x ∷ xs) h = ground (arith, fresh-retain p top xs)

  pub has-retain :
      (p : A → Bool) (n : ℕ) (xs : List A) → has n xs ≡ false → has n (retain p xs) ≡ false
  unfolding retain
  has-retain p n [] h = refl
  has-retain p n (x ∷ xs) h = ground (arith, has-retain p n xs)

  pub distinct-retain :
      (p : A → Bool) (xs : List A) → distinct xs ≡ true → distinct (retain p xs) ≡ true
  unfolding retain
  distinct-retain p [] h = refl
  distinct-retain p (x ∷ xs) h = ground (arith, distinct-retain p xs, has-retain p (id x) xs)

  -- an update that leaves the ids
  module _ (f : A → A) (keeps : (x : A) → id (f x) ≡ id x) where
    pub fresh-map : (top : ℕ) (xs : List A) → fresh top (map f xs) ≡ fresh top xs
    fresh-map top [] = refl
    fresh-map top (x ∷ xs) = ground (arith, fresh-map top xs, keeps x)

    pub has-map : (n : ℕ) (xs : List A) → has n (map f xs) ≡ has n xs
    has-map n [] = refl
    has-map n (x ∷ xs) = ground (arith, has-map n xs, keeps x)

    pub distinct-map : (xs : List A) → distinct (map f xs) ≡ distinct xs
    distinct-map [] = refl
    distinct-map (x ∷ xs) = ground (arith, distinct-map xs, has-map (id x) xs, keeps x)

-- Each row of one table refers to a row of another.
module _ {A B : Type 0} (ref : B → ℕ) (id : A → ℕ) where
  abbrev pub refers : List A → List B → Bool
  refers xs ys = all (λ y. has id (ref y) xs) ys

  pub refers-append :
      (xs : List A) (x : A) (ys : List B) → refers xs ys ≡ true → refers (xs ++ x ∷ []) ys ≡ true
  refers-append xs x [] h = refl
  refers-append xs x (y ∷ ys) h =
      ground (arith, refers-append xs x ys, any-append (λ z. id z == ref y) xs (x ∷ []))

  -- Whatever is updated without a change of the ids, and whatever rows of the second table go.
  pub refers-map_left :
      (f : A → A) (xs : List A) (ys : List B)
      → ((x : A) → id (f x) ≡ id x)
      → refers xs ys ≡ true
      → refers (map f xs) ys ≡ true
  refers-map_left f xs [] keeps h = refl
  refers-map_left f xs (y ∷ ys) keeps h =
      ground (arith, refers-map_left f xs ys keeps, has-map id f keeps (ref y) xs)

  pub refers-map_right :
      (f : B → B) (xs : List A) (ys : List B)
      → ((y : B) → ref (f y) ≡ ref y)
      → refers xs (map f ys) ≡ refers xs ys
  refers-map_right f xs [] keeps = refl
  refers-map_right f xs (y ∷ ys) keeps =
      cc (refers-map_right f xs ys keeps, ap (λ n. has id n xs) (keeps y))

  pub refers-retain :
      (p : B → Bool) (xs : List A) (ys : List B)
      → refers xs ys ≡ true
      → refers xs (retain p ys) ≡ true
  unfolding retain
  refers-retain p xs [] h = refl
  refers-retain p xs (y ∷ ys) h = ground (arith, refers-retain p xs ys)

  -- A deletion that spares what is referred to.
  has_spared :
      (p : A → Bool) (y : B) (xs : List A) (ys : List B)
      → has ref (ref y) (y ∷ ys) ≡ true
      → all (λ x. not (has ref (id x) (y ∷ ys)) || p x) xs ≡ true
      → has id (ref y) xs ≡ true
      → has id (ref y) (retain p xs) ≡ true
  unfolding retain
  has_spared p y [] ys m h e = e
  has_spared p y (x ∷ xs) ys m h e = ground (arith, has_spared p y xs ys m)

  spared_tail :
      (p : A → Bool) (y : B) (xs : List A) (ys : List B)
      → all (λ x. not (has ref (id x) (y ∷ ys)) || p x) xs ≡ true
      → all (λ x. not (has ref (id x) ys) || p x) xs ≡ true
  spared_tail p y [] ys h = refl
  spared_tail p y (x ∷ xs) ys h = ground (arith, spared_tail p y xs ys)

  pub refers_spared :
      (p : A → Bool) (xs : List A) (ys : List B)
      → all (λ x. not (has ref (id x) ys) || p x) xs ≡ true
      → refers xs ys ≡ true
      → refers (retain p xs) ys ≡ true
  refers_spared p xs [] h e = refl
  refers_spared p xs (y ∷ ys) h e =
      ground (arith, has_spared p y xs ys, refers_spared p xs ys (spared_tail p y xs ys h))
