-- ===== src/Prelude/Map.antt =====
-- `HashMap<String, V>` as an association list. A hash map is iterated in an order of its own: the list
-- is that order, and no theorem supposes anything of it.
use rust_panel.Prelude.{refl, []}
use mathlib.Core.Option
use mathlib.Core.Option.{Option, some, none}
use rust_panel.Prelude.{
  not, length, List, Text, Bool, arith, none, ◌∷◌, ◌≡◌, ◌≤◌, false, if◌then◌else◌, text_eq,
  text_eq_iff, true, ◌+◌, ◌&&◌, ◌<◌, ◌||◌,
}

abbrev pub Map : Type 0 → Type 0
Map V = List (Text × V)

-- what `or_default()` leaves of a lookup
abbrev pub or_else : {V : Type 0} → Option V → V → V
or_else none d = d
or_else (some v) d = v

-- membership of a key in a list of keys
abbrev pub has_key : Text → List Text → Bool
has_key k [] = false
has_key k (j ∷ js) = text_eq j k || has_key k js

-- no key stands twice
abbrev pub Distinct : List Text → Type 0
Distinct [] = Unit
Distinct (k ∷ ks) = (has_key k ks ≡ false) × Distinct ks

module _ {V : Type 0} where
  abbrev pub keys : Map V → List Text
  keys [] = []
  keys ((k, v) ∷ m) = k ∷ keys m

  unfoldable pub lookup : Text → Map V → Option V
  lookup k [] = none
  lookup k ((j, v) ∷ m) = if text_eq j k then some v else lookup k m

  -- `if let Some(v) = map.get_mut(k) { ... }`
  unfoldable pub modify : Text → (V → V) → Map V → Map V
  modify k f [] = []
  modify k f ((j, v) ∷ m) = if text_eq j k then (j, f v) ∷ m else (j, v) ∷ modify k f m

  -- an update of `map.entry(k).or_default()`
  unfoldable pub upsert : Text → V → (V → V) → Map V → Map V
  upsert k d f [] = (k, f d) ∷ []
  upsert k d f ((j, v) ∷ m) = if text_eq j k then (j, f v) ∷ m else (j, v) ∷ upsert k d f m

  unfoldable pub remove : Text → Map V → Map V
  remove k [] = []
  remove k ((j, v) ∷ m) = let rest = remove k m in if text_eq j k then rest else (j, v) ∷ rest

  pub lookup-modify :
      (k j : Text) (f : V → V) (m : Map V)
      → lookup j (modify k f m) ≡ (if text_eq k j then Option.map f (lookup j m) else lookup j m)
  unfolding lookup modify
  lookup-modify k j f [] = ground arith
  lookup-modify k j f ((i, v) ∷ m) =
      ground (arith, lookup-modify k j f m, text_eq_iff i k, text_eq_iff i j, text_eq_iff k j)

  pub lookup-upsert :
      (k j : Text) (d : V) (f : V → V) (m : Map V)
      → lookup j (upsert k d f m)
        ≡ (if text_eq k j then some (f (or_else (lookup k m) d)) else lookup j m)
  unfolding lookup upsert
  lookup-upsert k j d f [] = ground arith
  lookup-upsert k j d f ((i, v) ∷ m) =
      ground (arith, lookup-upsert k j d f m, text_eq_iff i k, text_eq_iff i j, text_eq_iff k j)

  pub keys-modify : (k : Text) (f : V → V) (m : Map V) → keys (modify k f m) ≡ keys m
  unfolding modify
  keys-modify k f [] = refl
  keys-modify k f ((i, v) ∷ m) = ground (arith, keys-modify k f m)

  pub has_key-upsert :
      (k j : Text) (d : V) (f : V → V) (m : Map V)
      → has_key j (keys (upsert k d f m)) ≡ (text_eq k j || has_key j (keys m))
  unfolding upsert
  has_key-upsert k j d f [] = refl
  has_key-upsert k j d f ((i, v) ∷ m) =
      ground (arith, has_key-upsert k j d f m, text_eq_iff i k, text_eq_iff i j, text_eq_iff k j)

  pub upsert-Distinct :
      (k : Text) (d : V) (f : V → V) (m : Map V)
      → Distinct (keys m)
      → Distinct (keys (upsert k d f m))
  unfolding upsert
  upsert-Distinct k d f [] h = ground arith
  upsert-Distinct k d f ((i, v) ∷ m) h = ground (
    arith,
    upsert-Distinct k d f m h.1,
    has_key-upsert k i d f m,
    text_eq_iff i k,
    text_eq_iff k i,
  )

  pub length-upsert :
      (k : Text) (d : V) (f : V → V) (m : Map V) → length (upsert k d f m) ≤ length m + 1
  unfolding upsert
  length-upsert k d f [] = omega arith
  length-upsert k d f ((i, v) ∷ m) = ground (arith, length-upsert k d f m)

  -- Removing a key that is there makes the map shorter.
  pub length-remove : (k : Text) (m : Map V) → length (remove k m) ≤ length m
  unfolding remove
  length-remove k [] = omega arith
  length-remove k ((i, v) ∷ m) = ground (arith, length-remove k m)

  pub length-remove_lt :
      (k : Text) (m : Map V) → has_key k (keys m) ≡ true → length (remove k m) < length m
  unfolding remove
  length-remove_lt k [] h = cc
  length-remove_lt k ((i, v) ∷ m) h = ground (arith, length-remove k m, length-remove_lt k m)

  pub has_key-remove :
      (k j : Text) (m : Map V)
      → has_key j (keys (remove k m)) ≡ (not (text_eq k j) && has_key j (keys m))
  unfolding remove
  has_key-remove k j [] = ground arith
  has_key-remove k j ((i, v) ∷ m) =
      ground (arith, has_key-remove k j m, text_eq_iff i k, text_eq_iff i j, text_eq_iff k j)

  pub remove-Distinct : (k : Text) (m : Map V) → Distinct (keys m) → Distinct (keys (remove k m))
  unfolding remove
  remove-Distinct k [] h = tt
  remove-Distinct k ((i, v) ∷ m) h = ground (arith, remove-Distinct k m h.1, has_key-remove k i m)

  pub lookup-remove :
      (k j : Text) (m : Map V) → lookup j (remove k m) ≡ (if text_eq k j then none else lookup j m)
  unfolding lookup remove
  lookup-remove k j [] = ground arith
  lookup-remove k j ((i, v) ∷ m) =
      ground (arith, lookup-remove k j m, text_eq_iff i k, text_eq_iff i j, text_eq_iff k j)

  pub lookup_absent : (k : Text) (m : Map V) → has_key k (keys m) ≡ false → lookup k m ≡ none
  unfolding lookup
  lookup_absent k [] h = refl
  lookup_absent k ((i, v) ∷ m) h = ground (arith, lookup_absent k m)
