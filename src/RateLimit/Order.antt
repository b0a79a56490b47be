-- ===== src/RateLimit/Order.antt =====
-- The order in which the limiter evicts: the sort keeps the keys, each once.
use rust_panel.Prelude.Map.{Distinct, has_key}
use rust_panel.RateLimit.{insert_by_time, sort_by_time}
use rust_panel.Prelude.{
  refl, [], ◌∷◌, false, zero, suc, List, take, Text, ℕ, length, ◌≤◌, ◌∙◌, ◌≡◌, arith, text_eq, ap,
  text_eq_iff, ◌||◌,
}

unfoldable pub order_keys : List (ℕ × Text) → List Text
order_keys [] = []
order_keys ((at, k) ∷ es) = k ∷ order_keys es

length-insert :
    (e : ℕ × Text) (es : List (ℕ × Text)) → length (insert_by_time e es) ≡ suc (length es)
unfolding insert_by_time
length-insert e [] = refl
length-insert e (d ∷ es) = ground (arith, length-insert e es)

pub length-sort : (es : List (ℕ × Text)) → length (sort_by_time es) ≡ length es
unfolding sort_by_time
length-sort [] = refl
length-sort (e ∷ es) = ground (arith, length-insert e (sort_by_time es), length-sort es)

has_key-insert :
    (j : Text) (e : ℕ × Text) (es : List (ℕ × Text))
    → has_key j (order_keys (insert_by_time e es)) ≡ (text_eq e.1 j || has_key j (order_keys es))
unfolding insert_by_time order_keys
has_key-insert j e [] = refl
has_key-insert j e (d ∷ es) = ground (arith, has_key-insert j e es)

insert-Distinct :
    (e : ℕ × Text) (es : List (ℕ × Text))
    → has_key e.1 (order_keys es) ≡ false
    → Distinct (order_keys es)
    → Distinct (order_keys (insert_by_time e es))
unfolding insert_by_time order_keys
insert-Distinct e [] h k = ground arith
insert-Distinct e (d ∷ es) h k =
    ground (
      arith,
      insert-Distinct e es,
      has_key-insert d.1 e es,
      text_eq_iff e.1 d.1,
      text_eq_iff d.1 e.1,
    )

pub has_key-sort :
    (j : Text) (es : List (ℕ × Text))
    → has_key j (order_keys (sort_by_time es)) ≡ has_key j (order_keys es)
unfolding sort_by_time order_keys
has_key-sort j [] = refl
has_key-sort j (e ∷ es) = ground (arith, has_key-insert j e (sort_by_time es), has_key-sort j es)

pub sort-Distinct :
    (es : List (ℕ × Text)) → Distinct (order_keys es) → Distinct (order_keys (sort_by_time es))
unfolding sort_by_time order_keys
sort-Distinct [] h = tt
sort-Distinct (e ∷ es) h =
    insert-Distinct e (sort_by_time es) (has_key-sort e.1 es ∙ h.0) (sort-Distinct es h.1)

pub has_key-take :
    (j : Text) (n : ℕ) (es : List (ℕ × Text))
    → has_key j (order_keys es) ≡ false
    → has_key j (order_keys (take n es)) ≡ false
unfolding take order_keys
has_key-take j zero es h = refl
has_key-take j (suc n) [] h = refl
has_key-take j (suc n) (e ∷ es) h = ground (arith, has_key-take j n es)

pub take-Distinct :
    (n : ℕ) (es : List (ℕ × Text)) → Distinct (order_keys es) → Distinct (order_keys (take n es))
unfolding take order_keys
take-Distinct zero es h = tt
take-Distinct (suc n) [] h = tt
take-Distinct (suc n) (e ∷ es) h = (has_key-take e.1 n es h.0, take-Distinct n es h.1)

pub length-take_le : (n : ℕ) (es : List (ℕ × Text)) → n ≤ length es → length (take n es) ≡ n
unfolding take
length-take_le zero es h = refl
length-take_le (suc n) [] h = absurd (omega arith)
length-take_le (suc n) (e ∷ es) h = ap suc (length-take_le n es (omega arith))
