-- ===== src/RateLimit/Eviction.antt =====
-- What an eviction leaves of a map: its keys once each, and no more buckets than the cap.
use rust_panel.Prelude.{suc, text_eq_refl, ◌∙◌}
use mathlib.Core.Option
use rust_panel.RateLimit.Order.{
  order_keys, has_key-take, has_key-sort, take-Distinct, sort-Distinct, length-take_le, length-sort,
}
use rust_panel.Prelude.Map.{
  Map, Distinct, has_key, keys, remove, has_key-remove, remove-Distinct, length-remove_lt,
}
use rust_panel.RateLimit.{
  Evictable, bucket_evictable, ip_evictable, Map, drop_idle, prune_all, idle_order, last,
  evict_if_needed, remove_all, max_buckets, sort_by_time,
}
use rust_panel.Prelude.{
  refl, [], ◌∷◌, some, true, false, inl, inr, List, Text, ap, is_empty, ◌≡◌, All, ℕ, Bool-cases,
  arith, text_eq_iff, length, subst, sym, ◌+◌, take, ◌≤◌, ◌-◌, ◌*◌, ◌/◌,
}

-- Each key of the list is a key of the map.
abbrev IsWithin : {V : Type 0} → List Text → Map V → Type 0
IsWithin js m = All (λ j. has_key j (keys m) ≡ true) js

-- Keys other than a removed one stay.
IsWithin-remove :
    {V : Type 0} (k : Text) (js : List Text) (m : Map V)
    → has_key k js ≡ false
    → IsWithin js m
    → IsWithin js (remove k m)
IsWithin-remove k [] m h w = tt
IsWithin-remove k (j ∷ js) m h w =
    ground (arith, IsWithin-remove k js m, has_key-remove k j m, text_eq_iff j k, text_eq_iff k j)

-- What the eviction uses of a bucket: one that holds failures has a last one.
pub record IsLawful {V : Type 0} (ev : Evictable V) : Type 0 where
  pub last_of_busy : (v : V) → ev.is_idle v ≡ false → (at : ℕ) × (ev.last_failure v ≡ some at)

last_of_nonempty : {A : Type 0} (xs : List A) → is_empty xs ≡ false → (x : A) × (last xs ≡ some x)
last_of_nonempty [] h = cc
last_of_nonempty (x ∷ []) h = (x, refl)
last_of_nonempty (x ∷ y ∷ xs) h = last_of_nonempty (y ∷ xs) refl

pub bucket-IsLawful : IsLawful bucket_evictable
bucket-IsLawful = record { last_of_busy = λ v h. last_of_nonempty v.failures h }

pub ip-IsLawful : IsLawful ip_evictable
ip-IsLawful = record {
  last_of_busy = λ v h.
      let (e, found) = last_of_nonempty v.failures h in (e.1, ap (Option.map (λ x. x.1)) found);
}

module _ {V : Type 0} (ev : Evictable V) (lawful : IsLawful ev) where
  keys-prune_all : (now : ℕ) (m : Map V) → keys (prune_all ev now m) ≡ keys m
  unfolding prune_all
  keys-prune_all now [] = refl
  keys-prune_all now ((k, v) ∷ m) = ap (λ ks. k ∷ ks) (keys-prune_all now m)

  has_key-drop_idle :
      (j : Text) (m : Map V)
      → has_key j (keys m) ≡ false
      → has_key j (keys (drop_idle ev m)) ≡ false
  unfolding drop_idle
  has_key-drop_idle j [] h = refl
  has_key-drop_idle j ((k, v) ∷ m) h = ground (arith, has_key-drop_idle j m)

  drop_idle-Distinct : (m : Map V) → Distinct (keys m) → Distinct (keys (drop_idle ev m))
  unfolding drop_idle
  drop_idle-Distinct [] h = tt
  drop_idle-Distinct ((k, v) ∷ m) h =
      ground (arith, drop_idle-Distinct m h.1, has_key-drop_idle k m h.0)

  -- After the idle buckets are gone, every key stands in the order of eviction.
  order_keys-idle_order :
      (m : Map V) → order_keys (idle_order ev (drop_idle ev m)) ≡ keys (drop_idle ev m)
  unfolding drop_idle idle_order order_keys
  order_keys-idle_order [] = refl
  order_keys-idle_order ((k, v) ∷ m) = elim (Bool-cases (ev.is_idle v)) [
    | inl idle ↦ rw (idle, drop_idle) (order_keys-idle_order m)
    | inr busy ↦
        let (at, found) = lawful.last_of_busy v busy in ground (arith, order_keys-idle_order m)
  ]

  -- Removing keys that are there, each once, takes as many buckets away.
  length-remove_all :
      (es : List (ℕ × Text)) (m : Map V)
      → Distinct (order_keys es)
      → IsWithin (order_keys es) m
      → length (remove_all ev es m) + length es ≤ length m
  unfolding remove_all order_keys
  length-remove_all [] m d w = omega arith
  length-remove_all (e ∷ es) m d w = omega (
    arith,
    length-remove_lt e.1 m w.0,
    length-remove_all es (remove e.1 m) d.1 (IsWithin-remove e.1 (order_keys es) m d.0 w.1),
  )

  remove_all-Distinct :
      (es : List (ℕ × Text)) (m : Map V) → Distinct (keys m) → Distinct (keys (remove_all ev es m))
  unfolding remove_all
  remove_all-Distinct [] m d = d
  remove_all-Distinct (e ∷ es) m d = remove_all-Distinct es (remove e.1 m) (remove-Distinct e.1 m d)

  pub evict-Distinct :
      (m : Map V) (now : ℕ) → Distinct (keys m) → Distinct (keys (evict_if_needed ev m now))
  unfolding evict_if_needed
  evict-Distinct m now d =
      let live = drop_idle ev (prune_all ev now m) in
      let pruned = subst Distinct (sym (keys-prune_all now m)) d in
      ground (
        arith,
        drop_idle-Distinct (prune_all ev now m) pruned,
        remove_all-Distinct
            (take (length live - max_buckets * 3 / 4) (sort_by_time (idle_order ev live))) live
            (drop_idle-Distinct (prune_all ev now m) pruned),
      )

  IsWithin-of_has_key :
      (js : List Text) (m : Map V)
      → ((j : Text) → has_key j js ≡ true → has_key j (keys m) ≡ true)
      → IsWithin js m
  IsWithin-of_has_key [] m h = tt
  IsWithin-of_has_key (j ∷ js) m h =
      (h j (ground (arith, text_eq_refl j)), IsWithin-of_has_key js m (λ i e. h i (ground arith)))

  -- The keys that an eviction removes stand in the map.
  evicted-IsWithin :
      (n : ℕ) (m : Map V)
      → order_keys (idle_order ev m) ≡ keys m
      → IsWithin (order_keys (take n (sort_by_time (idle_order ev m)))) m
  evicted-IsWithin n m same =
      IsWithin-of_has_key (order_keys (take n (sort_by_time (idle_order ev m)))) m λ j e. ground (
        arith,
        has_key-take j n (sort_by_time (idle_order ev m)),
        has_key-sort j (idle_order ev m),
        ap (has_key j) same,
      )

  length-order_keys : (es : List (ℕ × Text)) → length (order_keys es) ≡ length es
  unfolding order_keys
  length-order_keys [] = refl
  length-order_keys (e ∷ es) = ap suc (length-order_keys es)

  length-keys : (m : Map V) → length (keys m) ≡ length m
  length-keys [] = refl
  length-keys (e ∷ m) = ap suc (length-keys m)

  -- Evicting an excess of at most the map's size makes the map that much smaller.
  length-evicted :
      (n : ℕ) (m : Map V)
      → order_keys (idle_order ev m) ≡ keys m
      → Distinct (keys m)
      → n ≤ length m
      → length (remove_all ev (take n (sort_by_time (idle_order ev m))) m) + n ≤ length m
  length-evicted n m same d h =
      let es = idle_order ev m in
      let size : length es ≡ length m =
        sym (length-order_keys es) ∙ ap length same ∙ length-keys m in
      omega (
        arith,
        length-remove_all (take n (sort_by_time es)) m
            (take-Distinct n (sort_by_time es) (sort-Distinct es (subst Distinct (sym same) d)))
            (evicted-IsWithin n m same),
        length-take_le n (sort_by_time es) (omega (arith, length-sort es, size)),
      )

  -- An eviction leaves at most the cap.
  pub length-evict :
      (m : Map V) (now : ℕ) → Distinct (keys m) → length (evict_if_needed ev m now) ≤ max_buckets
  unfolding evict_if_needed
  length-evict m now d =
      let live = drop_idle ev (prune_all ev now m) in
      ground (
        arith,
        length-evicted (length live - max_buckets * 3 / 4) live
            (order_keys-idle_order (prune_all ev now m))
            (drop_idle-Distinct (prune_all ev now m)
              (subst Distinct (sym (keys-prune_all now m)) d)),
      )
