-- ===== src/RateLimit/Failures.antt =====
-- What a failed login adds to the counts, and that failures block.
use rust_panel.RateLimit.Blocking.{count_in, account_failures, fresh_prune, check_iff}
use rust_panel.Prelude.Map.{Map, or_else, lookup, length-upsert, upsert, lookup-upsert}
use rust_panel.RateLimit.{
  LoginRateLimiter, evict_if_needed, is_fresh, record_failure, record_login_failure, Bucket,
  Evictable, Map, max_buckets, bucket_evictable, check, no_failures, window, too_many,
}
use rust_panel.Prelude.{
  refl, [], ◌∷◌, none, some, err, true, inl, inr, List, Option, Text, ℕ, All, count, length, ◌≤◌,
  ◌+◌, ◌<◌, ◌≡◌, arith, if◌then◌else◌, text_eq, text_eq_refl, ◌∙◌, count-append, to_ascii_lowercase,
  ◌&&◌, Bool-cases, retain, text_eq_iff, ap,
}
use native.Mathlib.Nat.{add-zero}

record_count :
    (now later : ℕ) (b : Bucket)
    → now ≤ later
    → count (is_fresh later) (record_failure now b).failures
      ≡ count (is_fresh later) b.failures + (if is_fresh later now then 1 else 0)
unfolding record_failure count
record_count now later b h = ground (
  arith,
  fresh_prune now later b.failures h,
  count-append (is_fresh later) (retain (is_fresh now) b.failures) (now ∷ []),
)

evict_small :
    {V : Type 0} (ev : Evictable V) (m : Map V) (now : ℕ)
    → length m ≤ max_buckets
    → evict_if_needed ev m now ≡ m
unfolding evict_if_needed
evict_small ev m now h = ground arith

count-or_else :
    (o : Option Bucket) (now later : ℕ)
    → now ≤ later
    → count (is_fresh later) (record_failure now (or_else o no_failures)).failures
      ≡ count_in later o + (if is_fresh later now then 1 else 0)
count-or_else none now later h = record_count now later no_failures h ∙ count_none
  where
    count_none :
        count (is_fresh later) [] + (if is_fresh later now then 1 else 0)
        ≡ 0 + (if is_fresh later now then 1 else 0)
    count_none = unfold count in refl
count-or_else (some b) now later h = record_count now later b h

upsert_count :
    (k j : Text) (m : Map Bucket) (now later : ℕ)
    → now ≤ later
    → count_in later (lookup j (upsert k no_failures (record_failure now) m))
      ≡ count_in later (lookup j m) + (if text_eq k j && is_fresh later now then 1 else 0)
upsert_count k j m now later h = elim (Bool-cases (text_eq k j)) [
  | inl same ↦ ground (
    arith,
    lookup-upsert k j no_failures (record_failure now) m,
    text_eq_iff k j,
    count-or_else (lookup k m) now later h,
    ap (λ i. lookup i m) ((text_eq_iff k j).0 same),
  )
  | inr differ ↦ ground (
    arith,
    lookup-upsert k j no_failures (record_failure now) m,
    add-zero (count_in later (lookup j m)),
  )
]

-- While the map of accounts is not over its cap, a failed login adds exactly one to the failures of its
-- account that count at any later time within the window, and nothing to those of another account.
pub failure-counts :
    (l : LoginRateLimiter) (username ip other : Text) (now later : ℕ)
    → length l.by_account ≤ max_buckets
    → now ≤ later
    → account_failures (record_login_failure l username ip now) other later
      ≡ account_failures l other later
        + (if text_eq (to_ascii_lowercase username) (to_ascii_lowercase other) && is_fresh later now
            then 1
            else 0)
unfolding record_login_failure
failure-counts l username ip other now later room h =
    rw (evict_small bucket_evictable l.by_account now room) (
      upsert_count (to_ascii_lowercase username) (to_ascii_lowercase other) l.by_account now later
        h)

-- the failures of one account, from any addresses
pub fail_all : LoginRateLimiter → Text → List (Text × ℕ) → LoginRateLimiter
fail_all l username [] = l
fail_all l username ((ip, at) ∷ es) = fail_all (record_login_failure l username ip at) username es

-- each failure lies in the window that ends at a time
abbrev pub InWindow : ℕ → List (Text × ℕ) → Type 0
InWindow now es = All (λ e. (e.1 ≤ now) × (now < e.1 + window)) es

length-failure :
    (l : LoginRateLimiter) (username ip : Text) (now : ℕ)
    → length l.by_account ≤ max_buckets
    → length (record_login_failure l username ip now).by_account ≤ length l.by_account + 1
unfolding record_login_failure
length-failure l username ip now room =
    rw (evict_small bucket_evictable l.by_account now room)
      (length-upsert (to_ascii_lowercase username) no_failures (record_failure now) l.by_account)

fresh_in_window : (now at : ℕ) → (at ≤ now) × (now < at + window) → is_fresh now at ≡ true
unfolding is_fresh
fresh_in_window now at h = ground arith

fail_all-counts :
    (es : List (Text × ℕ)) (l : LoginRateLimiter) (username : Text) (now : ℕ)
    → length l.by_account + length es ≤ max_buckets
    → InWindow now es
    → account_failures (fail_all l username es) username now
      ≡ account_failures l username now + length es
unfolding fail_all
fail_all-counts [] l username now room h = omega arith
fail_all-counts ((ip, at) ∷ es) l username now room h = ground (
  arith,
  length-failure l username ip at (omega arith),
  failure-counts l username ip username at now (omega arith) h.0.0,
  text_eq_refl (to_ascii_lowercase username),
  fresh_in_window now at h.0,
  fail_all-counts es (record_login_failure l username ip at) username now
      (omega (arith, length-failure l username ip at (omega arith))) h.1,
)

-- Five or more failed logins of one account within the window, from whatever addresses, block the next
-- check of the account from every address, as long as the map of accounts stays within its cap.
pub failures-block :
    (l : LoginRateLimiter) (username ip : Text) (es : List (Text × ℕ)) (now : ℕ)
    → 5 ≤ length es
    → InWindow now es
    → length l.by_account + length es ≤ max_buckets
    → (check (fail_all l username es) username ip now).1 ≡ err too_many
failures-block l username ip es now five h room =
    (check_iff (fail_all l username es) username ip now).1
      (inl (omega (arith, fail_all-counts es l username now room h)))
