-- ===== src/RateLimit.antt =====
-- src/service/rate_limit.rs: login failures by account and by client address. An `Instant` is a number of
-- nanoseconds; `duration_since` stops at zero, as `-` does. Each operation reads the clock once, and takes
-- that reading as an argument.
pub mod Blocking
pub mod Failures
pub mod Order
pub mod Clearing
pub mod Eviction
pub mod Capacity
mod Examples
use rust_panel.Prelude.Map.{Map, remove, lookup, modify, upsert}
use mathlib.Core.Option.{map, Option}
use rust_panel.Prelude.{
  [], ◌∷◌, none, some, ok, err, false, Bool, List, Text, is_empty, ℕ, Option, Result, codes,
  if◌then◌else◌, leb, ltb, retain, to_ascii_lowercase, ◌*◌, ◌++◌, length, not, ◌-◌, take, text_eq,
  ◌||◌, ◌/◌,
}
use mathlib.Core.Option

abbrev pub window : ℕ
window = 15 * 60 * 1000000000

abbrev pub max_failures : ℕ
max_failures = 5

abbrev pub max_buckets : ℕ
max_buckets = 10000

-- `now.duration_since(at) < WINDOW`
unfoldable pub is_fresh : ℕ → ℕ → Bool
is_fresh now at = ltb (now - at) window

pub record Bucket : Type 0 where
  pub failures : List ℕ

pub record IpBucket : Type 0 where
  pub failures : List (Text × ℕ)

abbrev pub no_failures : Bucket
no_failures = record { failures = [] }

abbrev pub no_ip_failures : IpBucket
no_ip_failures = record { failures = [] }

-- `Bucket::prune`, `is_blocked`, `record_failure` and `clear`
unfoldable pub prune : ℕ → Bucket → Bucket
prune now b = record { failures = retain (is_fresh now) b.failures }

unfoldable pub is_blocked : ℕ → Bucket → Bucket × Bool
unfolding prune
is_blocked now b = let b' = prune now b in (b', leb max_failures (length b'.failures))

unfoldable pub record_failure : ℕ → Bucket → Bucket
unfolding prune
record_failure now b = record { failures = (prune now b).failures ++ now ∷ [] }

unfoldable pub clear : Bucket → Bucket
clear b = record { failures = [] }

-- the same of `IpBucket`
unfoldable pub prune_ip : ℕ → IpBucket → IpBucket
prune_ip now b = record { failures = retain (λ e. is_fresh now e.1) b.failures }

unfoldable pub is_blocked_ip : ℕ → IpBucket → IpBucket × Bool
unfolding prune_ip
is_blocked_ip now b = let b' = prune_ip now b in (b', leb max_failures (length b'.failures))

unfoldable pub record_failure_ip : Text → ℕ → IpBucket → IpBucket
unfolding prune_ip
record_failure_ip account now b = record {
  failures = (prune_ip now b).failures ++ (account, now) ∷ [];
}

unfoldable pub clear_account : Text → IpBucket → IpBucket
clear_account account b = record { failures = retain (λ e. not (text_eq e.0 account)) b.failures }

-- `slice::last`
abbrev pub last : {A : Type 0} → List A → Option A
last [] = none
last (x ∷ []) = some x
last (x ∷ y ∷ xs) = last (y ∷ xs)

-- the trait `Evictable` and its two implementations
pub record Evictable (V : Type 0) : Type 0 where
  pub prune_expired : ℕ → V → V
  pub is_idle : V → Bool
  pub last_failure : V → Option ℕ

abbrev pub bucket_evictable : Evictable Bucket
bucket_evictable = record {
  prune_expired = prune;
  is_idle = λ b. is_empty b.failures;
  last_failure = λ b. last b.failures;
}

abbrev pub ip_evictable : Evictable IpBucket
ip_evictable = record {
  prune_expired = prune_ip;
  is_idle = λ b. is_empty b.failures;
  last_failure = λ b. Option.map (λ e. e.1) (last b.failures);
}

-- `sort_by_key` on the times: a stable insertion sort
unfoldable pub insert_by_time : ℕ × Text → List (ℕ × Text) → List (ℕ × Text)
insert_by_time e [] = e ∷ []
insert_by_time e (d ∷ es) = if leb e.0 d.0 then e ∷ d ∷ es else d ∷ insert_by_time e es

unfoldable pub sort_by_time : List (ℕ × Text) → List (ℕ × Text)
unfolding insert_by_time
sort_by_time [] = []
sort_by_time (e ∷ es) = insert_by_time e (sort_by_time es)

module _ {V : Type 0} (ev : Evictable V) where
  unfoldable pub prune_all : ℕ → Map V → Map V
  prune_all now [] = []
  prune_all now ((k, v) ∷ m) = (k, ev.prune_expired now v) ∷ prune_all now m

  unfoldable pub drop_idle : Map V → Map V
  drop_idle [] = []
  drop_idle ((k, v) ∷ m) = let rest = drop_idle m in if ev.is_idle v then rest else (k, v) ∷ rest

  -- the buckets with the time of their last failure
  unfoldable pub idle_order : Map V → List (ℕ × Text)
  idle_order [] = []
  idle_order ((k, v) ∷ m) = elim (ev.last_failure v) [
    | none ↦ idle_order m
    | some at ↦ (at, k) ∷ idle_order m
  ]

  unfoldable pub remove_all : List (ℕ × Text) → Map V → Map V
  remove_all [] m = m
  remove_all ((at, k) ∷ es) m = remove_all es (remove k m)

  unfoldable pub evict_if_needed : Map V → ℕ → Map V
  unfolding prune_all drop_idle idle_order remove_all sort_by_time
  evict_if_needed m now =
      if leb (length m) max_buckets
      then m
      else let live = drop_idle (prune_all now m) in
        if leb (length live) max_buckets
        then live
        else remove_all (take (length live - max_buckets * 3 / 4) (sort_by_time (idle_order live)))
            live

pub record LoginRateLimiter : Type 0 where
  pub by_account : Map Bucket
  pub by_ip : Map IpBucket

abbrev pub empty_limiter : LoginRateLimiter
empty_limiter = record { by_account = []; by_ip = [] }

-- `get_mut(k).map(|b| b.is_blocked(now)).unwrap_or(false)`
abbrev pub answer : {V : Type 0} → (V → V × Bool) → Option V → Bool
answer f none = false
answer f (some v) = (f v).1

abbrev pub too_many : Text
too_many = codes "Too many login attempts; try again later"

-- `check` prunes the two buckets that it reads
unfoldable pub check :
    LoginRateLimiter → Text → Text → ℕ → LoginRateLimiter × Result Text (Unit {0})
unfolding is_blocked is_blocked_ip
check l username ip now =
    let key = to_ascii_lowercase username in
    let account_blocked = answer (is_blocked now) (lookup key l.by_account) in
    let ip_blocked = answer (is_blocked_ip now) (lookup ip l.by_ip) in
    let l' : LoginRateLimiter = record {
      by_account = modify key (λ b. (is_blocked now b).0) l.by_account;
      by_ip = modify ip (λ b. (is_blocked_ip now b).0) l.by_ip;
    } in
    (l', if account_blocked || ip_blocked then err too_many else ok tt)

unfoldable pub record_login_failure : LoginRateLimiter → Text → Text → ℕ → LoginRateLimiter
unfolding record_failure record_failure_ip evict_if_needed
record_login_failure l username ip now =
    let accounts = evict_if_needed bucket_evictable l.by_account now in
    let ips = evict_if_needed ip_evictable l.by_ip now in
    let key = to_ascii_lowercase username in
    record {
      by_account = upsert key no_failures (record_failure now) accounts;
      by_ip = upsert ip no_ip_failures (record_failure_ip key now) ips;
    }

unfoldable pub clear_success : LoginRateLimiter → Text → Text → LoginRateLimiter
unfolding clear clear_account
clear_success l username ip =
    let key = to_ascii_lowercase username in
    record {
      by_account = modify key clear l.by_account;
      by_ip = modify ip (clear_account key) l.by_ip;
    }
