-- ===== src/RateLimit/Capacity.antt =====
-- How large the maps of the limiter grow, over any sequence of its operations.
use rust_panel.RateLimit.Eviction.{evict-Distinct, bucket-IsLawful, ip-IsLawful, length-evict}
use rust_panel.Prelude.{to_ascii_lowercase}
use rust_panel.Prelude.Map.{
  Map, Distinct, keys, modify, upsert-Distinct, keys-modify, length-upsert,
}
use rust_panel.RateLimit.{
  bucket_evictable, ip_evictable, Map, evict_if_needed, max_buckets, LoginRateLimiter, check,
  record_login_failure, Bucket, clear_success, empty_limiter, IpBucket, is_blocked, is_blocked_ip,
  no_failures, clear, record_failure, clear_account, no_ip_failures, record_failure_ip,
}
use rust_panel.Prelude.{refl, [], ◌∷◌, Text, ◌≡◌, ℕ, arith, length, subst, sym, ◌+◌, ◌≤◌}

-- Each map holds every key once, and at most one bucket more than the cap.
pub record IsBounded (l : LoginRateLimiter) : Type 0 where
  pub accounts_distinct : Distinct (keys l.by_account)
  pub ips_distinct : Distinct (keys l.by_ip)
  pub accounts_capped : length l.by_account ≤ max_buckets + 1
  pub ips_capped : length l.by_ip ≤ max_buckets + 1

pub length-modify :
    {V : Type 0} (k : Text) (f : V → V) (m : Map V) → length (modify k f m) ≡ length m
unfolding modify
length-modify k f [] = refl
length-modify k f ((i, v) ∷ m) = ground (arith, length-modify k f m)

-- What the panel does to its limiter.
pub data Step (l : LoginRateLimiter) : LoginRateLimiter → Type 0 where
  checked : (user ip : Text) (now : ℕ) → Step l (check l user ip now).0
  failed : (user ip : Text) (now : ℕ) → Step l (record_login_failure l user ip now)
  signed_in : (user ip : Text) → Step l (clear_success l user ip)

pub data Reach : LoginRateLimiter → Type 0 where
  fresh : Reach empty_limiter
  next : {l l' : LoginRateLimiter} → Reach l → Step l l' → Reach l'

modify-IsBounded :
    (l : LoginRateLimiter) (k ip : Text) (f : Bucket → Bucket) (g : IpBucket → IpBucket)
    → IsBounded l
    → IsBounded (record { by_account = modify k f l.by_account; by_ip = modify ip g l.by_ip })
modify-IsBounded l k ip f g h = record {
  accounts_distinct = subst Distinct (sym (keys-modify k f l.by_account)) h.accounts_distinct;
  ips_distinct = subst Distinct (sym (keys-modify ip g l.by_ip)) h.ips_distinct;
  accounts_capped = omega (arith, length-modify k f l.by_account, h.accounts_capped);
  ips_capped = omega (arith, length-modify ip g l.by_ip, h.ips_capped);
}

failure-IsBounded :
    (l : LoginRateLimiter) (user ip : Text) (now : ℕ)
    → IsBounded l
    → IsBounded (record_login_failure l user ip now)
unfolding record_login_failure
failure-IsBounded l user ip now h =
    let key = to_ascii_lowercase user in
    let accounts = evict_if_needed bucket_evictable l.by_account now in
    let ips = evict_if_needed ip_evictable l.by_ip now in
    record {
      accounts_distinct =
          upsert-Distinct key no_failures (record_failure now) accounts
            (evict-Distinct bucket_evictable bucket-IsLawful l.by_account now h.accounts_distinct);
      ips_distinct =
          upsert-Distinct ip no_ip_failures (record_failure_ip key now) ips
            (evict-Distinct ip_evictable ip-IsLawful l.by_ip now h.ips_distinct);
      accounts_capped = omega (
        arith,
        length-upsert key no_failures (record_failure now) accounts,
        length-evict bucket_evictable bucket-IsLawful l.by_account now h.accounts_distinct,
      );
      ips_capped = omega (
        arith,
        length-upsert ip no_ip_failures (record_failure_ip key now) ips,
        length-evict ip_evictable ip-IsLawful l.by_ip now h.ips_distinct,
      );
    }

Step-IsBounded : {l l' : LoginRateLimiter} → Step l l' → IsBounded l → IsBounded l'
unfolding check clear_success
Step-IsBounded {l} (checked user ip now) h =
    modify-IsBounded l (to_ascii_lowercase user) ip (λ b. (is_blocked now b).0)
      (λ b. (is_blocked_ip now b).0) h
Step-IsBounded {l} (failed user ip now) h = failure-IsBounded l user ip now h
Step-IsBounded {l} (signed_in user ip) h =
    modify-IsBounded l (to_ascii_lowercase user) ip clear (clear_account (to_ascii_lowercase user))
      h

-- After any sequence of checks, failures and sign-ins on a new limiter, each of its maps holds every key
-- once and at most one bucket more than the cap of 10,000.
pub Reach-IsBounded : {l : LoginRateLimiter} → Reach l → IsBounded l
Reach-IsBounded fresh = record {
  accounts_distinct = tt;
  ips_distinct = tt;
  accounts_capped = omega arith;
  ips_capped = omega arith;
}
Reach-IsBounded (next r s) = Step-IsBounded s (Reach-IsBounded r)
