-- ===== src/RateLimit/Blocking.antt =====
-- When a login is blocked: the failures of an account, and of an address, within the window.
use rust_panel.Prelude.{Option}
use rust_panel.Prelude.{inl, inr, Option-cases, leb, length-retain_eq}
use rust_panel.Prelude.Map.{lookup, lookup-modify}
use rust_panel.RateLimit.{
  LoginRateLimiter, check, is_fresh, lookup, too_many, answer, is_blocked, is_blocked_ip, Bucket,
  IpBucket,
}
use rust_panel.Prelude.{
  refl, [], ◌∷◌, none, some, err, count, Text, retain, ℕ, List, ◌≡◌, to_ascii_lowercase, ◌≤◌, arith,
  ◌↔◌, ◌⊎◌,
}

-- the failures that count at a time, of one account and of one address
abbrev pub count_in : ℕ → Option Bucket → ℕ
count_in now none = 0
count_in now (some b) = count (is_fresh now) b.failures

abbrev pub account_failures : LoginRateLimiter → Text → ℕ → ℕ
account_failures l username now = count_in now (lookup (to_ascii_lowercase username) l.by_account)

abbrev pub ip_failures : LoginRateLimiter → Text → ℕ → ℕ
ip_failures l ip now = elim (lookup ip l.by_ip) [
  | none ↦ 0
  | some b ↦ count (λ e. is_fresh now e.1) b.failures
]

blocked_eq : (now : ℕ) (b : Bucket) → (is_blocked now b).1 ≡ leb 5 (count (is_fresh now) b.failures)
unfolding is_blocked
blocked_eq now b = ground (arith, length-retain_eq (is_fresh now) b.failures)

blocked_ip_eq :
    (now : ℕ) (b : IpBucket)
    → (is_blocked_ip now b).1 ≡ leb 5 (count (λ e. is_fresh now e.1) b.failures)
unfolding is_blocked_ip
blocked_ip_eq now b = ground (arith, length-retain_eq (λ e. is_fresh now e.1) b.failures)

account_answer :
    (l : LoginRateLimiter) (username : Text) (now : ℕ)
    → answer (is_blocked now) (lookup (to_ascii_lowercase username) l.by_account)
      ≡ leb 5 (account_failures l username now)
account_answer l username now =
    elim (Option-cases (lookup (to_ascii_lowercase username) l.by_account)) [
      | inl missing ↦ ground arith
      | inr (b, found) ↦ ground (arith, blocked_eq now b)
    ]

ip_answer :
    (l : LoginRateLimiter) (ip : Text) (now : ℕ)
    → answer (is_blocked_ip now) (lookup ip l.by_ip) ≡ leb 5 (ip_failures l ip now)
ip_answer l ip now = elim (Option-cases (lookup ip l.by_ip)) [
  | inl missing ↦ ground arith
  | inr (b, found) ↦ ground (arith, blocked_ip_eq now b)
]

-- A login is refused exactly when five failures of the account, or five of the address, are younger than
-- the window.
pub check_iff :
    (l : LoginRateLimiter) (username ip : Text) (now : ℕ)
    → ((check l username ip now).1 ≡ err too_many)
      ↔ ((5 ≤ account_failures l username now) ⊎ (5 ≤ ip_failures l ip now))
unfolding check
check_iff l username ip now = ground (arith, account_answer l username now, ip_answer l ip now)

-- What is pruned at one time counts at no later time.
pub fresh_prune :
    (now later : ℕ) (fs : List ℕ)
    → now ≤ later
    → count (is_fresh later) (retain (is_fresh now) fs) ≡ count (is_fresh later) fs
unfolding count retain is_fresh
fresh_prune now later [] h = refl
fresh_prune now later (at ∷ fs) h = ground (arith, fresh_prune now later fs h)

fresh_prune_ip :
    (now later : ℕ) (fs : List (Text × ℕ))
    → now ≤ later
    → count (λ e. is_fresh later e.1) (retain (λ e. is_fresh now e.1) fs)
      ≡ count (λ e. is_fresh later e.1) fs
unfolding count retain is_fresh
fresh_prune_ip now later [] h = refl
fresh_prune_ip now later (at ∷ fs) h = ground (arith, fresh_prune_ip now later fs h)

-- A check changes no count of failures, of any account or address, from its own time on.
pub check-keeps_counts :
    (l : LoginRateLimiter) (username ip other addr : Text) (now later : ℕ)
    → now ≤ later
    → (account_failures (check l username ip now).0 other later ≡ account_failures l other later)
      × (ip_failures (check l username ip now).0 addr later ≡ ip_failures l addr later)
unfolding check is_blocked is_blocked_ip
check-keeps_counts l username ip other addr now later h = (
  elim (Option-cases (lookup (to_ascii_lowercase other) l.by_account)) [
    | inl missing ↦ ground (
      arith,
      lookup-modify (to_ascii_lowercase username) (to_ascii_lowercase other)
          (λ b. (is_blocked now b).0) l.by_account,
    )
    | inr (b, found) ↦ ground (
      arith,
      lookup-modify (to_ascii_lowercase username) (to_ascii_lowercase other)
          (λ b. (is_blocked now b).0) l.by_account,
      fresh_prune now later b.failures h,
    )
  ],
  elim (Option-cases (lookup addr l.by_ip)) [
    | inl missing ↦ ground (arith, lookup-modify ip addr (λ b. (is_blocked_ip now b).0) l.by_ip)
    | inr (b, found) ↦ ground (
      arith,
      lookup-modify ip addr (λ b. (is_blocked_ip now b).0) l.by_ip,
      fresh_prune_ip now later b.failures h,
    )
  ],
)
