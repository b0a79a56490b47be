-- ===== src/RateLimit/Clearing.antt =====
-- What a successful login clears.
use rust_panel.RateLimit.Blocking.{account_failures}
use rust_panel.Prelude.Map.{lookup, lookup-modify}
use rust_panel.RateLimit.{
  LoginRateLimiter, clear_account, clear_success, clear, IpBucket, lookup, is_fresh,
}
use rust_panel.Prelude.{
  [], ◌∷◌, none, some, inl, inr, count, ℕ, Text, retain, List, Option, text_eq, ◌≡◌, if◌then◌else◌,
  ◌&&◌, to_ascii_lowercase, Option-cases, not, arith, text_eq_iff,
}

-- the failures at one address that one account caused and that count at a time
abbrev pub owned_in : ℕ → Text → Option IpBucket → ℕ
owned_in now owner none = 0
owned_in now owner (some b) = count (λ e. text_eq e.0 owner && is_fresh now e.1) b.failures

abbrev pub owned_failures : LoginRateLimiter → Text → Text → ℕ → ℕ
owned_failures l addr owner now = owned_in now owner (lookup addr l.by_ip)

clear_account_count :
    (now : ℕ) (account owner : Text) (fs : List (Text × ℕ))
    → count
        (λ e. text_eq e.0 owner && is_fresh now e.1)
        (retain (λ e. not (text_eq e.0 account)) fs)
      ≡ (if text_eq account owner then 0 else count (λ e. text_eq e.0 owner && is_fresh now e.1) fs)
unfolding count retain
clear_account_count now account owner [] = ground arith
clear_account_count now account owner (e ∷ fs) = ground (
  arith,
  clear_account_count now account owner fs,
  text_eq_iff e.0 owner,
  text_eq_iff e.0 account,
  text_eq_iff account owner,
)

clear_count :
    (now : ℕ) (account owner : Text) (b : IpBucket)
    → owned_in now owner (some (clear_account account b))
      ≡ (if text_eq account owner then 0 else owned_in now owner (some b))
unfolding clear_account
clear_count now account owner b = clear_account_count now account owner b.failures

-- A successful login sets the failures of its own account to none and leaves those of every other
-- account; at its address it forgets the failures that its account caused there, and keeps those that
-- other accounts caused, there and at every other address.
pub clear_success-counts :
    (l : LoginRateLimiter) (username ip other addr owner : Text) (now : ℕ)
    → (account_failures (clear_success l username ip) other now ≡ (
        if text_eq (to_ascii_lowercase username) (to_ascii_lowercase other)
        then 0
        else account_failures l other now))
      × (owned_failures (clear_success l username ip) addr owner now ≡ (
          if text_eq ip addr && text_eq (to_ascii_lowercase username) owner
          then 0
          else owned_failures l addr owner now))
unfolding clear_success clear count
clear_success-counts l username ip other addr owner now = (
  elim (Option-cases (lookup (to_ascii_lowercase other) l.by_account)) [
    | inl missing ↦ ground (
      arith,
      lookup-modify (to_ascii_lowercase username) (to_ascii_lowercase other) clear l.by_account,
    )
    | inr (b, found) ↦ ground (
      arith,
      lookup-modify (to_ascii_lowercase username) (to_ascii_lowercase other) clear l.by_account,
    )
  ],
  elim (Option-cases (lookup addr l.by_ip)) [
    | inl missing ↦
        ground (arith, lookup-modify ip addr (clear_account (to_ascii_lowercase username)) l.by_ip)
    | inr (b, found) ↦ ground (
      arith,
      lookup-modify ip addr (clear_account (to_ascii_lowercase username)) l.by_ip,
      clear_count now (to_ascii_lowercase username) owner b,
    )
  ],
)
