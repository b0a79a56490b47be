-- ===== src/RateLimit/Examples.antt =====
-- The theorems on the limiter at concrete attempts.
use rust_panel.RateLimit.Capacity.{IsBounded, Reach-IsBounded, next, fresh, failed, checked}
use rust_panel.RateLimit.Failures.{InWindow, fail_all, failures-block}
use rust_panel.RateLimit.{LoginRateLimiter, check, record_login_failure, empty_limiter, too_many}
use rust_panel.Prelude.{[], ◌∷◌, err, List, Text, arith, codes, ℕ, ◌≡◌}

abbrev alice : Text
alice = codes "Alice"

abbrev home : Text
home = codes "10.0.0.1"

-- five failures within a few nanoseconds
abbrev five : List (Text × ℕ)
five = (home, 1) ∷ (home, 2) ∷ (codes "10.0.0.2", 3) ∷ (home, 4) ∷ (home, 5) ∷ []

abbrev one_failure : LoginRateLimiter
one_failure = record_login_failure empty_limiter alice home 1

in_window : InWindow 9 five
in_window = ground arith

failures-block_example :
    (check (fail_all empty_limiter alice five) alice (codes "10.9.9.9") 9).1 ≡ err too_many
failures-block_example =
    failures-block empty_limiter alice (codes "10.9.9.9") five 9 (omega arith) in_window
      (omega arith)

Reach-IsBounded_example : IsBounded (check one_failure alice home 9).0
Reach-IsBounded_example =
    Reach-IsBounded (next (next fresh (failed alice home 1)) (checked alice home 9))
