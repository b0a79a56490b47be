-- ===== src/Accounts/SignIn/Limited.antt =====
-- What the limiter makes of logins.
use rust_panel.RateLimit.Capacity.{length-modify}
use rust_panel.Prelude.{refl, ok, err, inl, inr, Result, Result-cases}
use rust_panel.RateLimit.Blocking.{account_failures, ip_failures, check_iff, check-keeps_counts}
use rust_panel.RateLimit.Failures.{failure-counts}
use rust_panel.Errors.{CommonError}
use rust_panel.Accounts.Tables.{Tables}
use rust_panel.Db.{Conn}
use rust_panel.RateLimit.{
  LoginRateLimiter, max_buckets, too_many, is_fresh, check, record_login_failure, is_blocked,
}
use rust_panel.Accounts.SignIn.{
  Setting, Request, sign, LoginRateLimiter, Text, admit, Conn, conclude, decrypted, Tables,
  CommonError, text_eq, ℕ, failed, is_stale, limited, Result, check, record_login_failure, UserView,
  issue_session_token,
}
use rust_panel.Prelude.{
  true, false, Text, text_eq, ℕ, ◌≡◌, length, ◌≤◌, ◌+◌, ◌⊎◌, if◌then◌else◌, to_ascii_lowercase,
  ◌&&◌, arith,
}

module _ (s : Setting) where
  abbrev pub login_name : Request → Text
  login_name r = decrypted s r r.username

  -- While five failures of the account, or of the address, lie in the window, a login is turned away before the
  -- database is asked.
  sign-limited :
      (r : Request) (l : LoginRateLimiter) (c : Conn Tables)
      → text_eq s.security_dir r.dir ≡ true
      → is_stale r.now r.timestamp ≡ false
      → (5 ≤ account_failures l (login_name r) r.checked_at) ⊎ (5 ≤ ip_failures l r.ip r.checked_at)
      → ((sign s r l c).0.1 ≡ limited too_many) × ((sign s r l c).1 ≡ c)
  unfolding sign
  sign-limited r l c here now many =
      let refused = (check_iff l (login_name r) r.ip r.checked_at).1 many in
      (ground (arith, refused), ground (arith, refused))

  -- the limiter after a failed login
  abbrev after_failure : Request → LoginRateLimiter → LoginRateLimiter
  after_failure r l =
      record_login_failure (check l (login_name r) r.ip r.checked_at).0 (login_name r) r.ip
        r.answered_at

  conclude-failed :
      (r : Request) (l : LoginRateLimiter) (o : Result CommonError (Text × UserView))
      (e : CommonError)
      → (conclude s r (login_name r) l o).1 ≡ failed e
      → (conclude s r (login_name r) l o).0
        ≡ record_login_failure l (login_name r) r.ip r.answered_at
  unfolding conclude
  conclude-failed r l (ok (token, user)) e h = cc
  conclude-failed r l (err x) e h = refl

  sign_after :
      (r : Request) (l : LoginRateLimiter) (c : Conn Tables) (e : CommonError)
      → (sign s r l c).0.1 ≡ failed e
      → (sign s r l c).0.0 ≡ after_failure r l
  unfolding sign admit
  sign_after r l c e h =
      let l' = (check l (login_name r) r.ip r.checked_at).0 in
      elim (Result-cases (check l (login_name r) r.ip r.checked_at).1) [
        | inr (m, turned) ↦ ground arith
        | inl (u, passed) ↦ ground (
          arith,
          conclude-failed r l'
              (issue_session_token s r (login_name r) (decrypted s r r.password) c).0 e,
        )
      ]

  length-check :
      (r : Request) (l : LoginRateLimiter)
      → length l.by_account ≤ max_buckets
      → length (check l (login_name r) r.ip r.checked_at).0.by_account ≤ max_buckets
  unfolding check
  length-check r l room = omega (
    arith,
    length-modify (to_ascii_lowercase (login_name r)) (λ b. (is_blocked r.checked_at b).0)
        l.by_account,
  )

  -- A login that fails counts against its account for the length of the window, and not against another.
  pub sign-failed :
      (r : Request) (l : LoginRateLimiter) (c : Conn Tables) (e : CommonError) (other : Text)
      (later : ℕ)
      → (sign s r l c).0.1 ≡ failed e
      → length l.by_account ≤ max_buckets
      → r.checked_at ≤ later
      → r.answered_at ≤ later
      → account_failures (sign s r l c).0.0 other later
        ≡ account_failures l other later
          + (if text_eq (to_ascii_lowercase (login_name r)) (to_ascii_lowercase other)
                && is_fresh later r.answered_at
              then 1
              else 0)
  unfolding sign admit conclude
  sign-failed r l c e other later fails room checked answered = rw (sign_after r l c e fails) (
      ground (
        arith,
        failure-counts (check l (login_name r) r.ip r.checked_at).0 (login_name r) r.ip other
            r.answered_at later (length-check r l room) answered,
        (check-keeps_counts l (login_name r) r.ip other r.ip r.checked_at later checked).0,
      ))
