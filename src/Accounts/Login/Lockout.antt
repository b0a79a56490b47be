-- ===== src/Accounts/Login/Lockout.antt =====
-- Wrong passwords lock an account.
use rust_panel.Prelude.{refl, inl, inr, Bool-cases}
use rust_panel.Accounts.Users.{find_user_update_error_count, has_id}
use rust_panel.Prelude.Int.{eq_ℤ, pos, negsuc}
use mathlib.Core.Option.{Option}
use rust_panel.Accounts.Tables.{User, Tables, change}
use rust_panel.Accounts.Login.{
  Outside, Bool, Text, check_login, Tables, attempt, ban, eq_ℤ, not, verify_stored, find_last,
  find_user_update_error_count, pos, acquire, has_name, leb, negsuc, query, require, update,
  fail_when, change, has_id,
}
use rust_panel.Prelude.{
  [], ◌∷◌, none, some, true, false, ℕ, Bool, Option, Text, if◌then◌else◌, not, List, find_last, leb,
  ◌||◌, ◌+◌, ◌≡◌, all, arith, length, find_last-map_eq,
}
use rust_panel.Db.Steps.{reading, having, checking, branching, connecting, changing}
use rust_panel.Db.Ensures.{Ensures, ensures-throw}
use rust_panel.Db.{◌>>=◌, ◌>>◌, tables_after, acquire, quiet, query, require, update, fail_when}

-- A row whose account is disabled, or would be full of failures after some more.
abbrev pub is_barred : ℕ → User → Bool
is_barred more u = not (eq_ℤ u.status (pos 0)) || leb 5 (u.error_count + more)

-- a user's row after one more wrong password
abbrev pub after_wrong : User → User
after_wrong u =
    if eq_ℤ u.status (pos 0)
    then if leb 5 u.error_count
      then record u { status = negsuc 0 }
      else record u { error_count = u.error_count + 1 }
    else u

module _ (o : Outside) where
  abbrev pub is_wrong : User → Text → Bool
  is_wrong u password = elim (verify_stored o u.password u.salt u.password_algo password) [
    | none ↦ false
    | some v ↦ not v.0
  ]

  -- the tables after a login attempt on a database that answers
  abbrev pub after_attempt : Text → Tables → Text → Tables
  after_attempt name t password = tables_after (check_login o none name password) (quiet t)

  -- the tables after a list of attempts
  abbrev pub after_attempts : Text → Tables → List Text → Tables
  after_attempts name t [] = t
  after_attempts name t (w ∷ ws) = after_attempts name (after_attempt name t w) ws

  -- An attempt does not change which passwords are wrong.
  wrong_after :
      (u : User) (password : Text) → is_wrong (after_wrong u) password ≡ is_wrong u password
  wrong_after u password = elim (Bool-cases (eq_ℤ u.status (pos 0))) [
    | inl enabled ↦ elim (Bool-cases (leb 5 u.error_count)) [
      | inl full ↦ ground arith
      | inr few ↦ ground arith
    ]
    | inr disabled ↦ ground arith
  ]

  still_wrong :
      (u : User) (ws : List Text)
      → all (is_wrong u) ws ≡ true
      → all (is_wrong (after_wrong u)) ws ≡ true
  still_wrong u [] h = refl
  still_wrong u (w ∷ ws) h = ground (arith, wrong_after u w, still_wrong u ws)

  attempt_row :
      (name password : Text) (t : Tables) (u : User)
      → find_last (has_name name) t.users ≡ some u
      → is_wrong u password ≡ true
      → find_last (has_name name) (after_attempt name t password).users ≡ some (after_wrong u)
  unfolding check_login attempt ban find_user_update_error_count acquire query require update
      fail_when ◌>>=◌ ◌>>◌
  attempt_row name password t u found wrong = ground (
    arith,
    wrong,
    found,
    find_last-map_eq (has_name name) (change (has_id u.id) (λ u. record u { status = negsuc 0 }))
        t.users (λ u. ground arith),
    find_last-map_eq (has_name name)
        (change (has_id u.id) (λ v. record v { error_count = u.error_count + 1 })) t.users
        (λ u. ground arith),
  )

  barred-refused :
      (fresh : Option Text) (name password : Text) (t : Tables) (u : User)
      → find_last (has_name name) t.users ≡ some u
      → is_barred 0 u ≡ true
      → Ensures (check_login o fresh name password) t (λ _ _. ⊥)
  unfolding check_login ban
  barred-refused fresh name password t u found barred = connecting _ _ (
      reading _ _ _ (
        having _ _ _ λ v it. checking _ _ _ λ enabled.
          branching (leb 5 v.error_count) (ban o v) (attempt o fresh v password)
            (λ full. changing _ _ _ (ensures-throw _ _ _))
            (λ few. absurd (ground (arith, found, it)))))

  -- Once as many wrong passwords as are left of five were tried on a database that answers, or where the account
  -- is disabled, no password is accepted for the name, whatever statements fail then.
  pub wrong_passwords-lock :
      (fresh : Option Text) (name password : Text) (t : Tables) (u : User) (ws : List Text)
      → find_last (has_name name) t.users ≡ some u
      → all (is_wrong u) ws ≡ true
      → is_barred (length ws) u ≡ true
      → Ensures (check_login o fresh name password) (after_attempts name t ws) (λ _ _. ⊥)
  wrong_passwords-lock fresh name password t u [] found wrong barred =
      barred-refused fresh name password t u found barred
  wrong_passwords-lock fresh name password t u (w ∷ ws) found wrong barred =
      wrong_passwords-lock fresh name password (after_attempt name t w) (after_wrong u) ws
        (attempt_row name w t u found (ground arith)) (still_wrong u ws (ground arith))
        (ground arith)
