-- ===== src/Accounts/Examples/LoginExamples.antt =====
-- The theorems on logins and requests at concrete tables.
use rust_panel.Accounts.Rbac.Granted.{is_granted}
use rust_panel.Accounts.Auth.Identity.{
  IsAuthenticated, bump_token_version-authenticate, auth_user-IsAuthenticated,
  admin_user-is_granted,
}
use rust_panel.Prelude.Int.{pos}
use rust_panel.Accounts.Login.Password.{IsLoggedIn, check_login-IsLoggedIn}
use rust_panel.Accounts.Login.Lockout.{after_attempts, is_wrong, wrong_passwords-lock}
use rust_panel.Accounts.Users.{has_id}
use rust_panel.Accounts.Examples.{decode, hash, outside, tables, at, Text, alice, claims, pos}
use rust_panel.Prelude.Decimal.{parse_i32}
use rust_panel.Accounts.Sessions.{bump_token_version}
use rust_panel.Accounts.Login.{check_login, verify_stored, has_name, verify_sha1}
use rust_panel.Accounts.Auth.{
  admin_user, auth_user, authenticate_token, bearer, path_allows_must_change, user_admin,
}
use rust_panel.Prelude.{
  refl, [], ◌∷◌, none, some, true, find_first, find_last, text_eq, codes, all, ◌≡◌, Text,
}
use rust_panel.Db.Ensures.{Ensures}

auth_user-IsAuthenticated_example :
    Ensures
      (auth_user hash decode (at 201) (some (codes "Bearer token")) true (codes "/api/v1/user/me"))
      tables
      (λ a u.
        ((value : Text) × (some (codes "Bearer token") ≡ some value)
          × IsAuthenticated hash (decode (bearer value)) (at 201) tables a
          × (a.must_change_password ≡ true
              → path_allows_must_change (codes "/api/v1/user/me") ≡ true))
        × (u ≡ tables))
auth_user-IsAuthenticated_example =
    auth_user-IsAuthenticated hash decode (at 201) (some (codes "Bearer token")) true
      (codes "/api/v1/user/me") tables

admin_user-is_granted_example :
    Ensures
      (admin_user hash decode (at 201) (some (codes "token")) true (codes "/api/v1/admin/users"))
      tables
      (λ a u.
        ((value : Text) × (some (codes "token") ≡ some value)
          × IsAuthenticated hash (decode (bearer value)) (at 201) tables a
          × (is_granted tables a.id user_admin ≡ true))
        × (u ≡ tables))
admin_user-is_granted_example =
    admin_user-is_granted hash decode (at 201) (some (codes "token")) true
      (codes "/api/v1/admin/users") tables

found : find_first (has_id 1) tables.users ≡ some alice
unfolding find_first
found = refl

decoded : decode (codes "token") ≡ some claims
unfolding text_eq
decoded = refl

named : parse_i32 (codes "1") ≡ some (pos 1)
unfolding parse_i32
named = refl

bump_token_version-authenticate_example : Ensures (bump_token_version 1) tables (λ v u.
    (v ≡ 5) × Ensures (authenticate_token hash decode (at 201) (codes "token")) u (λ _ _. ⊥))
bump_token_version-authenticate_example =
    bump_token_version-authenticate hash decode 1 tables alice (codes "token") claims (at 201) found
      decoded named refl

named_row : find_last (has_name (codes "alice")) tables.users ≡ some alice
unfolding find_last text_eq
named_row = refl

wrong : all (is_wrong outside alice) (codes "a" ∷ codes "b" ∷ []) ≡ true
unfolding verify_stored verify_sha1 text_eq
wrong = refl

wrong_passwords-lock_example :
    Ensures
      (check_login outside none (codes "alice") (codes "open sesame"))
      (after_attempts outside (codes "alice") tables (codes "a" ∷ codes "b" ∷ []))
      (λ _ _. ⊥)
wrong_passwords-lock_example =
    wrong_passwords-lock outside none (codes "alice") (codes "open sesame") tables alice
      (codes "a" ∷ codes "b" ∷ []) named_row wrong refl

check_login-IsLoggedIn_example :
    Ensures
      (check_login outside (some (codes "fresh")) (codes "alice") (codes "open sesame"))
      tables
      (λ user u.
        IsLoggedIn outside
          (some (codes "fresh"))
          (codes "alice")
          (codes "open sesame")
          tables
          u
          user)
check_login-IsLoggedIn_example =
    check_login-IsLoggedIn outside (some (codes "fresh")) (codes "alice") (codes "open sesame")
      tables
