-- ===== src/Accounts/Passwords.antt =====
-- src/api/v1/user.rs: `change_password`, of the authenticated user.
pub mod SignedOut
use rust_panel.Accounts.Sessions.{validate_session, bump_token_version, revoke_all_for_user}
use rust_panel.Accounts.Tickets.{transaction_failed}
use rust_panel.Prelude.Int.{eq_ℤ, pos}
use rust_panel.Accounts.Users.{has_id}
use rust_panel.Errors.{CommonError, invalid_credentials, bad_request, service_unavailable, internal}
use rust_panel.Accounts.Auth.{AuthUser}
use rust_panel.Accounts.Tables.{Clock, User, Tables, change}
use rust_panel.Accounts.Login.{Outside, algo_argon2id, verify_stored}
use rust_panel.Prelude.{[], Text, ℕ, Option, ltb, byte_len, find_first, codes, not, ◌||◌, map}
use rust_panel.Db.{
  ◌>>=◌, ◌>>◌, Db, fail_when, query, require, acquire, transaction, update, map_err,
}

abbrev pub set_password : Text → ℕ → User → User
set_password hash must_change u = record u {
  password = hash;
  salt = [];
  password_algo = algo_argon2id;
  must_change_password = must_change;
}

module _ (o : Outside) (hash_jti : Text → Text) where
  -- the body of the transaction
  unfoldable pub change_body :
      Clock → AuthUser → Text → Option Text → Db Tables CommonError (Unit {0})
  change_body now user current fresh = do
    found ← query (λ _. invalid_credentials) (λ t. find_first (has_id user.id) t.users)
    row ← require found invalid_credentials
    fail_when
        (not (eq_ℤ row.status (pos 0)) || not (eq_ℤ (pos row.token_version) user.token_version))
        invalid_credentials
    validate_session hash_jti now user.jti user.id
    verdict ←
        require (verify_stored o row.password row.salt row.password_algo current)
          (internal (codes "Password verify failed"))
    fail_when (not verdict.0) (bad_request (codes "Current password is incorrect"))
    hash ← require fresh (internal (codes "Failed to hash password"))
    update internal (λ t.
        (tt, record t { users = map (change (has_id user.id) (set_password hash 0)) t.users }))
    version ← map_err internal (bump_token_version user.id)
    map_err internal (revoke_all_for_user now user.id)

  unfoldable pub change_password :
      Clock → AuthUser → Text → Text → Option Text → Db Tables CommonError (Unit {0})
  change_password now user current new_password fresh = do
    fail_when (ltb (byte_len new_password) 8)
        (bad_request (codes "New password must be at least 8 characters"))
    acquire (λ _. service_unavailable (codes "Database unavailable"))
    transaction transaction_failed (change_body now user current fresh)
