-- ===== src/Accounts/Auth.antt =====
-- src/api/auth.rs: who a request comes from. The decoding of a token (jsonwebtoken, with its check of the
-- signature and of `exp`) and the hash of a `jti` are parameters. A thread pool that fails to run the check is
-- one more fault of the connection's list.
pub mod Identity
use rust_panel.Accounts.Users.{find_user_by_id}
use rust_panel.Prelude.Decimal.{parse_i32}
use rust_panel.Accounts.Rbac.{require_perm}
use rust_panel.Accounts.Sessions.{validate_session, has_hash}
use rust_panel.Prelude.Int.{ℤ, pos, negsuc, eq_ℤ}
use rust_panel.Accounts.Tables.{Clock, Tables}
use rust_panel.Errors.{CommonError, service_unavailable, invalid_credentials, forbidden}
use rust_panel.Prelude.{
  [], ◌∷◌, Text, ℕ, Bool, Option, codes, if◌then◌else◌, one_of, starts_with, drop, not, ◌&&◌,
  find_first, ◌||◌, ◌==◌,
}
use rust_panel.Db.{◌>>=◌, ◌>>◌, Db, fail_when, require, acquire, pure, map_err, query, throw}

pub record Claims : Type 0 where
  pub sub : Text
  pub jti : Text
  pub iat : ℕ
  pub exp : ℕ
  pub ver : ℤ

pub record AuthUser : Type 0 where
  pub id : ℕ
  pub username : Text
  pub authority : Text
  pub created_at : ℕ
  pub jti : Text
  pub must_change_password : Bool
  pub token_version : ℤ
  pub expires_at_unix : ℕ

abbrev pub user_admin : Text
user_admin = codes "user:admin"

unfoldable pub path_allows_must_change : Text → Bool
path_allows_must_change path =
    one_of
      (codes "/api/v1/user/me"
        ∷ codes "/api/v1/user/change-password"
        ∷ codes "/api/v1/login/logout"
        ∷ codes "/api/v1/login/security_dir"
        ∷ [])
      path

abbrev pub authentication_unavailable : CommonError
authentication_unavailable = service_unavailable (codes "Authentication database unavailable")

-- `strip_prefix("Bearer ").unwrap_or(value)`
abbrev pub bearer : Text → Text
bearer value = if starts_with (codes "Bearer ") value then drop 7 value else value

module _ (hash_jti : Text → Text) where
  -- The check of a session for the id that a token names. No row has a negative id.
  unfoldable pub session_user : Clock → Text → ℤ → Db Tables CommonError ℕ
  session_user now jti (pos id) = do validate_session hash_jti now jti id; pure id
  session_user now jti (negsuc id) = do
    found ←
        query (λ _. authentication_unavailable)
          (λ t. find_first (has_hash (hash_jti jti)) t.sessions)
    row ← require found invalid_credentials
    throw invalid_credentials

  module _ (decode_jwt : Text → Option Claims) where
    unfoldable pub authenticate_token : Clock → Text → Db Tables CommonError AuthUser
    authenticate_token now token = do
      claims ← require (decode_jwt token) invalid_credentials
      sub ← require (parse_i32 claims.sub) invalid_credentials
      acquire (λ _. authentication_unavailable)
      user_id ← session_user now claims.jti sub
      found ← map_err (λ _. authentication_unavailable) (find_user_by_id user_id)
      user ← require found invalid_credentials
      fail_when (not (eq_ℤ user.status (pos 0)) || not (eq_ℤ (pos user.token_version) claims.ver))
          invalid_credentials
      pure (record {
        id = user.id;
        username = user.username;
        authority = user.authority;
        created_at = user.created_at;
        jti = claims.jti;
        must_change_password = not (user.must_change_password == 0);
        token_version = claims.ver;
        expires_at_unix = claims.exp;
      })

    -- `AuthUser::from_request`: the header, whether a pool is registered, and the path
    unfoldable pub auth_user : Clock → Option Text → Bool → Text → Db Tables CommonError AuthUser
    auth_user now header registered path = do
      value ← require header invalid_credentials
      fail_when (not registered) authentication_unavailable
      acquire (λ _. service_unavailable (codes "Authentication service unavailable"))
      user ← authenticate_token now (bearer value)
      fail_when (user.must_change_password && not (path_allows_must_change path))
          (forbidden (codes "Password change required before continuing"))
      pure user

    -- `AdminUser::from_request`
    unfoldable pub admin_user : Clock → Option Text → Bool → Text → Db Tables CommonError AuthUser
    admin_user now header registered path = do
      user ← auth_user now header registered path
      fail_when (not registered) (service_unavailable (codes "Authorization database unavailable"))
      require_perm user.id user_admin
      pure user
