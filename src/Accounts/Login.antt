-- ===== src/Accounts/Login.antt =====
-- src/api/v1/login.rs and src/service/password.rs: the check of a name and a password, and the session that
-- it opens. The hashes (SHA-1 with a salt, Argon2id) and the translated messages are parameters; a fresh
-- Argon2id hash, or the failure to make one, is an argument.
pub mod Password
pub mod Lockout
use rust_panel.Accounts.Users.{find_user_update_error_count, has_id}
use rust_panel.Prelude.Int.{ℤ, pos, negsuc, eq_ℤ}
use rust_panel.Errors.{CommonError, bad_request, internal, invalid_credentials}
use rust_panel.Accounts.Tables.{User, Tables, change}
use rust_panel.Prelude.{
  [], none, some, true, false, Option, Text, ℕ, Bool, codes, if◌then◌else◌, text_eq, ◌-◌, ◌||◌,
  is_empty, map, ◌+◌, find_last, not, leb,
}
use mathlib.Core.Option
use rust_panel.Db.{◌>>=◌, ◌>>◌, Db, acquire, require, update, query, throw, fail_when, pure}

abbrev pub algo_argon2id : Text
algo_argon2id = codes "argon2id"

abbrev pub algo_sha1 : Text
algo_sha1 = codes "sha1"

abbrev pub has_name : Text → User → Bool
has_name name u = text_eq u.username name

-- how an error of the driver comes out of `?`
abbrev pub driver_error : Text → CommonError
driver_error m = internal m

abbrev pub no_connection : Text → CommonError
no_connection _ = internal (codes "Failed to get a connection from the pool")

abbrev pub username_error : Text
username_error = codes "auth.login.username_error"

abbrev pub username_band : Text
username_band = codes "auth.login.username_band"

abbrev pub password_error : Text
password_error = codes "auth.login.password_error"

-- The messages of rust_i18n (with a count, where they have one), and the hashes.
pub record Outside : Type 0 where
  pub translate : Text → Option ℤ → Text
  -- password, salt
  pub sha1_salt : Text → Text → Text
  -- stored hash, password; none when the stored hash does not parse
  pub verify_argon2id : Text → Text → Option Bool

-- 5 - (n + 1), for a count below 5
abbrev pub attempts_left : ℕ → ℤ
attempts_left n = pos (5 - (n + 1))

module _ (o : Outside) where
  unfoldable pub verify_sha1 : Text → Text → Text → Bool
  verify_sha1 hash salt password = text_eq hash (o.sha1_salt password salt)

  -- whether the password matches, and whether to hash it anew
  unfoldable pub verify_stored : Text → Text → Text → Text → Option (Bool × Bool)
  verify_stored hash salt algo password =
      if text_eq algo algo_argon2id
      then Option.map (λ m. (m, false)) (o.verify_argon2id hash password)
      else if text_eq algo algo_sha1 || is_empty algo
      then some (verify_sha1 hash salt password, true)
      else none

  -- the rewriting of a legacy hash
  unfoldable pub upgrade : Option Text → User → Bool → Db Tables CommonError User
  upgrade fresh user should_rehash =
      if should_rehash
      then (do
        new_hash ← require fresh (internal (codes "Failed to upgrade password hash"))
        update driver_error (λ t. (
          tt,
          record t {
            users =
                map
                  (change (has_id user.id) (λ u. record u {
                    password = new_hash;
                    salt = [];
                    password_algo = algo_argon2id;
                  }))
                  t.users;
          },
        ))
        pure (record user { password = new_hash; salt = []; password_algo = algo_argon2id }))
      else pure user

  unfoldable pub ban : User → Db Tables CommonError User
  ban user = do
    update driver_error (λ t. (
      tt,
      record t {
        users = map (change (has_id user.id) (λ u. record u { status = negsuc 0 })) t.users;
      },
    ))
    throw (bad_request (o.translate username_band none))

  -- a wrong password, for a count below 5
  abbrev pub wrong_password : User → CommonError
  wrong_password user =
      bad_request (o.translate password_error (some (attempts_left user.error_count)))

  unfoldable pub attempt : Option Text → User → Text → Db Tables CommonError User
  attempt fresh user password = do
    verdict ←
        require (verify_stored user.password user.salt user.password_algo password)
          (wrong_password user)
    if verdict.0
        then (do reset ← find_user_update_error_count user.id 0; upgrade fresh user verdict.1)
        else (do
          counted ← find_user_update_error_count user.id (user.error_count + 1)
          throw (wrong_password user))

  -- `query`
  unfoldable pub check_login : Option Text → Text → Text → Db Tables CommonError User
  check_login fresh name password = do
    acquire no_connection
    found ← query driver_error (λ t. find_last (has_name name) t.users)
    user ← require found (bad_request (o.translate username_error none))
    fail_when (not (eq_ℤ user.status (pos 0))) invalid_credentials
    if leb 5 user.error_count then ban user else attempt fresh user password
