-- ===== src/Accounts/Admin.antt =====
-- src/api/v1/admin.rs: the accounts, as an administrator changes them. A random password, its hash and the id
-- that the database gives a new row are arguments.
pub mod Effects
pub mod Locked
use rust_panel.Accounts.Passwords.{set_password}
use rust_panel.Accounts.Rbac.{assign_role_for_authority}
use rust_panel.Accounts.Users.{has_id}
use rust_panel.Accounts.Tickets.{transaction_failed}
use rust_panel.Accounts.Sessions.{bump_token_version, revoke_all_for_user}
use rust_panel.Prelude.Map.{or_else}
use rust_panel.Prelude.{map, ◌&&◌, ◌==◌, count}
use rust_panel.Accounts.Login.{algo_argon2id}
use rust_panel.Prelude.Int.{pos, ℤ, eq_ℤ}
use rust_panel.Errors.{CommonError, bad_request, internal}
use rust_panel.Accounts.Tables.{Clock, User, Tables, is_none, change}
use rust_panel.Prelude.{
  [], ◌∷◌, none, some, true, Option, Text, ℕ, Bool, not, if◌then◌else◌, one_of, any, codes,
  find_first, starts_with, ◌++◌, map, retain, text_eq,
}
use rust_panel.Db.{
  ◌>>=◌, ◌>>◌, Db, acquire, constrained, fail_when, map_err, query, require, transaction, update,
  pure,
}

-- the answers that are no success
pub data AdminError : Type 0 where
  no_database invalid_authority user_not_found hash_failed : AdminError
  -- an error of the driver, outside and inside `with_immediate_tx`
  driver : Text → AdminError
  transaction_error : Text → AdminError
  creation : CommonError → AdminError

pub record UpdateUserBody : Type 0 where
  pub username : Option Text
  pub password : Option Text
  pub authority : Option Text
  pub status : Option ℤ

unfoldable pub validate_authority : Text → Bool
validate_authority = one_of (codes "admin" ∷ codes "operator" ∷ codes "viewer" ∷ codes "user" ∷ [])

-- `with_immediate_tx`, with the answer to its error
unfoldable pub with_immediate_tx : {A : Type 0} → Db Tables Text A → Db Tables AdminError A
with_immediate_tx body =
    map_err transaction_error (transaction (λ m. codes "User transaction failed: " ++ m) body)

abbrev pub get_pool : Db Tables AdminError (Unit {0})
get_pool = acquire (λ _. no_database)

-- `username` is UNIQUE
abbrev pub name_taken : Text → ℕ → Tables → Option Text
name_taken name id t =
    if any (λ u. text_eq u.username name && not (u.id == id)) t.users
    then some (codes "UNIQUE constraint failed: rp_users.username")
    else none

unfoldable pub find_user : ℕ → Db Tables AdminError User
find_user id = do
  found ← query driver (λ t. find_first (has_id id) t.users)
  require found user_not_found

-- how a failed insertion comes out of `?`
abbrev pub insertion_error : Text → CommonError
insertion_error m =
    if starts_with (codes "UNIQUE constraint failed") m then bad_request m else internal m

abbrev pub new_user : ℕ → Clock → Text → Text → Text → User
new_user id now username hash authority = record {
  id = id;
  username = username;
  password = hash;
  salt = [];
  authority = authority;
  error_count = 0;
  status = pos 0;
  created_at = now.unix;
  updated_at = now.unix;
  password_algo = algo_argon2id;
  must_change_password = 1;
  token_version = 0;
}

unfoldable pub create_body : ℕ → Clock → Text → Text → Text → Db Tables CommonError User
create_body id now username hash authority = do
  constrained insertion_error (name_taken username id)
      (λ t. (tt, record t { users = t.users ++ new_user id now username hash authority ∷ [] }))
  found ← query internal (λ t. find_first (λ u. text_eq u.username username) t.users)
  user ← require found (internal (codes "Record not found"))
  map_err internal (assign_role_for_authority user.id user.authority)
  pure user

-- `create_user`, with the authority of the form
unfoldable pub create_user :
    ℕ → Clock → Text → Option Text → Option Text → Db Tables AdminError User
create_user id now username authority fresh = do
  get_pool
  let given = or_else authority (codes "user")
  fail_when (not (validate_authority given)) invalid_authority
  hash ← require fresh hash_failed
  map_err creation (transaction transaction_failed (create_body id now username hash given))

-- the row of `update_user` with the changes of the form merged in
abbrev pub merge_user : UpdateUserBody → Clock → Text → User → User
merge_user body now hash u =
    let changed = not (is_none body.password) in
    record u {
      username = or_else body.username u.username;
      password = if changed then hash else u.password;
      salt = if changed then [] else u.salt;
      password_algo = if changed then algo_argon2id else u.password_algo;
      authority = or_else body.authority u.authority;
      status = or_else body.status u.status;
      updated_at = now.unix;
      must_change_password = if changed then 0 else u.must_change_password;
    }

-- the columns that the `UPDATE` sets
abbrev pub set_columns : User → User → User
set_columns user u = record u {
  username = user.username;
  password = user.password;
  salt = user.salt;
  authority = user.authority;
  status = user.status;
  updated_at = user.updated_at;
  password_algo = user.password_algo;
  must_change_password = user.must_change_password;
}

-- the sessions that an update ends: all on a change of password or a disabled account
unfoldable pub end_sessions : Clock → ℕ → Bool → User → Db Tables Text (Unit {0})
end_sessions now id changed user =
    if changed
    then (do version ← bump_token_version id; revoke_all_for_user now id)
    else if not (eq_ℤ user.status (pos 0))
    then revoke_all_for_user now id
    else pure tt

unfoldable pub update_body : Clock → ℕ → Bool → User → Db Tables Text User
update_body now id changed user = do
  constrained (λ m. codes "Failed to update user: " ++ m) (name_taken user.username id)
      (λ t. (tt, record t { users = map (change (has_id id) (set_columns user)) t.users }))
  assign_role_for_authority id user.authority
  end_sessions now id changed user
  pure user

abbrev pub authority_allowed : Option Text → Bool
authority_allowed none = true
authority_allowed (some a) = validate_authority a

-- the hash of a new password, where the form has one
abbrev pub hash_for : Option Text → Option Text → Option Text
hash_for none fresh = some []
hash_for (some p) fresh = fresh

unfoldable pub update_user : Clock → ℕ → UpdateUserBody → Option Text → Db Tables AdminError User
update_user now id body fresh = do
  get_pool
  fail_when (not (authority_allowed body.authority)) invalid_authority
  before ← find_user id
  hash ← require (hash_for body.password fresh) hash_failed
  with_immediate_tx
      (update_body now id (not (is_none body.password)) (merge_user body now hash before))

unfoldable pub delete_body : ℕ → Db Tables AdminError (Unit {0})
delete_body id = do
  update (λ m. transaction_error (codes "Failed to remove sessions: " ++ m))
      (λ t. (tt, record t { sessions = retain (λ s. not (s.user_id == id)) t.sessions }))
  update (λ m. transaction_error (codes "Failed to remove role rows: " ++ m))
      (λ t. (tt, record t { user_roles = retain (λ ur. not (ur.0 == id)) t.user_roles }))
  deleted ←
      update (λ m. transaction_error (codes "Failed to delete user: " ++ m))
        (λ t. (
          count (has_id id) t.users,
          record t {
            users = retain (λ u. not (u.id == id)) t.users;
            tickets = retain (λ k. not (k.user_id == id)) t.tickets;
          },
        ))
  fail_when (deleted == 0) user_not_found

-- `delete_user`; the tickets of the user go by ON DELETE CASCADE
unfoldable pub delete_user : ℕ → Db Tables AdminError (Unit {0})
delete_user id = do
  get_pool
  transaction (λ m. transaction_error (codes "User transaction failed: " ++ m)) (delete_body id)

unfoldable pub reset_body : Clock → ℕ → Text → Db Tables Text (Unit {0})
reset_body now id hash = do
  update (λ m. codes "Failed to reset password: " ++ m)
      (λ t. (
        tt,
        record t {
          users =
              map
                (change (has_id id) (λ u. record (set_password hash 1 u) { updated_at = now.unix }))
                t.users;
        },
      ))
  version ← bump_token_version id
  revoke_all_for_user now id

-- `reset_password`, with the hash of the random password
unfoldable pub reset_password : Clock → ℕ → Option Text → Db Tables AdminError (Unit {0})
reset_password now id fresh = do
  get_pool
  before ← find_user id
  hash ← require fresh hash_failed
  with_immediate_tx (reset_body now id hash)
