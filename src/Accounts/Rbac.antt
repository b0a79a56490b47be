-- ===== src/Accounts/Rbac.antt =====
-- src/service/rbac.rs: permissions resolved from the role rows on every request.
pub mod Granted
use rust_panel.Prelude.{
  Text, ℕ, List, if◌then◌else◌, sum_over, Bool, codes, count, text_eq, retain, ◌++◌, ◌==◌, not,
  ◌&&◌, ltb, map,
}
use rust_panel.Errors.{CommonError, service_unavailable, forbidden}
use rust_panel.Accounts.Tables.{Tables, Coded}
use rust_panel.Accounts.Users.{has_id}
use rust_panel.Prelude.{none, some, Option, any, is_empty, ◌||◌}
use rust_panel.Db.{constrained, ◌>>=◌, ◌>>◌, Db, acquire, update, fail_when, query, pure}

abbrev pub authorization_unavailable : CommonError
authorization_unavailable = service_unavailable (codes "Authorization database unavailable")

-- the conditions of the join of `user_roles`, `role_permissions` and `permissions`
abbrev pub joins : ℕ → Text → ℕ × ℕ → ℕ × ℕ → Coded → Bool
joins user_id permission ur rp p =
    ur.0 == user_id && rp.0 == ur.1 && p.id == rp.1 && text_eq p.code permission

abbrev pub join_count : Tables → ℕ → Text → ℕ
join_count t user_id permission =
    sum_over t.user_roles
      λ ur. sum_over t.role_permissions λ rp. count (joins user_id permission ur rp) t.permissions

unfoldable pub user_has_permission : ℕ → Text → Db Tables CommonError Bool
user_has_permission user_id permission = do
  n ← query (λ _. authorization_unavailable) (λ t. join_count t user_id permission)
  pure (ltb 0 n)

unfoldable pub require_perm : ℕ → Text → Db Tables CommonError (Unit {0})
require_perm user_id permission = do
  acquire (λ _. authorization_unavailable)
  held ← user_has_permission user_id permission
  fail_when (not held) (forbidden (codes "Missing permission: " ++ permission))

-- the built-in role of a legacy authority
unfoldable pub role_for_authority : Text → Text
role_for_authority authority =
    if text_eq authority (codes "admin")
    then codes "admin"
    else if text_eq authority (codes "operator")
    then codes "operator"
    else codes "viewer"

abbrev pub roles_coded : Text → List Coded → List Coded
roles_coded code = retain (λ r. text_eq r.code code)

-- `user_id` references a user, where a row is inserted
abbrev pub role_constraint : ℕ → Text → Tables → Option Text
role_constraint user_id role_code t =
    if is_empty (roles_coded role_code t.roles) || any (has_id user_id) t.users
    then none
    else some (codes "FOREIGN KEY constraint failed")

unfoldable pub assign_role_for_authority : ℕ → Text → Db Tables Text (Unit {0})
assign_role_for_authority user_id authority = do
  let role_code = role_for_authority authority
  update (λ m. codes "Failed to clear user_roles: " ++ m)
      (λ t. (tt, record t { user_roles = retain (λ ur. not (ur.0 == user_id)) t.user_roles }))
  constrained (λ m. codes "Failed to assign role " ++ role_code ++ codes ": " ++ m)
      (role_constraint user_id role_code)
      (λ t. (
        tt,
        record t {
          user_roles =
              t.user_roles ++ map (λ (r : Coded). (user_id, r.id)) (roles_coded role_code t.roles);
        },
      ))
