-- ===== src/Accounts/Rbac/Granted.antt =====
-- When a permission is granted, and what a change of authority does to the grants.
use rust_panel.Prelude.{
  inl, inr, count, retain, not, map, sum_over, any-append, Bool-cases, any-retain, any-eq-false,
  any-map,
}
use rust_panel.Errors.{forbidden}
use rust_panel.Prelude.{refl, ok, err, true, any-and, if◌then◌else◌, sym, codes, ◌++◌}
use rust_panel.Accounts.Rbac.{
  join_count, text_eq, assign_role_for_authority, require_perm, user_has_permission, acquire,
  roles_coded, query, role_for_authority, fail_when, forbidden, codes, Coded, count, retain, joins,
  not, map, sum_over,
}
use rust_panel.Accounts.Tables.{Tables, Coded}
use rust_panel.Prelude.{
  Bool, List, Text, ℕ, any, ltb, ◌&&◌, ◌==◌, text_eq, ◌≡◌, arith, sum_over-positive, ◌∙◌, any-ext,
  count-positive,
}
use rust_panel.Db.Steps.{changing, reading, connecting}
use rust_panel.Db.Ensures.{
  Ensures, ensures-constrained, ensures->>=, ensures-pure, ensures-fail_when,
}
use rust_panel.Db.{◌>>=◌, ◌>>◌, acquire, query, fail_when, quiet}

-- A user has a role that has a permission of the code.
abbrev pub role_grants : Tables → Text → ℕ → Bool
role_grants t permission role =
    any (λ rp. rp.0 == role && any (λ p. p.id == rp.1 && text_eq p.code permission) t.permissions)
      t.role_permissions

abbrev pub is_granted : Tables → ℕ → Text → Bool
is_granted t user_id permission =
    any (λ ur. ur.0 == user_id && role_grants t permission ur.1) t.user_roles

-- The join that is counted has a row where the grant exists.
pub join_count-is_granted :
    (t : Tables) (user_id : ℕ) (permission : Text)
    → ltb 0 (join_count t user_id permission) ≡ is_granted t user_id permission
join_count-is_granted t user_id permission =
    sum_over-positive t.user_roles
      (λ ur. sum_over t.role_permissions λ rp. count (joins user_id permission ur rp) t.permissions)
    ∙ any-ext _ (λ ur. ur.0 == user_id && role_grants t permission ur.1) t.user_roles role_rows
  where
    holds : ℕ × ℕ → Coded → Bool
    holds rp p = p.id == rp.1 && text_eq p.code permission

    permission_rows :
        (ur rp : ℕ × ℕ)
        → ltb 0 (count (joins user_id permission ur rp) t.permissions)
          ≡ ((ur.0 == user_id) && ((rp.0 == ur.1) && any (holds rp) t.permissions))
    permission_rows ur rp =
        count-positive (joins user_id permission ur rp) t.permissions
        ∙ any-ext (joins user_id permission ur rp)
            (λ p. (ur.0 == user_id && rp.0 == ur.1) && holds rp p) t.permissions (λ p. ground arith)
        ∙ any-and (ur.0 == user_id && rp.0 == ur.1) (holds rp) t.permissions
        ∙ ground arith

    role_rows :
        (ur : ℕ × ℕ)
        → ltb 0
            (sum_over t.role_permissions λ rp. count (joins user_id permission ur rp) t.permissions)
          ≡ ((ur.0 == user_id) && role_grants t permission ur.1)
    role_rows ur =
        sum_over-positive t.role_permissions
          (λ rp. count (joins user_id permission ur rp) t.permissions)
        ∙ any-ext _ (λ rp. (ur.0 == user_id) && ((rp.0 == ur.1) && any (holds rp) t.permissions))
            t.role_permissions (permission_rows ur)
        ∙ any-and (ur.0 == user_id) (λ rp. (rp.0 == ur.1) && any (holds rp) t.permissions)
            t.role_permissions

-- A permission check that answers grants exactly what the roles grant.
pub require_perm-eq :
    (t : Tables) (user_id : ℕ) (permission : Text)
    → require_perm user_id permission (quiet t) ≡ (
      if is_granted t user_id permission
          then ok tt
          else err (forbidden (codes "Missing permission: " ++ permission)),
      quiet t,
    )
unfolding require_perm user_has_permission acquire query fail_when ◌>>=◌ ◌>>◌
require_perm-eq t user_id permission = ground (arith, join_count-is_granted t user_id permission)

-- Whatever statements fail, a permission check passes only where the roles grant it, and changes nothing.
pub require_perm-is_granted :
    (t : Tables) (user_id : ℕ) (permission : Text)
    → Ensures
        (require_perm user_id permission)
        t
        (λ _ u. (is_granted t user_id permission ≡ true) × (u ≡ t))
unfolding require_perm user_has_permission
require_perm-is_granted t user_id permission = connecting _ _ (
    ensures->>= _ _ t _ (
      reading _ _ _ (
        ensures-pure _ t _ (
          ensures-fail_when _ _ t _
            λ held. (sym (join_count-is_granted t user_id permission) ∙ ground arith, refl)))))

-- The grants after the rows of a user are replaced by rows for some roles.
replaced_roles :
    (t : Tables) (user_id other : ℕ) (permission : Text) (rs : List Coded)
    → is_granted
        (record t {
          user_roles =
              retain (λ ur. not (ur.0 == user_id)) t.user_roles
              ++ map (λ (r : Coded). (user_id, r.id)) rs;
        })
        other
        permission
      ≡ (if other == user_id
          then any (λ r. role_grants t permission r.id) rs
          else is_granted t other permission)
replaced_roles t user_id other permission rs =
    any-append g (retain kept t.user_roles) (map (λ (r : Coded). (user_id, r.id)) rs)
    ∙ elim (Bool-cases (other == user_id)) [
      | inl same ↦ ground (
        arith,
        any-retain g kept t.user_roles,
        any-eq-false (λ ur. kept ur && g ur) t.user_roles (λ ur. ground arith),
        any-map g (λ (r : Coded). (user_id, r.id)) rs,
        any-and (user_id == other) (λ r. role_grants t permission r.id) rs,
      )
      | inr apart ↦ ground (
        arith,
        any-retain g kept t.user_roles,
        any-ext (λ ur. kept ur && g ur) g t.user_roles (λ ur. ground arith),
        any-map g (λ (r : Coded). (user_id, r.id)) rs,
        any-and (user_id == other) (λ r. role_grants t permission r.id) rs,
      )
    ]
  where
    g : ℕ × ℕ → Bool
    g ur = ur.0 == other && role_grants t permission ur.1

    kept : ℕ × ℕ → Bool
    kept ur = not (ur.0 == user_id)

-- Once a user is given an authority, the user holds the permissions of the authority's role and no other, and
-- the grants of all other users are as before.
pub assign_role-is_granted :
    (user_id : ℕ) (authority : Text) (t : Tables)
    → Ensures (assign_role_for_authority user_id authority) t (λ _ u.
      (other : ℕ) (permission : Text)
      → is_granted u other permission ≡ (
          if other == user_id
          then any
              (λ r. role_grants t permission r.id)
              (roles_coded (role_for_authority authority) t.roles)
          else is_granted t other permission))
unfolding assign_role_for_authority
assign_role-is_granted user_id authority t = changing _ _ _ (
    ensures-constrained _ _ _ _ _ λ known other permission.
      replaced_roles t user_id other permission
        (roles_coded (role_for_authority authority) t.roles))
