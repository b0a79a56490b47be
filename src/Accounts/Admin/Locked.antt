-- ===== src/Accounts/Admin/Locked.antt =====
-- No update of an account resets its count of failures.
use rust_panel.Db.Ensures.{ensures-constrained}
use rust_panel.Accounts.Users.{has_id}
use rust_panel.Prelude.Int.{eq_ℤ, pos}
use rust_panel.Accounts.Tables.{Clock, Tables, User, change, is_none}
use rust_panel.Accounts.Sessions.{bump_token_version, revoke_all_for_user}
use rust_panel.Accounts.Rbac.{assign_role_for_authority}
use rust_panel.Accounts.Login.{check_login, ban, Outside, attempt, has_name}
use rust_panel.Accounts.Admin.{
  end_sessions, update_user, update_body, ℕ, Clock, Tables, User, with_immediate_tx, Bool, Option,
  find_user, UpdateUserBody, not, change, eq_ℤ, has_id, pos, is_none, merge_user, set_columns,
}
use rust_panel.Prelude.{
  refl, true, false, Text, ℕ, Bool, Option, all, ◌≡◌, all-map_of_imp, leb, not, ◌||◌, arith, ◌+◌,
  ◌==◌, find_last-all, ◌&&◌, find_last-some, subst, sym,
}
use rust_panel.Db.Steps.{reading, having, checking, connecting, changing, inserting, branching}
use rust_panel.Db.Ensures.{
  Ensures, ensures-transaction, ensures-map_err, ensures-imp, ensures-pure, ensures-update,
  ensures->>=, ensures-require, ensures->>, ensures-throw,
}

-- The account with an id is the only one of a name, and has five failures.
abbrev pub is_full : Text → ℕ → User → Bool
is_full name id u =
    (not (has_name name u) || u.id == id) && (not (u.id == id) || leb 5 u.error_count)

abbrev pub IsLocked : Text → ℕ → Tables → Type 0
IsLocked name id t = all (is_full name id) t.users ≡ true

full-refused :
    (o : Outside) (fresh : Option Text) (name password : Text) (id : ℕ) (t : Tables)
    → IsLocked name id t
    → Ensures (check_login o fresh name password) t (λ _ _. ⊥)
unfolding check_login ban
full-refused o fresh name password id t full = connecting _ _ (
    reading _ _ _ (
      having _ _ _ λ v it. checking _ _ _ λ enabled.
        branching (leb 5 v.error_count) (ban o v) (attempt o fresh v password)
          (λ many. changing _ _ _ (ensures-throw _ _ _))
          (λ few. absurd (
            ground (
              arith,
              find_last-all (has_name name) (is_full name id) t.users full it,
              find_last-some (has_name name) t.users it,
            )))))

assign_role-users :
    (user_id : ℕ) (authority : Text) (t : Tables)
    → Ensures (assign_role_for_authority user_id authority) t (λ _ u. u.users ≡ t.users)
unfolding assign_role_for_authority
assign_role-users user_id authority t = changing _ _ _ (ensures-constrained _ _ _ _ _ λ known. refl)

bump-IsLocked :
    (name : Text) (id i : ℕ) (t : Tables)
    → IsLocked name id t
    → Ensures (bump_token_version i) t (λ _ u. IsLocked name id u)
unfolding bump_token_version
bump-IsLocked name id i t full = changing _ _ _ (
    reading _ _ _ (
      having _ _ _ λ u found. ensures-pure _ _ _ (
        all-map_of_imp (is_full name id)
          (change (has_id i) (λ u. record u { token_version = u.token_version + 1 })) t.users
          (λ u h. ground arith) full)))

revoke-IsLocked :
    (name : Text) (id i : ℕ) (now : Clock) (t : Tables)
    → IsLocked name id t
    → Ensures (revoke_all_for_user now i) t (λ _ u. IsLocked name id u)
unfolding revoke_all_for_user
revoke-IsLocked name id i now t full = ensures-update _ _ t _ full

end_sessions-IsLocked :
    (name : Text) (id i : ℕ) (now : Clock) (changed : Bool) (user : User) (t : Tables)
    → IsLocked name id t
    → Ensures (end_sessions now i changed user) t (λ _ u. IsLocked name id u)
unfolding end_sessions
end_sessions-IsLocked name id i now true user t full = ensures->>= _ _ t _ (
    ensures-imp (λ v u kept. revoke-IsLocked name id i now u kept) (bump-IsLocked name id i t full))
end_sessions-IsLocked name id i now false user t full =
    branching (not (eq_ℤ user.status (pos 0))) _ _
      (λ disabled. revoke-IsLocked name id i now t full) (λ enabled. ensures-pure _ t _ full)

-- An account that five failures lock stays locked whatever an administrator's update sets, its status and its
-- password included: no password is accepted for its name afterwards.
pub update_user-IsLocked :
    (o : Outside) (now : Clock) (name : Text) (id : ℕ) (body : UpdateUserBody) (fresh : Option Text)
    (t : Tables)
    → IsLocked name id t
    → Ensures (update_user now id body fresh) t (λ _ u.
      (new_hash : Option Text) (password : Text)
      → Ensures (check_login o new_hash name password) u (λ _ _. ⊥))
unfolding update_user update_body with_immediate_tx find_user
update_user-IsLocked o now name id body fresh t full = connecting _ _ (
    checking _ _ _ λ allowed. ensures->>= _ _ t _ (
      reading _ _ _ (
        ensures-require _ _ t _ (λ before found. having _ _ _ λ hash made. ensures-map_err _ _ t _ (
          ensures-transaction _ _ t _ (
            inserting _ _ _ _ λ free. ensures->> _ _ _ _ (
              ensures-imp
                (λ _ u same. ensures->> _ _ u _ (
                  ensures-imp
                    (λ _ w locked.
                      ensures-pure _ w _
                        (λ new_hash password. full-refused o new_hash name password id w locked))
                    (end_sessions-IsLocked name id id now (not (is_none body.password))
                      (merge_user body now hash before) u
                      (subst (λ us. all (is_full name id) us ≡ true) (sym same)
                        (all-map_of_imp (is_full name id)
                          (change (has_id id) (set_columns (merge_user body now hash before)))
                          t.users (λ u h. ground arith) full)))))
                (assign_role-users id (merge_user body now hash before).authority _))))))))
