-- ===== src/Accounts/Admin/Effects.antt =====
-- What the changes of an account leave.
use rust_panel.Prelude.{inl, inr, any-retain-not, count-positive}
use rust_panel.Prelude.Int.{eq_ℤ, ℤ, pos}
use rust_panel.Accounts.Sessions.Revocation.{IsSignedOut, revoke_all-IsSignedOut}
use rust_panel.Accounts.Users.{has_id}
use rust_panel.Accounts.Tables.{Clock, Tables, User, is_none}
use rust_panel.Accounts.Admin.{
  delete_user, find_user, delete_body, end_sessions, reset_password, update_user, ℕ, Clock, Tables,
  reset_body, update_body, Bool, any, find_first, with_immediate_tx, Option, UpdateUserBody, User,
  has_id, is_none, eq_ℤ, ℤ, pos, not, merge_user,
}
use rust_panel.Prelude.{
  refl, some, true, false, Text, ℕ, Bool, any, find_first, Option, ◌≡◌, ◌==◌, ◌⊎◌, not, arith,
}
use rust_panel.Db.Steps.{
  reading, having, checking, connecting, whatever, keeping, changing, inserting, branching, writing,
}
use rust_panel.Db.Ensures.{
  Ensures, ensures-transaction, ensures-map_err, ensures-imp, ensures-require, ensures-fail_when,
  ensures->>, ensures-any, ensures-pure,
}

-- reading a user changes nothing
find_user-found :
    (id : ℕ) (t : Tables)
    → Ensures (find_user id) t (λ user u. (find_first (has_id id) t.users ≡ some user) × (u ≡ t))
unfolding find_user
find_user-found id t = reading _ _ _ (ensures-require _ _ t _ (λ user found. (found, refl)))

module _ (hash_jti : Text → Text) where
  -- After a reset of a password no session of the user is valid.
  pub reset_password-IsSignedOut :
      (now : Clock) (id : ℕ) (fresh : Option Text) (t : Tables)
      → Ensures (reset_password now id fresh) t (λ _ u. IsSignedOut hash_jti id u)
  unfolding reset_password reset_body with_immediate_tx
  reset_password-IsSignedOut now id fresh t = connecting _ _ (
      keeping _ _ _ (find_user-found id t) λ user found. having _ _ _ λ hash made.
        ensures-map_err _ _ t _ (
          ensures-transaction _ _ t _
            (changing _ _ _ (whatever _ _ λ version u. revoke_all-IsSignedOut hash_jti now id u))))

  end_sessions-IsSignedOut :
      (now : Clock) (id : ℕ) (changed : Bool) (user : User) (t : Tables)
      → (changed ≡ true) ⊎ (eq_ℤ user.status (pos 0) ≡ false)
      → Ensures (end_sessions now id changed user) t (λ _ u. IsSignedOut hash_jti id u)
  unfolding end_sessions
  end_sessions-IsSignedOut now id true user t h =
      whatever _ _ λ version u. revoke_all-IsSignedOut hash_jti now id u
  end_sessions-IsSignedOut now id false user t h =
      branching (not (eq_ℤ user.status (pos 0))) _ _
        (λ disabled. revoke_all-IsSignedOut hash_jti now id t) (λ enabled. absurd (ground arith))

  -- After an update that sets a password, or a status other than 0, no session of the user is valid.
  pub update_user-IsSignedOut :
      (now : Clock) (id : ℕ) (body : UpdateUserBody) (fresh : Option Text) (t : Tables)
      → (is_none body.password ≡ false)
        ⊎ ((z : ℤ) × (body.status ≡ some z) × (eq_ℤ z (pos 0) ≡ false))
      → Ensures (update_user now id body fresh) t (λ _ u. IsSignedOut hash_jti id u)
  unfolding update_user update_body with_immediate_tx
  update_user-IsSignedOut now id body fresh t h = connecting _ _ (
      checking _ _ _ λ allowed. keeping _ _ _ (find_user-found id t) λ before found.
        having _ _ _ λ hash made. ensures-map_err _ _ t _ (
          ensures-transaction _ _ t _ (
            inserting _ _ _ _ λ free. ensures->> _ _ _ _ (
              ensures-any _ _ _ (λ _ u. ensures->> _ _ u _ (
                ensures-imp (λ _ w out. ensures-pure _ w _ out)
                  (end_sessions-IsSignedOut now id (not (is_none body.password))
                    (merge_user body now hash before) u (ended before hash h))))))))
    where
      ended :
          (before : User) (hash : Text)
          → (is_none body.password ≡ false)
            ⊎ ((z : ℤ) × (body.status ≡ some z) × (eq_ℤ z (pos 0) ≡ false))
          → (not (is_none body.password) ≡ true)
            ⊎ (eq_ℤ (merge_user body now hash before).status (pos 0) ≡ false)
      ended before hash (inl given) = inl (ground arith)
      ended before hash (inr (z, set, off)) = inr (ground (arith, set, off))

-- A deleted user leaves no row, session, ticket or role.
pub delete_user-gone :
    (id : ℕ) (t : Tables)
    → Ensures (delete_user id) t (λ _ u.
      (any (has_id id) u.users ≡ false)
      × (any (λ s. s.user_id == id) u.sessions ≡ false)
      × (any (λ k. k.user_id == id) u.tickets ≡ false)
      × (any (λ ur. ur.0 == id) u.user_roles ≡ false)
      × (any (has_id id) t.users ≡ true))
unfolding delete_user delete_body
delete_user-gone id t = connecting _ _ (
    ensures-transaction _ _ t _ (
      changing _ _ _ (
        changing _ _ _ (
          writing _ _ _ (
            ensures-fail_when _ _ _ _ λ some_row. (
              any-retain-not (has_id id) t.users,
              any-retain-not (λ s. s.user_id == id) t.sessions,
              any-retain-not (λ k. k.user_id == id) t.tickets,
              any-retain-not (λ ur. ur.0 == id) t.user_roles,
              ground (arith, count-positive (has_id id) t.users),
            ))))))
