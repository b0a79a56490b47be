-- ===== src/Accounts/Passwords/SignedOut.antt =====
-- A change of password ends all sessions.
use rust_panel.Prelude.Int.{pos, eq_ℤ_iff}
use rust_panel.Accounts.Sessions.Revocation.{
  validate_session-IsValid, IsValid, IsSignedOut, revoke_all-IsSignedOut,
}
use rust_panel.Accounts.Users.{has_id}
use rust_panel.Accounts.Auth.{AuthUser}
use rust_panel.Accounts.Tables.{Clock, Tables, User}
use rust_panel.Accounts.Passwords.{
  change_password, AuthUser, Tables, change_body, Option, User, find_first, byte_len, has_id, pos,
}
use rust_panel.Accounts.Login.{Outside, verify_stored}
use rust_panel.Prelude.{some, true, Text, Option, find_first, ◌≤◌, byte_len, ◌≡◌, arith, Bool, sym}
use rust_panel.Db.Steps.{reading, having, checking, connecting, whatever, guarding, changing}
use rust_panel.Db.Ensures.{Ensures, ensures-transaction, ensures-map_err, ensures-imp}

module _ (o : Outside) (hash_jti : Text → Text) where
  -- what a change of password asks for
  pub record IsConfirmed (now : Clock) (user : AuthUser) (current : Text) (t : Tables)
      : Type 0 where
    pub row : User
    pub found : find_first (has_id user.id) t.users ≡ some row
    pub enabled : row.status ≡ pos 0
    pub version : user.token_version ≡ pos row.token_version
    pub session : IsValid hash_jti t now user.jti user.id
    pub rehash : Bool
    pub matches :
        verify_stored o row.password row.salt row.password_algo current ≡ some (true, rehash)

  -- A password is changed only to one of at least eight bytes, for an enabled user with a valid session of the
  -- current token version who gives the old password; and then no session of the user is valid any more.
  pub change_password-IsSignedOut :
      (now : Clock) (user : AuthUser) (current new_password : Text) (fresh : Option Text)
      (t : Tables)
      → Ensures (change_password o hash_jti now user current new_password fresh) t (λ _ u.
        (8 ≤ byte_len new_password)
        × IsConfirmed now user current t
        × IsSignedOut hash_jti user.id u)
  unfolding change_password change_body
  change_password-IsSignedOut now user current new_password fresh t = checking _ _ _ λ long.
      connecting _ _ (
        ensures-transaction _ _ t _ (
          reading _ _ _ (
            having _ _ _ λ row found. checking _ _ _ λ met.
              guarding _ _ _ (validate_session-IsValid hash_jti now user.jti user.id t) λ valid.
                having _ _ _ λ verdict matches. checking _ _ _ λ right. having _ _ _ λ hash made.
                  changing _ _ _ (
                    whatever _ _ λ version u.
                      ensures-imp
                        (λ _ w out. (
                          ground arith,
                          record {
                            row = row;
                            found = found;
                            enabled = (eq_ℤ_iff row.status (pos 0)).0 (ground arith);
                            version = sym (
                                (eq_ℤ_iff (pos row.token_version) user.token_version).0
                                  (ground arith));
                            session = valid;
                            rehash = verdict.1;
                            matches = ground arith;
                          },
                          out,
                        ))
                        (ensures-map_err _ _ u _
                          (revoke_all-IsSignedOut hash_jti now user.id u))))))
