-- ===== src/Accounts/Examples/AdminExamples.antt =====
-- The theorems on changes of accounts at concrete tables.
use rust_panel.Accounts.Passwords.SignedOut.{IsConfirmed, change_password-IsSignedOut}
use rust_panel.Accounts.Login.{check_login}
use rust_panel.Accounts.Admin.Effects.{update_user-IsSignedOut}
use rust_panel.Accounts.Sessions.Revocation.{IsSignedOut}
use rust_panel.Prelude.Int.{negsuc, pos}
use rust_panel.Accounts.Examples.{at, outside, tables, Option, alice, hash, pos, Text}
use rust_panel.Accounts.Admin.Locked.{IsLocked, update_user-IsLocked}
use rust_panel.Accounts.Tables.{Tables}
use rust_panel.Accounts.Passwords.{change_password}
use rust_panel.Accounts.Auth.{AuthUser}
use rust_panel.Accounts.Admin.{UpdateUserBody, update_user}
use rust_panel.Prelude.{
  refl, [], ◌∷◌, none, some, false, inr, text_eq, codes, Option, Text, ◌≤◌, byte_len,
}
use rust_panel.Db.Ensures.{Ensures}

-- `alice` as a request of hers is resolved
abbrev alice_user : AuthUser
alice_user = record {
  id = 1;
  username = codes "alice";
  authority = codes "operator";
  created_at = 100;
  jti = codes "j1";
  must_change_password = false;
  token_version = pos 4;
  expires_at_unix = 5000;
}

change_password-IsSignedOut_example :
    Ensures
      (change_password outside hash
        (at 201)
        alice_user
        (codes "open sesame")
        (codes "long enough")
        (some (codes "fresh")))
      tables
      (λ _ u.
        (8 ≤ byte_len (codes "long enough"))
        × IsConfirmed outside hash (at 201) alice_user (codes "open sesame") tables
        × IsSignedOut hash 1 u)
change_password-IsSignedOut_example =
    change_password-IsSignedOut outside hash (at 201) alice_user (codes "open sesame")
      (codes "long enough") (some (codes "fresh")) tables

-- the form that disables an account
abbrev disable : UpdateUserBody
disable = record { username = none; password = none; authority = none; status = some (negsuc 0) }

update_user-IsSignedOut_example :
    Ensures (update_user (at 201) 1 disable none) tables (λ _ u. IsSignedOut hash 1 u)
update_user-IsSignedOut_example =
    update_user-IsSignedOut hash (at 201) 1 disable none tables (inr (negsuc 0, refl, refl))

-- `alice` locked out, and the form that is meant to let her in again
abbrev locked : Tables
locked = record tables { users = record alice { error_count = 5; status = negsuc 0 } ∷ [] }

abbrev enable : UpdateUserBody
enable = record {
  username = none;
  password = some (codes "new password");
  authority = none;
  status = some (pos 0);
}

locked_out : IsLocked (codes "alice") 1 locked
unfolding text_eq
locked_out = refl

update_user-IsLocked_example :
    Ensures (update_user (at 201) 1 enable (some (codes "fresh"))) locked (λ _ u.
      (new_hash : Option Text) (password : Text)
      → Ensures (check_login outside new_hash (codes "alice") password) u (λ _ _. ⊥))
update_user-IsLocked_example =
    update_user-IsLocked outside (at 201) (codes "alice") 1 enable (some (codes "fresh")) locked
      locked_out
