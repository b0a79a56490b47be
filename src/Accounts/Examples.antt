-- ===== src/Accounts/Examples.antt =====
-- Small tables, on which the theorems on accounts are used.
mod SessionExamples
mod TicketExamples
mod LoginExamples
mod SignInExamples
mod AdminExamples
use rust_panel.Prelude.Int.{pos}
use rust_panel.Accounts.Tickets.{StreamIdentity}
use rust_panel.Accounts.Tables.{Session, Tables, User, Clock}
use rust_panel.Accounts.Login.{Outside}
use rust_panel.Accounts.Auth.{Claims}
use rust_panel.Prelude.{
  refl, [], ◌∷◌, none, some, ok, err, Text, ℕ, Option, codes, ◌++◌, if◌then◌else◌, text_eq,
}

-- the hash of a `jti`, here the text itself
abbrev pub hash : Text → Text
hash jti = jti

abbrev pub alice : User
alice = record {
  id = 1;
  username = codes "alice";
  password = codes "open sesame|salt";
  salt = codes "|salt";
  authority = codes "operator";
  error_count = 3;
  status = pos 0;
  created_at = 100;
  updated_at = 100;
  password_algo = codes "sha1";
  must_change_password = 0;
  token_version = 4;
}

abbrev pub alice_session : Session
alice_session = record {
  jti_hash = codes "j1";
  user_id = 1;
  issued_at = 100;
  expires_at = 5000;
  revoked_at = none;
  ua_hash = none;
  ip = none;
}

abbrev pub old_session : Session
old_session = record {
  jti_hash = codes "j0";
  user_id = 1;
  issued_at = 10;
  expires_at = 60;
  revoked_at = some 50;
  ua_hash = none;
  ip = none;
}

abbrev pub tables : Tables
tables = record {
  users = alice ∷ [];
  sessions = old_session ∷ alice_session ∷ [];
  tickets = [];
  roles = record { id = 7; code = codes "admin" } ∷ record { id = 8; code = codes "operator" } ∷ [];
  permissions =
      record { id = 20; code = codes "user:admin" }
      ∷ record { id = 21; code = codes "monitor:read" }
      ∷ [];
  role_permissions = (7, 20) ∷ (7, 21) ∷ (8, 21) ∷ [];
  user_roles = (1, 8) ∷ [];
}

abbrev pub at : ℕ → Clock
at n = record { unix = n; nanos = 0 }

abbrev pub monitoring : StreamIdentity
monitoring = record {
  user_id = 1;
  session_hash = codes "j1";
  token_version = 4;
  access_expires_at_unix = 5000;
}

abbrev pub claims : Claims
claims = record { sub = codes "1"; jti = codes "j1"; iat = 100; exp = 5000; ver = pos 4 }

-- a decoder that knows one token
abbrev pub decode : Text → Option Claims
decode token = if text_eq token (codes "token") then some claims else none

-- a hash that puts the salt behind the password
abbrev pub outside : Outside
outside = record {
  translate = λ key count. key;
  sha1_salt = λ password salt. password ++ salt;
  verify_argon2id = λ hash password. some (text_eq hash password);
}
