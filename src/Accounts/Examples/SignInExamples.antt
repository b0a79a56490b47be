-- ===== src/Accounts/Examples/SignInExamples.antt =====
-- The theorems on the login page at concrete requests.
use rust_panel.Db.{update}
use rust_panel.Accounts.SignIn.{admit, conclude}
use rust_panel.RateLimit.{check}
use rust_panel.Prelude.Map.{lookup, modify}
use rust_panel.Accounts.Users.{find_user_update_error_count}
use rust_panel.Accounts.Login.{attempt, verify_stored, verify_sha1, upgrade}
use rust_panel.Prelude.{find_last, ◌≤◌}
use rust_panel.Db.{acquire, query, require, fail_when}
use rust_panel.Accounts.Auth.{Claims, AuthUser, authenticate_token}
use rust_panel.Accounts.Users.{has_id}
use rust_panel.Accounts.SignIn.Opened.{login_claims, issue_session_token-authenticate}
use rust_panel.Accounts.Sessions.{session_constraint}
use rust_panel.Accounts.Examples.{alice, outside, tables, Claims, at, decode, hash}
use rust_panel.RateLimit.Blocking.{account_failures}
use rust_panel.RateLimit.{LoginRateLimiter, empty_limiter, is_fresh}
use rust_panel.Errors.{CommonError, bad_request}
use rust_panel.Accounts.Tables.{Tables, User}
use rust_panel.Accounts.SignIn.{Request, Setting, sign, issue_session_token, failed, view}
use rust_panel.Accounts.Login.{check_login}
use rust_panel.Prelude.{
  refl, [], ◌∷◌, none, some, ok, true, Text, find_first, text_eq, Option, codes, count, ◌≡◌,
  if◌then◌else◌, arith,
}
use rust_panel.Db.{quiet}
use rust_panel.Db.{◌>>=◌, ◌>>◌}

-- a form that is sent as it is, and a token for the session of version 4 that is opened at 200
abbrev setting : Setting
setting = record {
  outside = outside;
  hash_jti = hash;
  generate_jwt = λ c. if text_eq c.jti (codes "j9") then some (codes "nine") else none;
  decrypt = λ text dir time. text;
  security_dir = codes "door";
  session_ttl = 3600;
  cookie_secure = true;
}

abbrev request : Request
request = record {
  dir = codes "door";
  username = codes "alice";
  password = codes "open sesame";
  timestamp = 200000;
  ip = codes "10.0.0.1";
  user_agent = none;
  now = at 200;
  checked_at = 7;
  answered_at = 8;
  fresh_hash = some (codes "fresh");
  fresh_jti = codes "j9";
  runs = true;
}

-- five failures, from an address each
abbrev five : LoginRateLimiter
five = record {
  by_account = (codes "alice", record { failures = 1 ∷ 2 ∷ 3 ∷ 4 ∷ 5 ∷ [] }) ∷ [];
  by_ip = [];
}

five_counted : 5 ≤ account_failures five (codes "alice") 7
unfolding lookup count is_fresh text_eq
five_counted = omega arith

-- the same request with a wrong password
abbrev wrong_request : Request
wrong_request = record request { password = codes "open" }

abbrev refused : CommonError
refused = bad_request (codes "auth.login.password_error")

refused_wrong : (sign setting wrong_request empty_limiter (quiet tables)).0.1 ≡ failed refused
unfolding sign text_eq check lookup admit conclude issue_session_token ◌>>=◌ check_login ◌>>◌
    acquire query require find_last fail_when attempt verify_stored verify_sha1
    find_user_update_error_count update modify
refused_wrong = refl

-- the rows after the login of `alice`
abbrev alice_in : User
alice_in = record alice {
  error_count = 0;
  password = codes "fresh";
  salt = [];
  password_algo = codes "argon2id";
}

abbrev logged_in : Tables
logged_in = record tables { users = alice_in ∷ [] }

abbrev returned : User
returned = record alice { password = codes "fresh"; salt = []; password_algo = codes "argon2id" }

passes :
    check_login outside (some (codes "fresh")) (codes "alice") (codes "open sesame") (quiet tables)
    ≡ (ok returned, quiet logged_in)
unfolding check_login text_eq ◌>>=◌ ◌>>◌ acquire query require find_last fail_when attempt
    verify_stored verify_sha1 find_user_update_error_count update upgrade
passes = refl

free : session_constraint (codes "j9") 1 logged_in ≡ none
unfolding text_eq
free = refl

decode_nine : Text → Option Claims
decode_nine token =
    if text_eq token (codes "nine")
    then some (login_claims setting decode request returned)
    else none

encodes : setting.generate_jwt (login_claims setting decode request returned) ≡ some (codes "nine")
unfolding text_eq
encodes = refl

decodes : decode_nine (codes "nine") ≡ some (login_claims setting decode_nine request returned)
unfolding decode_nine text_eq
decodes = refl

alice_row : find_first (has_id 1) logged_in.users ≡ some alice_in
unfolding find_first
alice_row = refl

issue_session_token-authenticate_example :
    (v : Tables) × (issue_session_token setting request
        (codes "alice")
        (codes "open sesame")
        (quiet tables)
      ≡ (ok (codes "nine", view setting returned), quiet v))
    × (a : AuthUser) × (authenticate_token hash decode_nine (at 3000) (codes "nine") (quiet v)
        ≡ (ok a, quiet v))
    × (a.id ≡ 1)
    × (a.jti ≡ codes "j9")
issue_session_token-authenticate_example =
    issue_session_token-authenticate setting decode_nine request (at 3000) (codes "alice")
      (codes "open sesame") tables logged_in returned alice_in (codes "nine") passes free encodes
      decodes (omega arith) alice_row refl refl refl
