-- ===== src/Accounts/SignIn.antt =====
-- src/api/v1/login.rs: the handlers of the login page, over the limiter and the database. The decryption of the
-- form (SM4) and the encoding of a token (jsonwebtoken) are parameters; whether a thread runs the check is an
-- argument.
pub mod Limited
pub mod Opened
use rust_panel.Prelude.Int.{pos}
use rust_panel.Prelude.Decimal.{digits}
use rust_panel.Errors.{CommonError, service_unavailable, internal}
use rust_panel.Accounts.Sessions.{SessionRecord, create_session, revoke_session}
use rust_panel.Accounts.Auth.{AuthUser, Claims}
use rust_panel.RateLimit.{LoginRateLimiter, clear_success, record_login_failure, check}
use rust_panel.Accounts.Tables.{Clock, User, Tables}
use rust_panel.Accounts.Login.{Outside, check_login, no_connection}
use rust_panel.Prelude.{
  some, ok, err, Text, ℕ, Bool, Option, Result, not, ltb, ◌==◌, if◌then◌else◌, ◌*◌, text_eq, ◌+◌,
  codes, ◌-◌,
}
use rust_panel.Db.{◌>>=◌, ◌>>◌, Conn, Db, acquire, map_err, require, pure}

-- what login.rs is configured with, and the code of other crates that it calls
pub record Setting : Type 0 where
  pub outside : Outside
  pub hash_jti : Text → Text
  pub generate_jwt : Claims → Option Text
  -- text, directory, timestamp
  pub decrypt : Text → Text → Text → Text
  pub security_dir : Text
  pub session_ttl : ℕ
  pub cookie_secure : Bool

-- what a request carries, with the readings of the clock while it is served
pub record Request : Type 0 where
  pub dir : Text
  pub username : Text
  pub password : Text
  pub timestamp : ℕ
  pub ip : Text
  pub user_agent : Option Text
  pub now : Clock
  pub checked_at : ℕ
  pub answered_at : ℕ
  pub fresh_hash : Option Text
  pub fresh_jti : Text
  pub runs : Bool

-- the user in a successful answer
pub record UserView : Type 0 where
  pub id : ℕ
  pub username : Text
  pub authority : Text
  pub must_change_password : Bool

pub data Answer : Type 0 where
  not_found invalid_timestamp : Answer
  limited : Text → Answer
  blocked : Answer
  failed : CommonError → Answer
  -- the token, the user, and whether the cookie is secure
  signed_in : Text → UserView → Bool → Answer

-- more than 60 seconds after the time of the form, which is in milliseconds
abbrev pub is_stale : Clock → ℕ → Bool
is_stale now timestamp =
    ltb (60 * 1000000000) (now.unix * 1000000000 + now.nanos - timestamp * 1000000)

module _ (s : Setting) where
  abbrev pub claims_of : User → SessionRecord → Clock → Claims
  claims_of user session now = record {
    sub = digits user.id;
    jti = session.jti;
    iat = now.unix;
    exp = session.expires_at_unix;
    ver = pos user.token_version;
  }

  abbrev pub view : User → UserView
  view user = record {
    id = user.id;
    username = user.username;
    authority = user.authority;
    must_change_password = not (user.must_change_password == 0);
  }

  unfoldable pub issue_session_token :
      Request → Text → Text → Db Tables CommonError (Text × UserView)
  issue_session_token r name password = do
    user ← check_login s.outside r.fresh_hash name password
    acquire no_connection
    session ←
        map_err internal (
          create_session s.hash_jti r.fresh_jti r.now user.id s.session_ttl (some r.ip)
            r.user_agent)
    token ←
        require (s.generate_jwt (claims_of user session r.now))
          (internal (codes "generate token error"))
    pure (token, view user)

  abbrev pub decrypted : Request → Text → Text
  decrypted r text = s.decrypt text s.security_dir (digits r.timestamp)

  -- the answer to the outcome of the login, and what the limiter keeps of it
  unfoldable pub conclude :
      Request
      → Text
      → LoginRateLimiter
      → Result CommonError (Text × UserView)
      → LoginRateLimiter × Answer
  conclude r name l (ok (token, user)) =
      (clear_success l name r.ip, signed_in token user s.cookie_secure)
  conclude r name l (err e) = (record_login_failure l name r.ip r.answered_at, failed e)

  unfoldable pub admit :
      Request → Text → LoginRateLimiter → Conn Tables → (LoginRateLimiter × Answer) × Conn Tables
  admit r name l c =
      if r.runs
      then (let (outcome, c') = issue_session_token r name (decrypted r r.password) c in
          (conclude r name l outcome, c'))
      else ((l, blocked), c)

  -- `sign`
  unfoldable pub sign :
      Request → LoginRateLimiter → Conn Tables → (LoginRateLimiter × Answer) × Conn Tables
  sign r l c =
      if not (text_eq s.security_dir r.dir)
      then ((l, not_found), c)
      else if is_stale r.now r.timestamp
      then ((l, invalid_timestamp), c)
      else (let name = decrypted r r.username in
          let (l', verdict) = check l name r.ip r.checked_at in
          elim verdict [ err m ↦ ((l', limited m), c) | ok _ ↦ admit r name l' c ])

  -- `logout`, of the session of an authenticated user
  unfoldable pub logout : Clock → AuthUser → Db Tables CommonError (Unit {0})
  logout now user = do
    acquire (λ _. service_unavailable (codes "Authentication database unavailable"))
    map_err internal (revoke_session s.hash_jti now user.jti)
