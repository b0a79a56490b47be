-- ===== src/Accounts/SignIn/Opened.antt =====
-- A login opens a session that its token can use.
use rust_panel.Prelude.Decimal.{parse_i32-digits}
use rust_panel.Prelude.Int.{pos}
use rust_panel.Accounts.Login.{check_login}
use rust_panel.Accounts.Sessions.Lifetime.{
  opened, session_row, validate_session-eq-verdict, create_session-quiet, row_of-opened,
}
use rust_panel.Accounts.Sessions.{session_constraint, is_past, validate_session}
use rust_panel.Accounts.Users.{find_user_by_id, has_id}
use rust_panel.Accounts.Tables.{Clock, User, Session, Tables}
use rust_panel.Accounts.Auth.{Claims, authenticate_token, session_user, AuthUser}
use rust_panel.Accounts.SignIn.{
  Setting, Text, Option, Claims, Request, issue_session_token, Clock, User, acquire, Tables,
  claims_of, map_err, require, check_login, view, pos, not,
}
use rust_panel.Prelude.{
  refl, none, some, ok, false, Text, Option, ◌+◌, ◌≡◌, ◌<◌, arith, ◌^◌, find_first, ◌∙◌, not, ◌==◌,
  find_first-some,
}
use rust_panel.Db.{◌>>=◌, ◌>>◌, acquire, map_err, query, require, fail_when, quiet}

module _ (s : Setting) (decode_jwt : Text → Option Claims) where
  -- the claims of a login, by its request and its user
  abbrev pub login_claims : Request → User → Claims
  login_claims r user =
      claims_of s user
        (record {
          user_id = user.id;
          jti = r.fresh_jti;
          expires_at_unix = r.now.unix + s.session_ttl;
        })
        r.now

  abbrev pub login_row : Request → User → Session
  login_row r user =
      session_row s.hash_jti r.fresh_jti r.now user.id s.session_ttl (some r.ip) r.user_agent

  abbrev pub login_tables : Request → User → Tables → Tables
  login_tables r user u = opened s.hash_jti (login_row r user) u

  issue_session_token-quiet :
      (r : Request) (name password : Text) (t u : Tables) (user : User) (token : Text)
      → check_login s.outside r.fresh_hash name password (quiet t) ≡ (ok user, quiet u)
      → session_constraint (s.hash_jti r.fresh_jti) user.id u ≡ none
      → s.generate_jwt (login_claims r user) ≡ some token
      → issue_session_token s r name password (quiet t)
        ≡ (ok (token, view s user), quiet (login_tables r user u))
  unfolding issue_session_token acquire map_err require ◌>>=◌ ◌>>◌
  issue_session_token-quiet r name password t u user token passed free encoded = ground (
    arith,
    passed,
    encoded,
    create_session-quiet s.hash_jti r.fresh_jti r.now user.id s.session_ttl (some r.ip) r.user_agent
        u free,
  )

  login_validates :
      (r : Request) (later : Clock) (u : Tables) (user : User)
      → session_constraint (s.hash_jti r.fresh_jti) user.id u ≡ none
      → is_past (r.now.unix + s.session_ttl) later ≡ false
      → validate_session s.hash_jti later r.fresh_jti user.id (quiet (login_tables r user u))
        ≡ (ok tt, quiet (login_tables r user u))
  login_validates r later u user free current =
      validate_session-eq-verdict s.hash_jti later r.fresh_jti user.id (login_tables r user u)
      ∙ ground (
        arith,
        row_of-opened s.hash_jti r.fresh_jti r.now user.id s.session_ttl (some r.ip) r.user_agent u
            free,
      )

  -- After a login on a database that answers, the token that it gives passes authentication until the end of
  -- the session, for the user who logged in, where that user's row is enabled and of the same version. It is
  -- assumed that a token decodes to the claims that it was made from.
  pub issue_session_token-authenticate :
      (r : Request) (later : Clock) (name password : Text) (t u : Tables) (user row : User)
      (token : Text)
      → check_login s.outside r.fresh_hash name password (quiet t) ≡ (ok user, quiet u)
      → session_constraint (s.hash_jti r.fresh_jti) user.id u ≡ none
      → s.generate_jwt (login_claims r user) ≡ some token
      → decode_jwt token ≡ some (login_claims r user)
      → user.id < 2 ^ 31
      → find_first (has_id user.id) u.users ≡ some row
      → row.status ≡ pos 0
      → row.token_version ≡ user.token_version
      → is_past (r.now.unix + s.session_ttl) later ≡ false
      → (v : Tables) × (issue_session_token s r name password (quiet t)
          ≡ (ok (token, view s user), quiet v))
        × (a : AuthUser) × (authenticate_token s.hash_jti decode_jwt later token (quiet v)
            ≡ (ok a, quiet v))
        × (a.id ≡ user.id)
        × (a.jti ≡ r.fresh_jti)
  unfolding authenticate_token session_user find_user_by_id acquire query map_err require fail_when
      ◌>>=◌ ◌>>◌
  issue_session_token-authenticate r later name password t u user row token passed free encoded
        decoded small found enabled version current =
      (
        login_tables r user u,
        issue_session_token-quiet r name password t u user token passed free encoded,
        record {
          id = row.id;
          username = row.username;
          authority = row.authority;
          created_at = row.created_at;
          jti = r.fresh_jti;
          must_change_password = not (row.must_change_password == 0);
          token_version = pos user.token_version;
          expires_at_unix = r.now.unix + s.session_ttl;
        },
        ground (
          arith,
          decoded,
          parse_i32-digits user.id small,
          login_validates r later u user free current,
          found,
        ),
        ground (arith, find_first-some (has_id user.id) u.users found),
        refl,
      )
