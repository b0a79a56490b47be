-- ===== src/Accounts/Sessions.antt =====
-- src/service/sessions.rs: revocable login sessions, keyed by the hash of a token's `jti`. The hash (SHA-256
-- of the crypto crate) is a parameter, and a fresh `jti` is an argument. Each operation reads the clock once.
pub mod Revocation
pub mod Lifetime
use mathlib.Core.Option
use rust_panel.Accounts.Users.{has_id}
use rust_panel.Errors.{CommonError, service_unavailable, invalid_credentials}
use rust_panel.Accounts.Tables.{Clock, Session, Tables, is_none, change}
use rust_panel.Prelude.{
  [], ◌∷◌, none, some, false, Text, ℕ, Bool, Option, ◌*◌, if◌then◌else◌, leb, ltb, text_eq, ◌+◌,
  any, codes, ◌||◌, ◌++◌, ◌-◌, ◌==◌, count, find_first, map, ◌&&◌, retain, not,
}
use rust_panel.Db.{◌>>=◌, ◌>>◌, Db, update, constrained, query, require, pure, fail_when}

pub record SessionRecord : Type 0 where
  pub user_id : ℕ
  pub jti : Text
  pub expires_at_unix : ℕ

abbrev pub has_hash : Text → Session → Bool
has_hash h s = text_eq s.jti_hash h

abbrev pub is_live : Session → Bool
is_live s = is_none s.revoked_at

abbrev day : ℕ
day = 24 * 60 * 60

-- `jti_hash` is UNIQUE, and `user_id` references a user
abbrev pub session_constraint : Text → ℕ → Tables → Option Text
session_constraint h user_id t =
    if any (has_hash h) t.sessions
    then some (codes "UNIQUE constraint failed: sessions.jti_hash")
    else if any (has_id user_id) t.users
    then none
    else some (codes "FOREIGN KEY constraint failed")

-- `expires < Utc::now().naive_utc()`: the stored time is in whole seconds
abbrev pub is_past : ℕ → Clock → Bool
is_past expires now = ltb expires now.unix || (expires == now.unix && ltb 0 now.nanos)

module _ (hash_jti : Text → Text) where
  -- The lifetime is of 0 seconds or more, and the end is a time that can be written.
  unfoldable pub create_session :
      Text → Clock → ℕ → ℕ → Option Text → Option Text → Db Tables Text SessionRecord
  create_session jti now user_id ttl_seconds ip user_agent = do
    let expires_at_unix = now.unix + ttl_seconds
    constrained (λ m. codes "Failed to create session: " ++ m)
        (session_constraint (hash_jti jti) user_id)
        (λ t. (
          tt,
          record t {
            sessions =
                t.sessions
                ++ record {
                  jti_hash = hash_jti jti;
                  user_id = user_id;
                  issued_at = now.unix;
                  expires_at = expires_at_unix;
                  revoked_at = none;
                  ua_hash = Option.map hash_jti user_agent;
                  ip = ip;
                }
                  ∷ [];
          },
        ))
    pure (record { user_id = user_id; jti = jti; expires_at_unix = expires_at_unix })

  unfoldable pub validate_session : Clock → Text → ℕ → Db Tables CommonError (Unit {0})
  validate_session now jti expected_user_id = do
    found ←
        query (λ _. service_unavailable (codes "Authentication database unavailable"))
          (λ t. find_first (has_hash (hash_jti jti)) t.sessions)
    row ← require found invalid_credentials
    fail_when (not (row.user_id == expected_user_id)) invalid_credentials
    fail_when (not (is_live row)) invalid_credentials
    fail_when (is_past row.expires_at now) invalid_credentials
    pure tt

  unfoldable pub revoke_session : Clock → Text → Db Tables Text (Unit {0})
  revoke_session now jti =
      update (λ m. codes "Failed to revoke session: " ++ m)
        (λ t. (
          tt,
          record t {
            sessions =
                map
                  (change (λ s. has_hash (hash_jti jti) s && is_live s)
                    (λ s. record s { revoked_at = some now.unix }))
                  t.sessions;
          },
        ))

unfoldable pub revoke_all_for_user : Clock → ℕ → Db Tables Text (Unit {0})
revoke_all_for_user now user_id =
    update (λ m. codes "Failed to revoke user sessions: " ++ m)
      (λ t. (
        tt,
        record t {
          sessions =
              map
                (change (λ s. s.user_id == user_id && is_live s)
                  (λ s. record s { revoked_at = some now.unix }))
                t.sessions;
        },
      ))

-- `row.token_version as i32`, for the versions that an `i32` holds
unfoldable pub bump_token_version : ℕ → Db Tables Text ℕ
bump_token_version user_id = do
  update (λ m. codes "Failed to bump token_version: " ++ m)
      (λ t. (
        tt,
        record t {
          users =
              map (change (has_id user_id) (λ u. record u { token_version = u.token_version + 1 }))
                t.users;
        },
      ))
  found ←
      query (λ m. codes "Failed to read token_version: " ++ m)
        (λ t. find_first (has_id user_id) t.users)
  user ← require found (codes "User missing after token_version bump")
  pure user.token_version

abbrev pub revoked_by : ℕ → Option ℕ → Bool
revoked_by now none = false
revoked_by now (some at) = leb (at + day) now

-- a row that `purge_expired` deletes: expired, or revoked for a day
abbrev pub is_purged : Clock → Session → Bool
is_purged now s = leb s.expires_at now.unix || revoked_by now.unix s.revoked_at

unfoldable pub purge_expired : Clock → Db Tables Text ℕ
purge_expired now =
    update (λ m. codes "Failed to purge sessions: " ++ m)
      (λ t. (
        count (is_purged now) t.sessions,
        record t { sessions = retain (λ s. not (is_purged now s)) t.sessions },
      ))
