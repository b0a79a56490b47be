-- ===== src/Accounts/Tickets.antt =====
-- src/service/sse_tickets.rs: one-time tickets for the monitor stream. The fresh `jti` is an argument, and
-- each operation reads the clock once, in whole seconds.
pub mod SingleUse
pub mod Issuing
pub mod RoundTrip
use rust_panel.Accounts.Rbac.{user_has_permission}
use rust_panel.Accounts.Users.{has_id}
use rust_panel.Prelude.Int.{eq_ℤ, pos}
use rust_panel.Errors.{
  CommonError, internal, service_unavailable, bad_request, forbidden, unauthorized,
  too_many_requests,
}
use rust_panel.Accounts.Tables.{Ticket, Tables, User, Session, is_none, change}
use rust_panel.Prelude.{
  [], ◌∷◌, none, some, Text, ℕ, Bool, List, codes, min, ◌+◌, Option, count, max, sum_over, text_eq,
  find_first, if◌then◌else◌, map, not, ◌&&◌, ◌==◌, any, ltb, retain, ◌++◌, leb,
}
use rust_panel.Db.{
  ◌>>=◌, ◌>>◌, Db, fail_when, query, transaction, update, require, pure, throw, constrained,
}

abbrev pub monitor_stream : Text
monitor_stream = codes "monitor"

abbrev pub monitor_read : Text
monitor_read = codes "monitor:read"

abbrev pub max_live_tickets_per_user : ℕ
max_live_tickets_per_user = 10

pub record StreamIdentity : Type 0 where
  pub user_id : ℕ
  pub session_hash : Text
  pub token_version : ℕ
  pub access_expires_at_unix : ℕ

abbrev pub store_unavailable : CommonError
store_unavailable = service_unavailable (codes "SSE ticket store unavailable")

-- a ticket that is neither consumed nor expired
abbrev pub is_open : ℕ → Ticket → Bool
is_open now k = is_none k.consumed_at_unix && ltb now k.expires_at_unix

unfoldable pub purge_stale : ℕ → Db Tables CommonError ℕ
purge_stale now =
    update (λ _. store_unavailable)
      (λ t. (
        count (λ k. not (is_open now k)) t.tickets,
        record t { tickets = retain (is_open now) t.tickets },
      ))

-- a row of the join of a user and a session that the identity names, all conditions met
abbrev pub stands_for : StreamIdentity → ℕ → User → Session → Bool
stands_for i now u s =
    s.user_id == u.id
    && u.id == i.user_id
    && eq_ℤ u.status (pos 0)
    && u.must_change_password == 0
    && u.token_version == i.token_version
    && text_eq s.jti_hash i.session_hash
    && is_none s.revoked_at
    && ltb now s.expires_at
    && ltb now i.access_expires_at_unix

abbrev pub identity_count : StreamIdentity → ℕ → Tables → ℕ
identity_count i now t = sum_over t.users λ u. count (stands_for i now u) t.sessions

unfoldable pub validate_identity : StreamIdentity → ℕ → Db Tables CommonError (Unit {0})
validate_identity i now = do
  n ←
      query (λ _. service_unavailable (codes "Authentication database unavailable"))
        (identity_count i now)
  fail_when (not (ltb 0 n)) (unauthorized (codes "SSE session revoked or expired"))
  held ← user_has_permission i.user_id monitor_read
  fail_when (not held) (forbidden (codes "Missing permission: monitor:read"))

abbrev pub clamp : ℕ → ℕ
clamp ttl = min (max ttl 5) 60

-- how a failed `BEGIN` or `COMMIT` comes out: `CommonError::from`
abbrev pub transaction_failed : Text → CommonError
transaction_failed m = internal m

-- `jti` is the primary key, and `user_id` references a user
abbrev pub ticket_constraint : Text → ℕ → Tables → Option Text
ticket_constraint jti user_id t =
    if any (λ k. text_eq k.jti jti) t.tickets
    then some (codes "UNIQUE constraint failed: sse_tickets.jti")
    else if any (has_id user_id) t.users
    then none
    else some (codes "FOREIGN KEY constraint failed")

abbrev pub new_ticket : Text → ℕ → StreamIdentity → Text → ℕ → Ticket
new_ticket jti now i stream ttl = record {
  jti = jti;
  user_id = i.user_id;
  stream = stream;
  expires_at_unix = now + ttl;
  consumed_at_unix = none;
  created_at = now;
  session_hash = i.session_hash;
  token_version = i.token_version;
  access_expires_at_unix = i.access_expires_at_unix;
}

abbrev pub live_tickets : ℕ → ℕ → List Ticket → ℕ
live_tickets now user_id = count (λ k. k.user_id == user_id && is_open now k)

-- the body of the transaction of `issue_ticket`
unfoldable pub issue_body : Text → ℕ → StreamIdentity → Text → ℕ → Db Tables CommonError (Text × ℕ)
issue_body jti now i stream ttl_secs = do
  validate_identity i now
  fail_when (not (text_eq stream monitor_stream))
      (bad_request (codes "Unsupported SSE stream: " ++ stream))
  let ttl = clamp ttl_secs
  purged ← purge_stale now
  live ← query (λ _. store_unavailable) (λ t. live_tickets now i.user_id t.tickets)
  fail_when (leb max_live_tickets_per_user live)
      (too_many_requests (codes "Too many live SSE tickets; consume or wait for expiry"))
  constrained (λ _. store_unavailable) (ticket_constraint jti i.user_id)
      (λ t. (tt, record t { tickets = t.tickets ++ new_ticket jti now i stream ttl ∷ [] }))
  pure (jti, ttl)

unfoldable pub issue_ticket :
    Text → ℕ → StreamIdentity → Text → ℕ → Db Tables CommonError (Text × ℕ)
issue_ticket jti now i stream ttl_secs =
    transaction transaction_failed (issue_body jti now i stream ttl_secs)

-- the rows that the `UPDATE` of `consume_ticket` meets
abbrev pub is_consumable : Text → Text → ℕ → Ticket → Bool
is_consumable ticket stream now k = text_eq k.jti ticket && text_eq k.stream stream && is_open now k

abbrev pub identity_of : Ticket → StreamIdentity
identity_of k = record {
  user_id = k.user_id;
  session_hash = k.session_hash;
  token_version = k.token_version;
  access_expires_at_unix = k.access_expires_at_unix;
}

-- when no row was updated: another stream's ticket, or none that is open
unfoldable pub refuse_ticket : Text → Text → ℕ → Db Tables CommonError StreamIdentity
refuse_ticket ticket stream now = do
  n ←
      query (λ _. store_unavailable)
        (λ t.
          count (λ k. text_eq k.jti ticket && not (text_eq k.stream stream) && is_open now k)
            t.tickets)
  fail_when (ltb 0 n) (forbidden (codes "SSE ticket stream mismatch"))
  throw (unauthorized (codes "SSE ticket invalid, expired, or already used"))

unfoldable pub accept_ticket : Text → ℕ → Db Tables CommonError StreamIdentity
accept_ticket ticket now = do
  found ← query (λ _. store_unavailable) (λ t. find_first (λ k. text_eq k.jti ticket) t.tickets)
  row ← require found (unauthorized (codes "SSE ticket invalid"))
  validate_identity (identity_of row) now
  pure (identity_of row)

unfoldable pub consume_body : Text → Text → ℕ → Db Tables CommonError StreamIdentity
consume_body ticket stream now = do
  updated ←
      update (λ _. store_unavailable)
        (λ t. (
          count (is_consumable ticket stream now) t.tickets,
          record t {
            tickets =
                map
                  (change (is_consumable ticket stream now)
                    (λ k. record k { consumed_at_unix = some now }))
                  t.tickets;
          },
        ))
  if updated == 0 then refuse_ticket ticket stream now else accept_ticket ticket now

unfoldable pub consume_ticket : Text → Text → ℕ → Db Tables CommonError StreamIdentity
consume_ticket ticket stream now = transaction transaction_failed (consume_body ticket stream now)
