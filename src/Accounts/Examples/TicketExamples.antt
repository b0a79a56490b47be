-- ===== src/Accounts/Examples/TicketExamples.antt =====
-- The theorems on tickets and roles at concrete tables.
use rust_panel.Errors.{unauthorized}
use rust_panel.Accounts.Rbac.Granted.{is_granted, role_grants, assign_role-is_granted}
use rust_panel.Accounts.Tickets.SingleUse.{IsEntitled, consume_ticket-twice}
use rust_panel.Accounts.Tickets.RoundTrip.{issued, IsLifetime, issue_ticket-consume}
use rust_panel.Accounts.Tickets.{
  consume_ticket, issue_ticket, live_tickets, ticket_constraint, is_open, monitor_stream,
  transaction_failed, max_live_tickets_per_user, consume_body, issue_body, refuse_ticket,
  validate_identity, purge_stale,
}
use rust_panel.Accounts.Tables.{Tables}
use rust_panel.Accounts.Rbac.{
  assign_role_for_authority, roles_coded, role_for_authority, user_has_permission,
}
use rust_panel.Accounts.Examples.{tables, codes, monitoring, ℕ, Text}
use rust_panel.Prelude.{
  refl, [], ◌∷◌, none, some, ok, err, count, retain, text_eq, codes, sum_over, ◌≡◌, if◌then◌else◌,
  ℕ, Text, ◌<◌, ◌==◌, any, arith,
}
use rust_panel.Db.{quiet, Conn, transaction, reply, finish, query, update, fail_when, constrained}
use rust_panel.Db.{◌>>=◌, ◌>>◌}
use rust_panel.Db.Ensures.{Ensures}

consume_ticket-twice_example :
    Ensures
      (consume_ticket (codes "k1") monitor_stream 210)
      (issued (codes "k1") 200 monitoring 30 tables)
      (λ _ u. Ensures (consume_ticket (codes "k1") monitor_stream 211) u (λ _ _. ⊥))
consume_ticket-twice_example =
    consume_ticket-twice (codes "k1") monitor_stream 210 211
      (issued (codes "k1") 200 monitoring 30 tables) (omega arith)

entitled : IsEntitled monitoring 200 tables
unfolding text_eq count sum_over
entitled = (refl, refl)

still-IsEntitled : IsEntitled monitoring 229 tables
unfolding text_eq count sum_over
still-IsEntitled = (refl, refl)

few : live_tickets 200 1 (retain (is_open 200) tables.tickets) < max_live_tickets_per_user
unfolding count retain
few = omega arith

free :
    ticket_constraint
      (codes "k1")
      1
      (record tables { tickets = retain (is_open 200) tables.tickets })
    ≡ none
unfolding retain
free = refl

issue_ticket-consume_example :
    (u : Tables) × (issue_ticket (codes "k1") 200 monitoring monitor_stream 30 (quiet tables)
      ≡ (ok (codes "k1", 30), quiet u))
    × IsLifetime 30 30
    × (reply (consume_ticket (codes "k1") monitor_stream 229) (quiet u) ≡ ok monitoring)
    × Ensures (consume_ticket (codes "k1") monitor_stream 230) u (λ _ _. ⊥)
issue_ticket-consume_example =
    issue_ticket-consume (codes "k1") 200 229 230 monitoring 30 tables entitled few free
      (omega arith) still-IsEntitled (omega arith)

-- a request whose `COMMIT` fails, after six statements that are answered
abbrev failing_commit : Conn Tables
failing_commit = record {
  tables = tables;
  faults = none ∷ none ∷ none ∷ none ∷ none ∷ none ∷ some (codes "disk I/O error") ∷ [];
}

issue_fails :
    issue_ticket (codes "k1") 200 monitoring monitor_stream 30 failing_commit
    ≡ (err (transaction_failed (codes "disk I/O error")), quiet tables)
unfolding issue_ticket issue_body transaction finish validate_identity user_has_permission
    purge_stale query update constrained fail_when text_eq count sum_over retain ◌>>=◌ ◌>>◌
issue_fails = refl

-- a request that finds no such ticket
consume_fails :
    consume_ticket (codes "k1") monitor_stream 200 (quiet tables)
    ≡ (err (unauthorized (codes "SSE ticket invalid, expired, or already used")), quiet tables)
unfolding consume_ticket consume_body refuse_ticket transaction finish query update fail_when count
    ◌>>=◌ ◌>>◌
consume_fails = refl

assign_role-is_granted_example :
    Ensures (assign_role_for_authority 1 (codes "admin")) tables (λ _ u.
      (other : ℕ) (permission : Text)
      → is_granted u other permission ≡ (
          if other == 1
          then any
              (λ r. role_grants tables permission r.id)
              (roles_coded (role_for_authority (codes "admin")) tables.roles)
          else is_granted tables other permission))
assign_role-is_granted_example = assign_role-is_granted 1 (codes "admin") tables
