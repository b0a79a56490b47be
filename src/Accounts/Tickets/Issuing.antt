-- ===== src/Accounts/Tickets/Issuing.antt =====
-- What an issued ticket is, and that the client can use it.
use rust_panel.Prelude.{refl, arith}
use rust_panel.Accounts.Tables.{Tables}
use rust_panel.Accounts.Tickets.{
  issue_ticket, issue_body, ℕ, StreamIdentity, purge_stale, Tables, text_eq, monitor_stream,
  live_tickets, retain, is_open, max_live_tickets_per_user, any, new_ticket,
}
use rust_panel.Prelude.{[], ◌∷◌, true, false, Text, ℕ, ◌≡◌, text_eq, ◌≤◌, retain, ◌<◌, any, ◌++◌}
use rust_panel.Db.Steps.{reading, checking, writing, inserting}
use rust_panel.Db.Ensures.{Ensures, ensures-pure, ensures-transaction}
use rust_panel.Accounts.Tickets.SingleUse.{IsEntitled, validating}

-- What holds when a ticket has been issued: the identity may stream, the lifetime is from 5 to 60 seconds,
-- the stale tickets are gone, the new one is the only addition, and no row had its id.
pub record IsIssued (jti : Text) (now : ℕ) (i : StreamIdentity) (stream : Text) (t u : Tables)
    (r : Text × ℕ) : Type 0 where
  pub id : r.0 ≡ jti
  pub entitled : IsEntitled i now t
  pub supported : text_eq stream monitor_stream ≡ true
  pub shortest : 5 ≤ r.1
  pub longest : r.1 ≤ 60
  pub few : live_tickets now i.user_id (retain (is_open now) t.tickets) < max_live_tickets_per_user
  pub fresh : any (λ k. text_eq k.jti jti) (retain (is_open now) t.tickets) ≡ false
  pub left : u ≡ record t {
    tickets = retain (is_open now) t.tickets ++ new_ticket jti now i stream r.1 ∷ [];
  }

-- A ticket is issued only to an identity that may stream, for the monitor stream, to a user with fewer than ten
-- live tickets, under an id that no kept ticket has, and for 5 to 60 seconds; the stale tickets are deleted and
-- the new one is the only addition.
pub issue_ticket-IsIssued :
    (jti : Text) (now : ℕ) (i : StreamIdentity) (stream : Text) (ttl : ℕ) (t : Tables)
    → Ensures (issue_ticket jti now i stream ttl) t (λ r u. IsIssued jti now i stream t u r)
unfolding issue_ticket issue_body purge_stale
issue_ticket-IsIssued jti now i stream ttl t = ensures-transaction _ _ t _ (
    validating i now _ t _ λ entitled. checking _ _ _ λ supported. writing _ _ _ (
      reading _ _ _ (
        checking _ _ _ λ few. inserting _ _ _ _ λ met. ensures-pure _ _ _ (record {
          id = refl;
          entitled = entitled;
          supported = ground arith;
          shortest = omega arith;
          longest = omega arith;
          few = ground arith;
          fresh = ground arith;
          left = refl;
        }))))
