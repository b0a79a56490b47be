-- ===== src/Accounts/Tickets/RoundTrip.antt =====
-- An issued ticket opens the stream, and a request that fails leaves no trace.
use rust_panel.Db.Ensures.{Ensures, ensures-imp}
use rust_panel.Accounts.Tickets.SingleUse.{consume_ticket-IsAccepted}
use rust_panel.Prelude.{refl, List, ◌≤◌, ◌⊎◌}
use rust_panel.Db.Rules.{transaction-err}
use rust_panel.Errors.{CommonError}
use rust_panel.Prelude.{
  err, Bool, ap, map-append, subst, sym, ◌∙◌, find_first-append, map, any-map, any-ext,
}
use rust_panel.Prelude.{false, any, count, text_eq_refl, ◌+◌, ◌==◌, count-append}
use rust_panel.Accounts.Tables.{Tables, Ticket, change}
use rust_panel.Accounts.Rbac.{user_has_permission}
use rust_panel.Accounts.Tickets.{
  accept_ticket, issue_ticket, validate_identity, issue_body, query, user_has_permission, ℕ,
  StreamIdentity, fail_when, require, transaction, Tables, purge_stale, retain, update, constrained,
  find_first, is_open, live_tickets, text_eq, identity_of, new_ticket, max_live_tickets_per_user,
  monitor_stream, clamp, ticket_constraint, any, count, is_consumable, consume_ticket, Bool,
  CommonError, consume_body, map,
}
use rust_panel.Prelude.{
  [], ◌∷◌, none, some, ok, Text, ℕ, retain, find_first, ◌≡◌, arith, text_eq, ◌++◌, ◌<◌,
}
use rust_panel.Db.{
  ◌>>=◌, ◌>>◌, finish, query, fail_when, require, transaction, quiet, update, constrained, Conn,
  reply,
}
use rust_panel.Accounts.Tickets.SingleUse.{IsEntitled, consumed}

-- On a database that answers, an entitled identity passes the check.
validate_identity-quiet :
    (i : StreamIdentity) (now : ℕ) (t : Tables)
    → IsEntitled i now t
    → validate_identity i now (quiet t) ≡ (ok tt, quiet t)
unfolding validate_identity user_has_permission query fail_when ◌>>=◌ ◌>>◌
validate_identity-quiet i now t h = ground arith

-- the tables with a ticket issued
abbrev pub issued : Text → ℕ → StreamIdentity → ℕ → Tables → Tables
issued jti now i ttl t = record t {
  tickets = retain (is_open now) t.tickets ++ new_ticket jti now i monitor_stream (clamp ttl) ∷ [];
}

issue_ticket-quiet :
    (jti : Text) (now : ℕ) (i : StreamIdentity) (ttl : ℕ) (t : Tables)
    → IsEntitled i now t
    → live_tickets now i.user_id (retain (is_open now) t.tickets) < max_live_tickets_per_user
    → ticket_constraint jti i.user_id (record t { tickets = retain (is_open now) t.tickets }) ≡ none
    → issue_ticket jti now i monitor_stream ttl (quiet t)
      ≡ (ok (jti, clamp ttl), quiet (issued jti now i ttl t))
unfolding issue_ticket issue_body transaction finish purge_stale query update constrained fail_when
    ◌>>=◌ ◌>>◌
issue_ticket-quiet jti now i ttl t h few free =
    rw (validate_identity-quiet i now t h) (ground (arith, text_eq_refl monitor_stream))

accept_ticket-quiet :
    (ticket : Text) (now : ℕ) (t : Tables) (k : Ticket)
    → find_first (λ k. text_eq k.jti ticket) t.tickets ≡ some k
    → IsEntitled (identity_of k) now t
    → accept_ticket ticket now (quiet t) ≡ (ok (identity_of k), quiet t)
unfolding accept_ticket query require ◌>>=◌ ◌>>◌
accept_ticket-quiet ticket now t k found h =
    ground (arith, found, validate_identity-quiet (identity_of k) now t h)

-- the client of an issued ticket is told the identity that it was issued for
new_ticket_row :
    (jti : Text) (now later : ℕ) (i : StreamIdentity) (ttl : ℕ) (t : Tables)
    → any (λ k. text_eq k.jti jti) (retain (is_open now) t.tickets) ≡ false
    → later < now + clamp ttl
    → (k : Ticket) × (find_first
          (λ k. text_eq k.jti jti)
          (consumed jti monitor_stream later (issued jti now i ttl t)).tickets
        ≡ some k)
      × (identity_of k ≡ i)
new_ticket_row jti now later i ttl t fresh before = (
  spend_row new,
  ap (find_first wanted) (map-append spend_row (retain (is_open now) t.tickets) (new ∷ []))
      ∙ find_first-append wanted (map spend_row (retain (is_open now) t.tickets))
          (spend_row new ∷ [])
          (any-map wanted spend_row (retain (is_open now) t.tickets)
            ∙ any-ext (λ k. wanted (spend_row k)) wanted (retain (is_open now) t.tickets)
                (λ k. ground arith)
            ∙ fresh)
      ∙ found,
  ground arith,
)
  where
    new : Ticket
    new = new_ticket jti now i monitor_stream (clamp ttl)

    spend_row : Ticket → Ticket
    spend_row =
        change (is_consumable jti monitor_stream later)
          (λ k. record k { consumed_at_unix = some later })

    wanted : Ticket → Bool
    wanted k = text_eq k.jti jti

    found : find_first wanted (spend_row new ∷ []) ≡ some (spend_row new)
    found = unfold find_first in ground (arith, text_eq_refl jti)

consumable_count :
    (jti : Text) (now later : ℕ) (i : StreamIdentity) (ttl : ℕ) (t : Tables)
    → later < now + clamp ttl
    → (count (is_consumable jti monitor_stream later) (issued jti now i ttl t).tickets == 0) ≡ false
unfolding count
consumable_count jti now later i ttl t before = ground (
  arith,
  count-append (is_consumable jti monitor_stream later) (retain (is_open now) t.tickets)
      (new_ticket jti now i monitor_stream (clamp ttl) ∷ []),
  text_eq_refl jti,
  text_eq_refl monitor_stream,
)

count_none :
    (jti : Text) (ended : ℕ) (ks : List Ticket)
    → any (λ k. text_eq k.jti jti) ks ≡ false
    → count (is_consumable jti monitor_stream ended) ks ≡ 0
unfolding count
count_none jti ended [] h = refl
count_none jti ended (k ∷ ks) h = ground (arith, count_none jti ended ks)

-- No row of the ticket is open once its time is over: those that were kept are of other tickets.
consumable_none :
    (jti : Text) (now ended : ℕ) (i : StreamIdentity) (ttl : ℕ) (t : Tables)
    → any (λ k. text_eq k.jti jti) (retain (is_open now) t.tickets) ≡ false
    → now + clamp ttl ≤ ended
    → count (is_consumable jti monitor_stream ended) (issued jti now i ttl t).tickets ≡ 0
unfolding count
consumable_none jti now ended i ttl t fresh over =
    count-append (is_consumable jti monitor_stream ended) (retain (is_open now) t.tickets)
      (new_ticket jti now i monitor_stream (clamp ttl) ∷ [])
    ∙ ground (arith, count_none jti ended (retain (is_open now) t.tickets) fresh)

consume_ticket-ended :
    (jti : Text) (now ended : ℕ) (i : StreamIdentity) (ttl : ℕ) (t : Tables)
    → any (λ k. text_eq k.jti jti) (retain (is_open now) t.tickets) ≡ false
    → now + clamp ttl ≤ ended
    → Ensures (consume_ticket jti monitor_stream ended) (issued jti now i ttl t) (λ _ _. ⊥)
consume_ticket-ended jti now ended i ttl t fresh over =
    ensures-imp
      (λ j u accepted.
        omega (arith, accepted.unused, consumable_none jti now ended i ttl t fresh over))
      (consume_ticket-IsAccepted jti monitor_stream ended (issued jti now i ttl t))

-- The lifetime of a ticket: what was asked for, between 5 and 60 seconds.
abbrev pub IsLifetime : ℕ → ℕ → Type 0
IsLifetime asked ttl =
    (5 ≤ ttl)
    × (ttl ≤ 60)
    × ((ttl ≡ asked) ⊎ ((asked < 5) × (ttl ≡ 5)) ⊎ ((60 < asked) × (ttl ≡ 60)))

clamp-IsLifetime : (asked : ℕ) → IsLifetime asked (clamp asked)
clamp-IsLifetime asked = ground arith

-- A ticket that is issued on a database that answers is accepted before it ends, for the identity it was
-- issued to, where that identity may still stream; from its end on it is refused, whatever statements fail. The
-- lifetime that the answer names is the one asked for, raised to 5 seconds or cut to 60.
pub issue_ticket-consume :
    (jti : Text) (now later ended : ℕ) (i : StreamIdentity) (ttl : ℕ) (t : Tables)
    → IsEntitled i now t
    → live_tickets now i.user_id (retain (is_open now) t.tickets) < max_live_tickets_per_user
    → ticket_constraint jti i.user_id (record t { tickets = retain (is_open now) t.tickets }) ≡ none
    → later < now + clamp ttl
    → IsEntitled i later t
    → now + clamp ttl ≤ ended
    → (u : Tables) × (issue_ticket jti now i monitor_stream ttl (quiet t)
        ≡ (ok (jti, clamp ttl), quiet u))
      × IsLifetime ttl (clamp ttl)
      × (reply (consume_ticket jti monitor_stream later) (quiet u) ≡ ok i)
      × Ensures (consume_ticket jti monitor_stream ended) u (λ _ _. ⊥)
unfolding consume_ticket consume_body transaction update finish ◌>>=◌
issue_ticket-consume jti now later ended i ttl t entitled few free before still over =
    let fresh : any (λ k. text_eq k.jti jti) (retain (is_open now) t.tickets) ≡ false =
      ground arith in
    let (k, found, same) = new_ticket_row jti now later i ttl t fresh before in
    (
      issued jti now i ttl t,
      issue_ticket-quiet jti now i ttl t entitled few free,
      clamp-IsLifetime ttl,
      ground (
        arith,
        consumable_count jti now later i ttl t before,
        accept_ticket-quiet jti later (consumed jti monitor_stream later (issued jti now i ttl t)) k
            found (subst (λ j. IsEntitled j later t) (sym same) still),
      ),
      consume_ticket-ended jti now ended i ttl t fresh over,
    )

-- A request for a ticket that fails, at whatever statement, leaves the tables as they were.
pub issue_ticket-err :
    (jti : Text) (now : ℕ) (i : StreamIdentity) (stream : Text) (ttl : ℕ) (c d : Conn Tables)
    (e : CommonError)
    → issue_ticket jti now i stream ttl c ≡ (err e, d)
    → d.tables ≡ c.tables
unfolding issue_ticket
issue_ticket-err jti now i stream ttl c d e = transaction-err _ _ c

-- A ticket that is refused, for whatever reason, is left as it was, and so are all others.
pub consume_ticket-err :
    (ticket stream : Text) (now : ℕ) (c d : Conn Tables) (e : CommonError)
    → consume_ticket ticket stream now c ≡ (err e, d)
    → d.tables ≡ c.tables
unfolding consume_ticket
consume_ticket-err ticket stream now c d e = transaction-err _ _ c
