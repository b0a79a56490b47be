-- ===== src/Accounts/Tickets/SingleUse.antt =====
-- What an accepted ticket was, and that it is accepted once.
use rust_panel.Errors.{CommonError}
use rust_panel.Accounts.Tables.{Tables, change, Ticket}
use rust_panel.Accounts.Rbac.{user_has_permission, join_count}
use rust_panel.Accounts.Tickets.{
  StreamIdentity, consume_ticket, validate_identity, consume_body, user_has_permission, ℕ, Tables,
  accept_ticket, count, ltb, map, refuse_ticket, identity_count, is_consumable, identity_of,
  monitor_read, pure, Db, CommonError,
}
use rust_panel.Prelude.{
  refl, Text, ℕ, count, ltb, map, ◌≡◌, ◌==◌, arith, ◌<◌, ◌≤◌, ap, count-map-eq-zero, subst, sym,
}
use rust_panel.Prelude.{some, true, false}
use rust_panel.Db.Steps.{reading, having, checking, writing, branching}
use rust_panel.Db.Ensures.{
  Ensures, ensures-pure, ensures-imp, ensures-transaction, ensures->>=, ensures->>,
  ensures-fail_when, ensures-throw,
}
use rust_panel.Db.{◌>>◌, pure, Db}

-- The tables let an identity stream at a time: it stands for a live session of a user, who has the
-- permission.
abbrev pub IsEntitled : StreamIdentity → ℕ → Tables → Type 0
IsEntitled i now t =
    (ltb 0 (identity_count i now t) ≡ true) × (ltb 0 (join_count t i.user_id monitor_read) ≡ true)

pub validate_identity-IsEntitled :
    (i : StreamIdentity) (now : ℕ) (t : Tables)
    → Ensures (validate_identity i now) t (λ _ u. IsEntitled i now t × (u ≡ t))
unfolding validate_identity user_has_permission
validate_identity-IsEntitled i now t = reading _ _ _ (
    checking _ _ _ λ present. ensures->>= _ _ t _ (
      reading _ _ _ (
        ensures-pure _ t _
          (ensures-fail_when _ _ t _ λ held. ((ground arith, ground arith), refl)))))

-- The rule for an operation that begins with the check of an identity.
pub validating :
    {B : Type 0} (i : StreamIdentity) (now : ℕ) (k : Db Tables CommonError B) (t : Tables)
    (Q : B → Tables → Type 0)
    → (IsEntitled i now t → Ensures k t Q)
    → Ensures (validate_identity i now >> k) t Q
validating i now k t Q h = ensures->> (validate_identity i now) k t Q (
    ensures-imp (λ _ u v. subst (λ u. Ensures k u Q) (sym v.1) (h v.0))
      (validate_identity-IsEntitled i now t))

-- a ticket's row after `consume_ticket`
abbrev pub consumed : Text → Text → ℕ → Tables → Tables
consumed ticket stream now t = record t {
  tickets =
      map (change (is_consumable ticket stream now) (λ k. record k { consumed_at_unix = some now }))
        t.tickets;
}

-- What the tables hold when a ticket is accepted: an open row of that ticket and stream, for an identity that
-- may stream; and what is left.
pub record IsAccepted (ticket : Text) (stream : Text) (now : ℕ) (t u : Tables) (i : StreamIdentity)
    : Type 0 where
  pub unused : 0 < count (is_consumable ticket stream now) t.tickets
  pub left : u ≡ consumed ticket stream now t
  pub entitled : IsEntitled i now t

refuse_ticket-fails :
    (ticket stream : Text) (now : ℕ) (t : Tables)
    → Ensures (refuse_ticket ticket stream now) t (λ _ _. ⊥)
unfolding refuse_ticket
refuse_ticket-fails ticket stream now t = reading _ _ _ (checking _ _ _ λ same. ensures-throw _ t _)

accept_ticket-IsEntitled :
    (ticket : Text) (now : ℕ) (t : Tables)
    → Ensures (accept_ticket ticket now) t (λ i u. IsEntitled i now t × (u ≡ t))
unfolding accept_ticket
accept_ticket-IsEntitled ticket now t = reading _ _ _ (
    having _ _ _ λ row found.
      ensures->> (validate_identity (identity_of row) now) (pure (identity_of row)) t _ (
        ensures-imp (λ _ u v. ensures-pure (identity_of row) u _ v)
          (validate_identity-IsEntitled (identity_of row) now t)))

-- A ticket is accepted only while it is unused, not past its end and for its stream, by an identity that stands
-- for a live session and may stream then; it is marked as used, and nothing else changes.
pub consume_ticket-IsAccepted :
    (ticket stream : Text) (now : ℕ) (t : Tables)
    → Ensures (consume_ticket ticket stream now) t (λ i u. IsAccepted ticket stream now t u i)
unfolding consume_ticket consume_body
consume_ticket-IsAccepted ticket stream now t = ensures-transaction _ _ t _ (
    writing _ _ _ (
      branching (count (is_consumable ticket stream now) t.tickets == 0)
        (refuse_ticket ticket stream now) (accept_ticket ticket now)
        (λ gone. ensures-imp (λ i u. absurd) (refuse_ticket-fails ticket stream now _))
        (λ met.
          ensures-imp (λ i u v. record { unused = ground arith; left = v.1; entitled = v.0 })
            (accept_ticket-IsEntitled ticket now (consumed ticket stream now t)))))

-- A row that was met is no longer met later.
spent_row :
    (ticket stream : Text) (now later : ℕ) (k : Ticket)
    → now ≤ later
    → is_consumable ticket stream later
        (change (is_consumable ticket stream now) (λ k. record k { consumed_at_unix = some now }) k)
      ≡ false
spent_row ticket stream now later k after = ground arith

-- A ticket is accepted at most once: on the tables that its acceptance for a stream leaves, no later request with it
-- for that stream succeeds, whatever statements fail.
pub consume_ticket-twice :
    (ticket stream : Text) (now later : ℕ) (t : Tables)
    → now ≤ later
    → Ensures
        (consume_ticket ticket stream now)
        t
        (λ _ u. Ensures (consume_ticket ticket stream later) u (λ _ _. ⊥))
consume_ticket-twice ticket stream now later t after =
    ensures-imp
      (λ i u first.
        ensures-imp
          (λ j w second. ground (
            arith,
            second.unused,
            ap (λ u. count (is_consumable ticket stream later) u.tickets) first.left,
            count-map-eq-zero (is_consumable ticket stream later)
                (change (is_consumable ticket stream now)
                  (λ k. record k { consumed_at_unix = some now }))
                t.tickets (λ k. spent_row ticket stream now later k after),
          ))
          (consume_ticket-IsAccepted ticket stream later u))
      (consume_ticket-IsAccepted ticket stream now t)
