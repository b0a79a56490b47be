-- ===== src/Audit/Integrity.antt =====
-- The integrity of the audit tables: an invariant of every run of the operations of src/audit/store.rs.
pub mod Kept
pub mod Purged
pub mod Runs
use rust_panel.Audit.Upkeep.{reconcile_stale_intents, purge_audit}
use rust_panel.Audit.Outbox.{deliver_pending_outbox, mark_outbox_retry}
use rust_panel.Audit.Intents.{begin_intent, Completion, complete_intent}
use rust_panel.Db.{Conn, tables_after}
use rust_panel.Audit.Ids.{fresh, distinct, refers}
use rust_panel.Audit.Tables.{
  AuditTables, Intent, Event, Delivery, IntentSpec, IntentHandle, is_pending,
}
use rust_panel.Audit.Mask.{Value}
use rust_panel.Prelude.{[], true, List, Option, Text, ◌≡◌, Bool, ℕ, not, any, all, ◌==◌, ◌&&◌}
use rust_panel.Prelude.{map}

-- no intent that the event is of is pending
abbrev pub is_closed : List Intent → Event → Bool
is_closed is e = not (any (λ i. i.id == e.intent_id && is_pending i.status) is)

-- Ids are distinct and at most the highest that was given; each event is of an intent, and each row of the outbox
-- of an event; and an intent with an event is not pending, so no clean-up rewrites an outcome that was recorded.
pub record IsSound (t : AuditTables) : Type 0 where
  pub intents_fresh : fresh Intent.id t.intent_seq t.intents ≡ true
  pub events_fresh : fresh Event.id t.event_seq t.events ≡ true
  pub outbox_fresh : fresh Delivery.id t.outbox_seq t.outbox ≡ true
  pub intents_distinct : distinct Intent.id t.intents ≡ true
  pub events_distinct : distinct Event.id t.events ≡ true
  pub outbox_distinct : distinct Delivery.id t.outbox ≡ true
  pub events_refer : refers Event.intent_id Intent.id t.intents t.events ≡ true
  pub outbox_refers : refers Delivery.event_id Event.id t.events t.outbox ≡ true
  pub closed : all (is_closed t.intents) t.events ≡ true

-- The operations of the store, each on a connection with faults of its own, whether it succeeds or fails; the
-- tables go on where the last one left them.
pub data Step (to_string : Value → Option Text) : AuditTables → AuditTables → Type 0 where
  beginning :
      (now : ℕ) (spec : IntentSpec) (c : Conn AuditTables)
      → Step to_string c.tables (tables_after (begin_intent to_string now spec) c)
  completing :
      (now : ℕ) (intent : IntentHandle) (done : Completion) (c : Conn AuditTables)
      → Step to_string c.tables (tables_after (complete_intent to_string now intent done) c)
  delivering :
      (now limit : ℕ) (c : Conn AuditTables)
      → Step to_string c.tables (tables_after (deliver_pending_outbox now limit) c)
  retrying :
      (id : ℕ) (error : Text) (at : ℕ) (c : Conn AuditTables)
      → Step to_string c.tables (tables_after (mark_outbox_retry id error at) c)
  reconciling :
      (now age : ℕ) (c : Conn AuditTables)
      → Step to_string c.tables (tables_after (reconcile_stale_intents now age) c)
  purging :
      (now days : ℕ) (c : Conn AuditTables)
      → Step to_string c.tables (tables_after (purge_audit now days) c)

abbrev pub no_rows : AuditTables
no_rows = record {
  intents = [];
  events = [];
  outbox = [];
  intent_seq = 0;
  event_seq = 0;
  outbox_seq = 0;
  last_insert_rowid = 0;
  delivered_log = [];
}

-- what the operations reach from empty tables
pub data Reach (to_string : Value → Option Text) : AuditTables → Type 0 where
  created : Reach to_string no_rows
  stepped : (t u : AuditTables) → Reach to_string t → Step to_string t u → Reach to_string u
