-- ===== src/Audit/Examples.antt =====
-- The theorems on the audit at concrete tables and values.
use rust_panel.Audit.Audited.Ordered.{IsRefused, IsUnderIntent, execute_audited-IsUnderIntent}
use rust_panel.Audit.Audited.Classified.{IsRecorded, execute_audited-IsRecorded}
use rust_panel.Audit.Outbox.{join_event}
use rust_panel.Audit.Upkeep.Kept.{reconcile_stale_intents-settled}
use rust_panel.Audit.Outbox.Refines.{deliver_pending_outbox-dequeue}
use rust_panel.Audit.Outbox.Enqueue.{row_of, complete_intent-enqueue}
use rust_panel.Audit.Integrity.Runs.{Reach-IsSound}
use rust_panel.Audit.Outbox.Drained.{rounds, rounds-drained}
use rust_panel.Audit.Outbox.Queue.{queue_of, enqueue, due_rows, dequeue}
use rust_panel.Audit.Mask.Reference.{redact, mask_value-eq}
use rust_panel.Accounts.Tables.{is_none}
use rust_panel.Prelude.Int.{pos}
use rust_panel.Audit.Outbox.{deliver_pending_outbox, join_events}
use rust_panel.Audit.Intents.Recorded.{recorded, complete_intent-IsWhole}
use rust_panel.Db.Whole.{IsWhole}
use rust_panel.Db.Ensures.{Ensures}
use rust_panel.Db.{Conn, reply, quiet, tables_after}
use rust_panel.Audit.Upkeep.{reconcile_stale_intents, is_stale}
use rust_panel.Audit.Mask.Redacted.{IsRedacted, mask_value-IsRedacted}
use rust_panel.Audit.Intents.{Completion, complete_intent, begin_intent}
use rust_panel.Audit.Integrity.{IsSound, no_rows, stepped, created, beginning}
use rust_panel.Audit.Audited.{execute_audited, spec_of}
use rust_panel.Prelude.{
  refl, [], ◌∷◌, none, some, ok, false, Text, retain, text_eq, Option, any, ◌≡◌, count, length,
  take, ◌-◌, ◌*◌, All, arith, ◌==◌, ◌⊎◌,
}
use rust_panel.Audit.Mask.{
  object, field, no_fields, string, array, item, no_items, Value, mask_value,
}
use rust_panel.Audit.Tables.{
  success, failure, executed, pending, AuditTables, Delivery, Event, Intent, IntentHandle,
}
use rust_panel.Privileged.Action.{ufw_status}
use rust_panel.Privileged.Command.{finished, Host}
use rust_panel.Prelude.{codes, ◌++◌}

abbrev to_string : Value → Option Text
to_string v = some (codes "json")

abbrev debug : Text → Text
debug t = codes "?" ++ t

abbrev host : Host
host command limit = finished (some (pos 0)) (codes "ok") [] 12

-- one intent that was executed and waits for its delivery, and one that is pending
abbrev done_intent : Intent
done_intent = record {
  id = 1;
  operation_id = codes "op-1";
  actor_id = some 7;
  request_id = none;
  action = codes "ufw.status";
  resource = some (codes "firewall");
  params_masked = codes "json";
  ip = none;
  status = executed;
  created_at = 1000;
}

abbrev open_intent : Intent
open_intent = record {
  id = 2;
  operation_id = codes "op-2";
  actor_id = none;
  request_id = none;
  action = codes "iptables.list";
  resource = some (codes "firewall");
  params_masked = codes "json";
  ip = none;
  status = pending;
  created_at = 2000;
}

abbrev done_event : Event
done_event = record {
  id = 1;
  intent_id = 1;
  operation_id = codes "op-1";
  outcome = success;
  exit_code = some (pos 0);
  detail_masked = codes "json";
  duration_ms = some 12;
  created_at = 1100;
}

abbrev waiting_row : Delivery
waiting_row = record {
  id = 1;
  event_id = 1;
  attempts = 0;
  next_retry_at = none;
  delivered_at = none;
  last_error = none;
  created_at = 1100;
}

abbrev tables : AuditTables
tables = record {
  intents = done_intent ∷ open_intent ∷ [];
  events = done_event ∷ [];
  outbox = waiting_row ∷ [];
  intent_seq = 2;
  event_seq = 1;
  outbox_seq = 1;
  last_insert_rowid = 1;
  delivered_log = [];
}

tables-IsSound : IsSound tables
tables-IsSound = record {
  intents_fresh = refl;
  events_fresh = refl;
  outbox_fresh = refl;
  intents_distinct = refl;
  events_distinct = refl;
  outbox_distinct = refl;
  events_refer = refl;
  outbox_refers = refl;
  closed = refl;
}

abbrev completion : Completion
completion = record {
  outcome = failure;
  exit_code = none;
  detail = object no_fields;
  duration_ms = none;
}

abbrev second : IntentHandle
second = record { id = 2; operation_id = codes "op-2" }

-- a connection whose third statement fails
abbrev failing : Conn AuditTables
failing = record { tables = tables; faults = none ∷ none ∷ some (codes "disk full") ∷ [] }

abbrev secret_value : Value
secret_value = object (
    field (codes "user") (string (codes "alice")) (
      field (codes "nested")
        (array (item (object (field (codes "Auth_Token") (string (codes "x")) no_fields)) no_items))
        no_fields))

mask_value-IsRedacted_example : IsRedacted (mask_value secret_value)
mask_value-IsRedacted_example = mask_value-IsRedacted secret_value

mask_value-eq_example :
    (mask_value secret_value ≡ redact secret_value)
    × (mask_value (mask_value secret_value) ≡ mask_value secret_value)
unfolding text_eq
mask_value-eq_example = mask_value-eq secret_value (refl, tt, (refl, ((refl, tt, tt), tt), tt))

complete_intent-IsWhole_example :
    IsWhole tables
      (recorded to_string 3000 second completion tables)
      (complete_intent to_string 3000 second completion failing)
complete_intent-IsWhole_example = complete_intent-IsWhole to_string 3000 second completion failing

Reach-IsSound_example : IsSound (
    tables_after
      (begin_intent to_string 5 (spec_of (codes "op-9") none ufw_status))
      (quiet no_rows))
Reach-IsSound_example = Reach-IsSound to_string _ (
    stepped no_rows _ created
      (beginning 5 (spec_of (codes "op-9") none ufw_status) (quiet no_rows)))

deliver_pending_outbox-dequeue_example :
    (reply (deliver_pending_outbox 3000 10) (quiet tables)
      ≡ ok (length (take 10 (due_rows 3000 tables))))
    × (queue_of 3000 (tables_after (deliver_pending_outbox 3000 10) (quiet tables))
        ≡ dequeue 10 (queue_of 3000 tables))
deliver_pending_outbox-dequeue_example =
    deliver_pending_outbox-dequeue 3000 10 tables tables-IsSound

complete_intent-enqueue_example :
    (reply (complete_intent to_string 3000 second completion) (quiet tables) ≡ ok tt)
    × (queue_of 3500
          (tables_after (complete_intent to_string 3000 second completion) (quiet tables))
        ≡ enqueue (row_of second completion tables) (queue_of 3500 tables))
complete_intent-enqueue_example =
    complete_intent-enqueue to_string 3500 3000 second completion tables tables-IsSound refl

rounds-drained_example :
    (any (λ o. is_none (Delivery.delivered_at o)) (rounds (3000 ∷ 4000 ∷ []) 1 tables).outbox
      ≡ false)
    × ((rounds (3000 ∷ 4000 ∷ []) 1 tables).delivered_log
        ≡ tables.delivered_log ++ due_rows 3000 tables)
unfolding retain join_events join_event
rounds-drained_example =
    rounds-drained 3000 1 (3000 ∷ 4000 ∷ []) tables tables-IsSound refl refl (omega arith)

reconcile_stale_intents-settled_example :
    Ensures (reconcile_stale_intents 9000000 3600) tables (λ n u.
      (n ≡ count (is_stale (9000000 - 3600 * 1000)) tables.intents)
      × (any (is_stale (9000000 - 3600 * 1000)) u.intents ≡ false)
      × (u.events ≡ tables.events)
      × All
          (λ e.
            retain (λ i. Intent.id i == Event.intent_id e) u.intents
            ≡ retain (λ i. Intent.id i == Event.intent_id e) tables.intents)
          tables.events)
reconcile_stale_intents-settled_example =
    reconcile_stale_intents-settled 9000000 3600 tables tables-IsSound

execute_audited-IsUnderIntent_example :
    IsRefused to_string debug host
      (execute_audited to_string debug host 3000 3100 (codes "op-3") (some 7) ufw_status failing)
    ⊎ IsUnderIntent to_string debug host 3000 3100
        (codes "op-3")
        (some 7)
        ufw_status
        failing
        (execute_audited to_string debug host 3000 3100 (codes "op-3") (some 7) ufw_status failing)
execute_audited-IsUnderIntent_example =
    execute_audited-IsUnderIntent to_string debug host 3000 3100 (codes "op-3") (some 7) ufw_status
      failing

execute_audited-IsRecorded_example :
    (u : AuditTables) × ((execute_audited to_string debug host 3000 3100
        (codes "op-3")
        (some 7)
        ufw_status
        (quiet tables)).conn
      ≡ quiet u)
    × IsRecorded to_string debug host 3000 3100 (codes "op-3") (some 7) ufw_status tables u
unfolding text_eq
execute_audited-IsRecorded_example =
    execute_audited-IsRecorded to_string debug host 3000 3100 (codes "op-3") (some 7) ufw_status
      tables tables-IsSound refl
