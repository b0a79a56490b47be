-- ===== src/Audit/Tables.antt =====
-- src/repository/sql/005_audit.sql: the rows of the audit tables, and the types of src/audit/store.rs. A table
-- is the list of its rows by ascending rowid, which is how SQLite keeps it. Ids are natural numbers, numbers
-- from AUTOINCREMENT; times are milliseconds since 1970, which the text columns print in an order-preserving
-- way. The bundled SQLite enforces foreign keys.
use rust_panel.Prelude.{true, false, ◌++◌}
use rust_panel.Prelude.{Bool, List, Option, Text, codes, ℕ}
use rust_panel.Prelude.Int.{ℤ}
use rust_panel.Audit.Mask.{Value}

pub data AuditError : Type 0 where
  unavailable refused : Text → AuditError

-- `AuditError::message`
unfoldable pub message : AuditError → Text
message (unavailable m) = m
message (refused m) = m

-- the status of an intent
pub data Status : Type 0 where
  pending executed failed rejected unknown : Status

pub data Outcome : Type 0 where
  success failure rejection timeout : Outcome

-- `Outcome::as_str`
unfoldable pub as_str : Outcome → Text
as_str success = codes "success"
as_str failure = codes "failure"
as_str rejection = codes "rejected"
as_str timeout = codes "timeout"

pub record IntentSpec : Type 0 where
  pub operation_id : Text
  pub actor_id : Option ℕ
  pub request_id : Option Text
  pub action : Text
  pub resource : Option Text
  pub params : Value
  pub ip : Option Text

pub record IntentHandle : Type 0 where
  pub id : ℕ
  pub operation_id : Text

pub record Intent : Type 0 where
  pub id : ℕ
  pub operation_id : Text
  pub actor_id : Option ℕ
  pub request_id : Option Text
  pub action : Text
  pub resource : Option Text
  pub params_masked : Text
  pub ip : Option Text
  pub status : Status
  pub created_at : ℕ

pub record Event : Type 0 where
  pub id : ℕ
  pub intent_id : ℕ
  pub operation_id : Text
  pub outcome : Outcome
  pub exit_code : Option ℤ
  pub detail_masked : Text
  pub duration_ms : Option ℕ
  pub created_at : ℕ

pub record Delivery : Type 0 where
  pub id : ℕ
  pub event_id : ℕ
  pub attempts : ℕ
  pub next_retry_at : Option ℕ
  pub delivered_at : Option ℕ
  pub last_error : Option Text
  pub created_at : ℕ

-- `OutboxRow`: a row of the outbox joined with its event
pub record OutboxRow : Type 0 where
  pub id : ℕ
  pub event_id : ℕ
  pub attempts : ℕ
  pub operation_id : Text
  pub outcome : Outcome

-- The tables, the highest id that each has given (`sqlite_sequence`), the connection's last rowid, and the lines
-- that the panel log got for the outbox.
pub record AuditTables : Type 0 where
  pub intents : List Intent
  pub events : List Event
  pub outbox : List Delivery
  pub intent_seq : ℕ
  pub event_seq : ℕ
  pub outbox_seq : ℕ
  pub last_insert_rowid : ℕ
  pub delivered_log : List OutboxRow

abbrev pub is_pending : Status → Bool
is_pending pending = true
is_pending _ = false

-- how a failed `BEGIN` or `COMMIT` comes out: `AuditError::from`
abbrev pub transaction_failed : Text → AuditError
transaction_failed m = unavailable (codes "database error: " ++ m)

abbrev pub pool_failed : Text → AuditError
pool_failed m = unavailable (codes "audit database unavailable: " ++ m)
