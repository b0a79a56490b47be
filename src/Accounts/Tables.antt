-- ===== src/Accounts/Tables.antt =====
-- The rows of src/repository/sql/001 to 008 that the account code reads and writes, as
-- src/models/structure/rp_users.rs and the row types of src/service/ name their columns. A table is the list
-- of its rows. Row ids are natural numbers; times are seconds since 1970, which the text columns print in an
-- order-preserving way.
use rust_panel.Prelude.Int.{ℤ}
use rust_panel.Prelude.{none, some, true, false, Bool, List, Option, Text, ℕ, if◌then◌else◌}

pub record User : Type 0 where
  pub id : ℕ
  pub username : Text
  pub password : Text
  pub salt : Text
  pub authority : Text
  pub error_count : ℕ
  pub status : ℤ
  pub created_at : ℕ
  pub updated_at : ℕ
  pub password_algo : Text
  pub must_change_password : ℕ
  pub token_version : ℕ

pub record Session : Type 0 where
  pub jti_hash : Text
  pub user_id : ℕ
  pub issued_at : ℕ
  pub expires_at : ℕ
  pub revoked_at : Option ℕ
  pub ua_hash : Option Text
  pub ip : Option Text

pub record Ticket : Type 0 where
  pub jti : Text
  pub user_id : ℕ
  pub stream : Text
  pub expires_at_unix : ℕ
  pub consumed_at_unix : Option ℕ
  pub created_at : ℕ
  pub session_hash : Text
  pub token_version : ℕ
  pub access_expires_at_unix : ℕ

-- a role or a permission: its id and its code
pub record Coded : Type 0 where
  pub id : ℕ
  pub code : Text

pub record Tables : Type 0 where
  pub users : List User
  pub sessions : List Session
  pub tickets : List Ticket
  pub roles : List Coded
  pub permissions : List Coded
  -- (role, permission)
  pub role_permissions : List (ℕ × ℕ)
  -- (user, role)
  pub user_roles : List (ℕ × ℕ)

-- A reading of the clock: whole seconds, and the nanoseconds above them.
pub record Clock : Type 0 where
  pub unix : ℕ
  pub nanos : ℕ

abbrev pub is_none : {A : Type 0} → Option A → Bool
is_none none = true
is_none (some a) = false

-- an `UPDATE` of the rows that pass a test, with their number
abbrev pub change : {A : Type 0} → (A → Bool) → (A → A) → A → A
change p f r = if p r then f r else r
