-- ===== src/Db.antt =====
-- Access to the SQLite database. An operation runs on a connection: the tables, and what will become of
-- the statements to come, for each whether it is answered or fails with a message of the driver (a busy
-- database, a full disk, an exhausted pool). When that list is used up, statements are answered.
pub mod Rules
pub mod Ensures
pub mod Steps
pub mod Keeps
pub mod Quiet
pub mod Safe
pub mod Whole
use rust_panel.Prelude.{[], ◌∷◌, none, some, ok, err, true, false, Bool, List, Option, Result, Text}
use Prim.Native.Nat.{ℕ}

pub record Conn (S : Type 0) : Type 0 where
  pub tables : S
  pub faults : List (Option Text)

abbrev pub Db : Type 0 → Type 0 → Type 0 → Type 0
Db S E A = Conn S → Result E A × Conn S

abbrev pub pure : {S E A : Type 0} → A → Db S E A
pure a c = (ok a, c)

abbrev pub throw : {S E A : Type 0} → E → Db S E A
throw e c = (err e, c)

abbrev pub continue :
    {S E A B : Type 0} → (A → Db S E B) → Result E A × Conn S → Result E B × Conn S
continue f (ok a, c) = f a c
continue f (err e, c) = (err e, c)

infixl 5 ◌>>=◌ ◌>>◌
unfoldable pub ◌>>=◌ : {S E A B : Type 0} → Db S E A → (A → Db S E B) → Db S E B
◌>>=◌ m f c = continue f (m c)

unfoldable pub ◌>>◌ : {S E B : Type 0} → Db S E (Unit {0}) → Db S E B → Db S E B
unfolding ◌>>=◌
m >> k = m >>= λ _. k

-- `if test { return Err(e) }`
unfoldable pub fail_when : {S E : Type 0} → Bool → E → Db S E (Unit {0})
fail_when true e = throw e
fail_when false e = pure tt

-- `ok_or_else`
unfoldable pub require : {S E A : Type 0} → Option A → E → Db S E A
require none e = throw e
require (some a) e = pure a

-- the next entry of the list of faults
abbrev pub spend : {S E A : Type 0} → (Text → E) → Db S E A → Db S E A
spend e run c = elim c.faults [
  | [] ↦ run c
  | none ∷ rest ↦ run (record c { faults = rest })
  | some m ∷ rest ↦ (err (e m), record c { faults = rest })
]

-- a `SELECT`, with what a failure of it is mapped to
unfoldable pub query : {S E A : Type 0} → (Text → E) → (S → A) → Db S E A
query e f = spend e (λ c. (ok (f c.tables), c))

-- an `UPDATE`, `INSERT` or `DELETE`, with the number of rows that it changed
unfoldable pub update : {S E A : Type 0} → (Text → E) → (S → A × S) → Db S E A
update e f = spend e (λ c. (ok (f c.tables).0, record c { tables = (f c.tables).1 }))

-- An `INSERT` or `DELETE` under a constraint: the message of the constraint that it would break, if any,
-- is a failure like the driver's.
unfoldable pub constrained :
    {S E A : Type 0} → (Text → E) → (S → Option Text) → (S → A × S) → Db S E A
constrained e broken f = spend e (λ c. elim (broken c.tables) [
  | some m ↦ (err (e m), c)
  | none ↦ (ok (f c.tables).0, record c { tables = (f c.tables).1 })
])

-- `pool.get()`
unfoldable pub acquire : {S E : Type 0} → (Text → E) → Db S E (Unit {0})
acquire e = spend e (λ c. (ok tt, c))

-- The end of a transaction: COMMIT, or ROLLBACK to the tables that it began with.
unfoldable pub finish :
    {S E A : Type 0} → (Text → E) → S → Result E A × Conn S → Result E A × Conn S
finish e before (err x, c) = (err x, record c { tables = before })
finish e before (ok a, c) = elim c.faults [
  | [] ↦ (ok a, c)
  | none ∷ rest ↦ (ok a, record c { faults = rest })
  | some m ∷ rest ↦ (err (e m), record { tables = before; faults = rest })
]

-- `conn.transaction` and `conn.immediate_transaction`
unfoldable pub transaction : {S E A : Type 0} → (Text → E) → Db S E A → Db S E A
unfolding finish
transaction e body = spend e (λ c. finish e c.tables (body c))

abbrev pub relabel : {S E F A : Type 0} → (E → F) → Result E A × Conn S → Result F A × Conn S
relabel f (ok a, c) = (ok a, c)
relabel f (err e, c) = (err (f e), c)

-- `map_err`
unfoldable pub map_err : {S E F A : Type 0} → (E → F) → Db S E A → Db S F A
map_err f m c = relabel f (m c)

-- What an operation answers, and the tables that it leaves.
abbrev pub reply : {S E A : Type 0} → Db S E A → Conn S → Result E A
reply m c = (m c).0

abbrev pub tables_after : {S E A : Type 0} → Db S E A → Conn S → S
tables_after m c = (m c).1.tables

-- a connection on which every statement is answered
abbrev pub quiet : {S : Type 0} → S → Conn S
quiet t = record { tables = t; faults = [] }
