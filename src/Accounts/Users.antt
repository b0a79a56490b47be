-- ===== src/Accounts/Users.antt =====
-- src/models/user/mod.rs: reading a user, and setting the count of failed logins.
use rust_panel.Errors.{CommonError, io_error, service_unavailable}
use rust_panel.Accounts.Tables.{User, Tables, change}
use rust_panel.Prelude.{some, true, ℕ, Bool, ◌==◌, Option, codes, ◌++◌, find_first, map}
use rust_panel.Db.{◌>>◌, Db, acquire, update, query, pure}

abbrev pub has_id : ℕ → User → Bool
has_id id u = u.id == id

-- `find_user_by_id`, on a connection of its own; NotFound is `none`
unfoldable pub find_user_by_id : ℕ → Db Tables CommonError (Option User)
find_user_by_id id = do
  acquire (λ _. service_unavailable (codes "Authentication database unavailable"))
  query (λ m. io_error (codes "Database error: " ++ m)) (λ t. find_first (has_id id) t.users)

-- `find_user_update_error_count`
unfoldable pub find_user_update_error_count : ℕ → ℕ → Db Tables CommonError (Option Bool)
find_user_update_error_count id n = do
  update (λ m. io_error (codes "Database error: " ++ m))
      (λ t. (
        tt,
        record t { users = map (change (has_id id) (λ u. record u { error_count = n })) t.users },
      ))
  pure (some true)
