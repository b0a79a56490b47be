-- ===== src/Lib.antt =====
-- RustPanel: the code that decides who may do what on the host.
--
-- The panel is a web server for the management of one Linux host. A user logs in with a name and a password
-- (src/api/v1/login.rs, src/service/password.rs) past a limiter of failed attempts (src/service/rate_limit.rs)
-- and gets a token for a session (src/service/sessions.rs). Every request is resolved from its token to a user
-- (src/api/auth.rs), and its permissions from the role rows (src/service/rbac.rs). The stream of monitoring data
-- is opened with a one-time ticket (src/service/sse_tickets.rs). Commands on the host are a closed list of actions,
-- checked and run by the privileged runner (src/privileged/) under a record of the audit (src/audit/), whose events
-- an outbox delivers. Files are read and written under managed roots only (src/service/path_bounds.rs).
--
-- Prelude: shared names; texts, lists, results, numbers in decimal, and maps. A text is the list of its code
--   points, with `byte_len` for the length in UTF-8. A HashMap is an association list in any order.
-- Privileged/Action, Validate, Command: src/privileged/action.rs, validate.rs and runner.rs. Functions keep their
--   names. A rejection is a constructor with the text that is printed in it. The host, what a process does within
--   its timeout, is a parameter of `execute`, which also returns the commands that it started.
-- RateLimit: src/service/rate_limit.rs. `record_failure` of the limiter is `record_login_failure`; the two bucket
--   types are two records, and the trait Evictable is a record of functions. Instants are nanoseconds.
-- Errors: src/errors/common.rs. Db: the connection, on which each statement, and each BEGIN, COMMIT and checkout of
--   a pool, is answered or fails by a list of faults; `transaction` rolls back. Theorems that begin with `Ensures`
--   hold for every list of faults; `quiet` is a connection without one.
-- Accounts/Tables, Users, Sessions, Rbac, Tickets, Auth, Login, SignIn: the rows of src/repository/sql/,
--   src/models/user/mod.rs and the services and handlers above. `query` of login.rs is `check_login`, and its
--   other handlers stand in SignIn; the two extractors of auth.rs are `auth_user` and `admin_user`.
-- Accounts/Passwords, Admin: `change_password` of src/api/v1/user.rs, and src/api/v1/admin.rs.
-- Audit/Mask, Tables, Intents, Outbox, Upkeep: src/audit/mask.rs and store.rs over the tables of
--   src/repository/sql/005_audit.sql, with ids from AUTOINCREMENT and enforced foreign keys; functions keep their
--   names, and Integrity is their invariant. Audit/Audited: src/privileged/audited.rs over the runner. The sink of the
--   outbox is the panel log, a list. JSON texts, the Debug form of a text and the fresh operation id are arguments.
-- Paths/Lexical, Resolve, Open, Write: src/service/path_bounds.rs. A path is the list of its components, as std::path
--   compares paths on Unix. Resolve and Open ask the operating system by a record of functions, of which nothing
--   is supposed. Write is the write on Linux, as system calls on the entries of one directory, each of which may fail; an
--   entry knows whether it is synced. The rest of `open_bound_file` after the pinned opening is also met on Linux.
-- Migrations: src/repository/migrations.rs. The tables other than the history, what a script does to them and the
--   columns of `rp_users` are parameters; `apply_turn` is the body of the loop of `apply_pending`.
-- Csrf: src/api/csrf.rs, the check of Origin and Referer on requests that carry the session cookie.
--
-- Conventions: an operation reads the clock once, and takes the reading as an argument; the text columns of times
-- are numbers of seconds, since their format keeps the order. Row ids and counters are natural numbers, as SQLite
-- assigns them; an i32 of a token is parsed with its sign and its bounds. Random ids and hashes are arguments.
-- SHA-256, SHA-1, Argon2, SM4, jsonwebtoken and the translated messages are parameters. All recursion is structural,
-- but for the printing of a number, on fuel that the number bounds.
--
-- Not modelled: the handlers of files, docker, web servers and installers, which call the host; secrets, bind policy
-- and maintenance; the write of a file that is not of Linux; a file system that changes between two questions of one
-- resolution; listings; configuration, logging and start-up; what the SQL scripts do to the tables; the JavaScript under public/.
pub mod Prelude
pub mod Privileged
pub mod RateLimit
pub mod Errors
pub mod Db
pub mod Accounts
pub mod Csrf
pub mod Audit
pub mod Paths
pub mod Migrations
