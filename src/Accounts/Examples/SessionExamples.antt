-- ===== src/Accounts/Examples/SessionExamples.antt =====
-- The theorems on sessions at concrete tables.
use rust_panel.Accounts.Sessions.Revocation.{revoke_session-validate}
use rust_panel.Accounts.Sessions.Lifetime.{HashesDistinct}
use rust_panel.Accounts.Examples.{at, hash, codes, tables}
use rust_panel.Accounts.Sessions.{revoke_session, validate_session, session_constraint}
use rust_panel.Prelude.{refl, none, text_eq, codes, ◌≡◌}
use rust_panel.Db.Ensures.{Ensures}

revoke_session-validate_example :
    Ensures
      (revoke_session hash (at 200) (codes "j1"))
      tables
      (λ _ u. Ensures (validate_session hash (at 201) (codes "j1") 1) u (λ _ _. ⊥))
revoke_session-validate_example =
    revoke_session-validate hash (at 200) (at 201) (codes "j1") 1 tables

new_session_free : session_constraint (codes "j2") 1 tables ≡ none
unfolding text_eq
new_session_free = refl

hashes_distinct : HashesDistinct hash tables.sessions
unfolding text_eq
hashes_distinct = (refl, (refl, tt))
