-- ===== src/Accounts/Sessions/Lifetime.antt =====
-- How long a session lasts, and that purging changes no answer.
use mathlib.Core.Option
use rust_panel.Prelude.{
  refl, [], ◌∷◌, true, false, List, retain, ◌<◌, any, ◌+◌, ap, ◌∙◌, sym, Bool-cases, text_eq_refl,
  ◌++◌, find_first-append, find_first_of_any-eq-false, subst, text_eq_iff,
}
use rust_panel.Errors.{CommonError, invalid_credentials}
use rust_panel.Accounts.Sessions.{
  validate_session, Option, query, Session, require, fail_when, find_first, CommonError, has_hash,
  invalid_credentials, is_live, not, is_past, create_session, purge_expired, retain, any, is_purged,
  update, session_constraint, SessionRecord,
}
use rust_panel.Accounts.Tables.{Clock, Tables, Session}
use rust_panel.Prelude.{
  none, some, ok, err, inl, inr, Text, ℕ, Option, Result, find_first, ◌≡◌, Option-cases,
  if◌then◌else◌, arith, ◌==◌, ◌&&◌, not,
}
use rust_panel.Db.{
  ◌>>=◌, ◌>>◌, query, require, fail_when, quiet, constrained, update, reply, tables_after,
}

-- What `validate_session` answers for the row that is found, if any.
abbrev pub verdict : Clock → ℕ → Option Session → Result CommonError (Unit {0})
verdict now user_id none = err invalid_credentials
verdict now user_id (some s) =
    if s.user_id == user_id && is_live s && not (is_past s.expires_at now)
    then ok tt
    else err invalid_credentials

module _ (hash_jti : Text → Text) where
  -- the row that a token's hash finds
  abbrev pub row_of : Tables → Text → Option Session
  row_of t jti = find_first (has_hash (hash_jti jti)) t.sessions

  -- Where the database answers, the check is the verdict on the row that is found.
  pub validate_session-eq-verdict :
      (now : Clock) (jti : Text) (user_id : ℕ) (t : Tables)
      → validate_session hash_jti now jti user_id (quiet t)
        ≡ (verdict now user_id (row_of t jti), quiet t)
  unfolding validate_session query require fail_when ◌>>=◌ ◌>>◌
  validate_session-eq-verdict now jti user_id t = elim (Option-cases (row_of t jti)) [
    | inl missing ↦ ground arith
    | inr (s, found) ↦ ground arith
  ]

  -- the row of a new session, and the tables with it
  abbrev pub session_row : Text → Clock → ℕ → ℕ → Option Text → Option Text → Session
  session_row jti now user_id ttl ip ua = record {
    jti_hash = hash_jti jti;
    user_id = user_id;
    issued_at = now.unix;
    expires_at = now.unix + ttl;
    revoked_at = none;
    ua_hash = Option.map hash_jti ua;
    ip = ip;
  }

  abbrev pub opened : Session → Tables → Tables
  opened row t = record t { sessions = t.sessions ++ row ∷ [] }

  pub create_session-quiet :
      (jti : Text) (now : Clock) (user_id ttl : ℕ) (ip ua : Option Text) (t : Tables)
      → session_constraint (hash_jti jti) user_id t ≡ none
      → create_session hash_jti jti now user_id ttl ip ua (quiet t) ≡ (
        ok (record { user_id = user_id; jti = jti; expires_at_unix = now.unix + ttl }),
        quiet (opened (session_row jti now user_id ttl ip ua) t),
      )
  unfolding create_session constrained ◌>>◌ ◌>>=◌
  create_session-quiet jti now user_id ttl ip ua t free = ground arith

  -- where no session has its hash, the new one is found
  pub row_of-opened :
      (jti : Text) (now : Clock) (user_id ttl : ℕ) (ip ua : Option Text) (t : Tables)
      → session_constraint (hash_jti jti) user_id t ≡ none
      → row_of (opened (session_row jti now user_id ttl ip ua) t) jti
        ≡ some (session_row jti now user_id ttl ip ua)
  row_of-opened jti now user_id ttl ip ua t free =
      find_first-append (has_hash (hash_jti jti)) t.sessions
        (session_row jti now user_id ttl ip ua ∷ []) (ground arith)
      ∙ (unfold find_first in ground (arith, text_eq_refl (hash_jti jti)))

  -- A created session is accepted for its user until its end, and for no other user.
  pub create_session-validate :
      (jti : Text) (now later : Clock) (user_id ttl : ℕ) (ip ua : Option Text) (other : ℕ)
      (t : Tables)
      → session_constraint (hash_jti jti) user_id t ≡ none
      → is_past (now.unix + ttl) later ≡ false
      → (r : SessionRecord) × (u : Tables) × (create_session hash_jti jti now user_id ttl ip ua
            (quiet t)
          ≡ (ok r, quiet u))
        × (r.jti ≡ jti)
        × (r.expires_at_unix ≡ now.unix + ttl)
        × (reply (validate_session hash_jti later jti other) (quiet u)
            ≡ (if user_id == other then ok tt else err invalid_credentials))
  create_session-validate jti now later user_id ttl ip ua other t free current = (
    record { user_id = user_id; jti = jti; expires_at_unix = now.unix + ttl },
    opened (session_row jti now user_id ttl ip ua) t,
    create_session-quiet jti now user_id ttl ip ua t free,
    refl,
    refl,
    ap (λ x. x.0)
          (validate_session-eq-verdict later jti other
            (opened (session_row jti now user_id ttl ip ua) t))
        ∙ ground (arith, row_of-opened jti now user_id ttl ip ua t free),
  )

  -- no hash stands twice: the UNIQUE constraint of the table
  abbrev pub HashesDistinct : List Session → Type 0
  HashesDistinct [] = Unit
  HashesDistinct (s ∷ ss) = (any (has_hash s.jti_hash) ss ≡ false) × HashesDistinct ss

  purged_verdict :
      (now later : Clock) (user_id : ℕ) (s : Session)
      → now.unix < later.unix
      → is_purged now s ≡ true
      → verdict later user_id (some s) ≡ err invalid_credentials
  purged_verdict now later user_id s after gone = elim (Option-cases s.revoked_at) [
    | inl live ↦ ground arith
    | inr (at, revoked) ↦ ground arith
  ]

  purge_verdict :
      (now later : Clock) (user_id : ℕ) (h : Text) (ss : List Session)
      → now.unix < later.unix
      → HashesDistinct ss
      → verdict later user_id (find_first (has_hash h) (retain (λ s. not (is_purged now s)) ss))
        ≡ verdict later user_id (find_first (has_hash h) ss)
  unfolding find_first retain
  purge_verdict now later user_id h [] after d = refl
  purge_verdict now later user_id h (s ∷ ss) after d =
      let rest = purge_verdict now later user_id h ss after d.1 in
      elim (Bool-cases (has_hash h s)) [
        | inl here ↦ elim (Bool-cases (is_purged now s)) [
          | inl gone ↦ ground (arith, purged_verdict now later user_id s after gone, absent here)
          | inr kept ↦ ground arith
        ]
        | inr other ↦ ground arith
      ]
    where
      absent : has_hash h s ≡ true → find_first (has_hash h) ss ≡ none
      absent here =
          find_first_of_any-eq-false (has_hash h) ss
            (subst (λ g. any (has_hash g) ss ≡ false) ((text_eq_iff s.jti_hash h).0 here) d.0)

  -- Purging the expired and the long revoked sessions changes no answer that a token gets from the next
  -- second on, where no hash stands twice.
  pub purge_expired-validate :
      (now later : Clock) (jti : Text) (user_id : ℕ) (t : Tables)
      → now.unix < later.unix
      → HashesDistinct t.sessions
      → reply
          (validate_session hash_jti later jti user_id)
          (quiet (tables_after (purge_expired now) (quiet t)))
        ≡ reply (validate_session hash_jti later jti user_id) (quiet t)
  unfolding purge_expired update
  purge_expired-validate now later jti user_id t after d =
      ap (λ x. x.0) (validate_session-eq-verdict later jti user_id _)
      ∙ purge_verdict now later user_id (hash_jti jti) t.sessions after d
      ∙ sym (ap (λ x. x.0) (validate_session-eq-verdict later jti user_id t))
