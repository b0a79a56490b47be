-- ===== src/Accounts/Sessions/Revocation.antt =====
-- What ends a session, and what does not.
use rust_panel.Db.Steps.{reading, having, checking}
use rust_panel.Db.Ensures.{Ensures, ensures-pure, ensures-update, ensures-imp}
use rust_panel.Accounts.Tables.{Tables, Clock, Session, change}
use rust_panel.Accounts.Sessions.{
  validate_session, Clock, ℕ, Session, find_first, has_hash, is_live, is_past, Bool,
  revoke_all_for_user, revoke_session, map, change, not,
}
use rust_panel.Prelude.{
  refl, some, true, false, Text, ℕ, find_first, ◌≡◌, ◌==◌, arith, Bool, map, ◌&&◌, find_first-map,
  not,
}

-- What the rows must hold for `validate_session` to accept a token.
pub record IsValid (hash_jti : Text → Text) (t : Tables) (now : Clock) (jti : Text) (user_id : ℕ)
    : Type 0 where
  pub row : Session
  pub found : find_first (has_hash (hash_jti jti)) t.sessions ≡ some row
  pub owner : (row.user_id == user_id) ≡ true
  pub live : is_live row ≡ true
  pub current : is_past row.expires_at now ≡ false

module _ (hash_jti : Text → Text) where
  -- A token is accepted only for a session that is on record under its hash, belongs to the expected user,
  -- is not revoked and is not past its end; checking it changes nothing.
  pub validate_session-IsValid :
      (now : Clock) (jti : Text) (user_id : ℕ) (t : Tables)
      → Ensures
          (validate_session hash_jti now jti user_id)
          t
          (λ _ u. IsValid hash_jti t now jti user_id × (u ≡ t))
  unfolding validate_session
  validate_session-IsValid now jti user_id t = reading _ _ _ (
      having _ _ _ λ row found. checking _ _ _ λ owner. checking _ _ _ λ live.
        checking _ _ _ λ current. ensures-pure tt t _ (
          record {
            row = row;
            found = found;
            owner = ground arith;
            live = ground arith;
            current = current;
          },
          refl,
        ))

  -- the tables after a revocation, of one token or of a user
  abbrev revoked : (Session → Bool) → ℕ → Tables → Tables
  revoked p at t = record t {
    sessions =
        map (change (λ s. p s && is_live s) (λ s. record s { revoked_at = some at })) t.sessions;
  }

  -- A revoked row is not a live one of the user.
  revoked_row :
      (p : Session → Bool) (at : ℕ) (jti : Text) (user_id : ℕ) (s : Session)
      → (has_hash (hash_jti jti) s ≡ true → (s.user_id == user_id) ≡ true → p s ≡ true)
      → has_hash
          (hash_jti jti)
          (change (λ s. p s && is_live s) (λ s. record s { revoked_at = some at }) s)
        ≡ true
      → not (
          (change (λ s. p s && is_live s) (λ s. record s { revoked_at = some at }) s).user_id
            == user_id
          && is_live (change (λ s. p s && is_live s) (λ s. record s { revoked_at = some at }) s))
        ≡ true
  revoked_row p at jti user_id s covers h = ground arith

  not-IsValid-revoked :
      (p : Session → Bool) (at : ℕ) (t : Tables) (now : Clock) (jti : Text) (user_id : ℕ)
      → ((s : Session)
          → has_hash (hash_jti jti) s ≡ true
          → (s.user_id == user_id) ≡ true
          → p s ≡ true)
      → ¬ IsValid hash_jti (revoked p at t) now jti user_id
  not-IsValid-revoked p at t now jti user_id covers v =
      let ended =
        find_first-map (has_hash (hash_jti jti)) (λ s. not (s.user_id == user_id && is_live s))
          (change (λ s. p s && is_live s) (λ s. record s { revoked_at = some at })) t.sessions
          (λ s h. revoked_row p at jti user_id s (covers s) h) v.found in
      ground arith

  -- Once a token is revoked no check of it succeeds, for any user and at any time.
  pub revoke_session-validate :
      (at now : Clock) (jti : Text) (user_id : ℕ) (t : Tables)
      → Ensures
          (revoke_session hash_jti at jti)
          t
          (λ _ u. Ensures (validate_session hash_jti now jti user_id) u (λ _ _. ⊥))
  unfolding revoke_session
  revoke_session-validate at now jti user_id t = ensures-update _ _ t _ (
      ensures-imp
        (λ _ u v.
          not-IsValid-revoked (has_hash (hash_jti jti)) at.unix t now jti user_id (λ s h _. h) v.0)
        (validate_session-IsValid now jti user_id (revoked (has_hash (hash_jti jti)) at.unix t)))

  -- No token is accepted for the user.
  abbrev pub IsSignedOut : ℕ → Tables → Type 0
  IsSignedOut id u =
      (now : Clock) (jti : Text) → Ensures (validate_session hash_jti now jti id) u (λ _ _. ⊥)

  pub revoke_all-IsSignedOut :
      (at : Clock) (user_id : ℕ) (t : Tables)
      → Ensures (revoke_all_for_user at user_id) t (λ _ u. IsSignedOut user_id u)
  unfolding revoke_all_for_user
  revoke_all-IsSignedOut at user_id t = ensures-update _ _ t _ (λ now jti.
      ensures-imp
        (λ _ u v.
          not-IsValid-revoked (λ s. s.user_id == user_id) at.unix t now jti user_id (λ s _ h. h)
            v.0)
        (validate_session-IsValid now jti user_id (revoked (λ s. s.user_id == user_id) at.unix t)))

  -- Once all sessions of a user are revoked no check succeeds for that user, of any token and at any time.
  pub revoke_all-validate :
      (at now : Clock) (jti : Text) (user_id : ℕ) (t : Tables)
      → Ensures
          (revoke_all_for_user at user_id)
          t
          (λ _ u. Ensures (validate_session hash_jti now jti user_id) u (λ _ _. ⊥))
  revoke_all-validate at now jti user_id t =
      ensures-imp (λ _ u out. out now jti) (revoke_all-IsSignedOut at user_id t)
