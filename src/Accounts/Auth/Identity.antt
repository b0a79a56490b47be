-- ===== src/Accounts/Auth/Identity.antt =====
-- What a request must show to pass, and that a raised token version shuts out the older tokens.
use rust_panel.Accounts.Rbac.Granted.{is_granted, require_perm-is_granted}
use rust_panel.Prelude.{
  true, sym, ℕ, Bool, arith, ◌+◌, ◌∙◌, ap, find_first-map_eq, find_first-some, subst, map,
}
use rust_panel.Accounts.Sessions.{validate_session, bump_token_version}
use rust_panel.Accounts.Sessions.Revocation.{IsValid, validate_session-IsValid}
use rust_panel.Prelude.Decimal.{parse_i32}
use rust_panel.Accounts.Users.{find_user_by_id, has_id}
use rust_panel.Prelude.Int.{ℤ, pos, eq_ℤ_iff}
use rust_panel.Accounts.Tables.{Clock, Tables, User, change}
use rust_panel.Accounts.Auth.{
  session_user, Claims, Clock, Tables, authenticate_token, ℤ, AuthUser, find_user_by_id, parse_i32,
  pos, find_first, validate_session, pure, not, negsuc, admin_user, auth_user, ℕ, Bool, bearer,
  path_allows_must_change, user_admin,
}
use rust_panel.Prelude.{refl, some, Text, Option, ◌≡◌, find_first, not, ◌==◌}
use rust_panel.Db.Steps.{reading, having, checking, connecting, keeping, changing, guarding}
use rust_panel.Db.Ensures.{
  Ensures, ensures-pure, ensures->>, ensures-imp, ensures-throw, ensures-map_err, ensures-query,
}
use rust_panel.Db.{pure}

-- What the tables hold when a token is accepted for a user: a valid session for the id that the token names,
-- and that user's row, enabled and of the token's version.
pub record IsAuthenticated (hash_jti : Text → Text) (claims : Option Claims) (now : Clock)
    (t : Tables) (a : AuthUser) : Type 0 where
  pub token : Claims
  pub decoded : claims ≡ some token
  pub named : parse_i32 token.sub ≡ some (pos a.id)
  pub session : IsValid hash_jti t now token.jti a.id
  pub user : User
  pub found : find_first (has_id a.id) t.users ≡ some user
  pub enabled : user.status ≡ pos 0
  pub version : token.ver ≡ pos user.token_version
  pub obliged : a.must_change_password ≡ not (user.must_change_password == 0)

module _ (hash_jti : Text → Text) where
  session_user-IsValid :
      (now : Clock) (jti : Text) (sub : ℤ) (t : Tables)
      → Ensures
          (session_user hash_jti now jti sub)
          t
          (λ id u. ((sub ≡ pos id) × IsValid hash_jti t now jti id) × (u ≡ t))
  unfolding session_user
  session_user-IsValid now jti (pos id) t =
      ensures->> (validate_session hash_jti now jti id) (pure id) t _ (
        ensures-imp (λ _ u v. ensures-pure id u _ ((refl, v.0), v.1))
          (validate_session-IsValid hash_jti now jti id t))
  session_user-IsValid now jti (negsuc id) t =
      reading _ _ _ (having _ _ _ λ row found. ensures-throw _ t _)

  named_row :
      (id : ℕ) (t : Tables) {user : User}
      → find_first (has_id id) t.users ≡ some user
      → id ≡ user.id
  named_row id t {user} found = ground (arith, find_first-some (has_id id) t.users found)

  module _ (decode_jwt : Text → Option Claims) where
    authenticate_token-IsAuthenticated :
        (now : Clock) (token : Text) (t : Tables)
        → Ensures
            (authenticate_token hash_jti decode_jwt now token)
            t
            (λ a u. IsAuthenticated hash_jti (decode_jwt token) now t a × (u ≡ t))
    unfolding authenticate_token find_user_by_id
    authenticate_token-IsAuthenticated now token t = having _ _ _ λ claims decoded.
        having _ _ _ λ sub parsed. connecting _ _ (
          keeping _ _ _ (session_user-IsValid now claims.jti sub t) λ id checked.
            keeping (λ o. o ≡ find_first (has_id id) t.users) _ _
              (ensures-map_err _ _ t _ (connecting _ _ (ensures-query _ _ t _ (refl, refl))))
              λ o row. having _ _ _ λ user found. checking _ _ _ λ met. ensures-pure _ t _ (
                let same = named_row id t (sym row ∙ found) in
                    record {
                      token = claims;
                      decoded = decoded;
                      named = parsed ∙ ap some (checked.0 ∙ ap pos same);
                      session = subst (IsValid hash_jti t now claims.jti) same checked.1;
                      user = user;
                      found =
                          subst (λ i. find_first (has_id i) t.users ≡ some user) same
                            (sym row ∙ found);
                      enabled = (eq_ℤ_iff user.status (pos 0)).0 (ground arith);
                      version =
                          sym ((eq_ℤ_iff (pos user.token_version) claims.ver).0 (ground arith));
                      obliged = refl;
                    },
                refl,
              ))

    -- A request passes only with a token that decodes, names a user with a valid session under its `jti`, is of
    -- the version of that user's enabled row, and, where the user must change the password, only on the paths
    -- that are open for that. The check changes nothing.
    pub auth_user-IsAuthenticated :
        (now : Clock) (header : Option Text) (registered : Bool) (path : Text) (t : Tables)
        → Ensures (auth_user hash_jti decode_jwt now header registered path) t (λ a u.
          ((value : Text) × (header ≡ some value)
            × IsAuthenticated hash_jti (decode_jwt (bearer value)) now t a
            × (a.must_change_password ≡ true → path_allows_must_change path ≡ true))
          × (u ≡ t))
    unfolding auth_user
    auth_user-IsAuthenticated now header registered path t = having _ _ _ λ value given.
        checking _ _ _ λ _. connecting _ _ (
          keeping _ _ _ (authenticate_token-IsAuthenticated now (bearer value) t) λ a valid.
            checking _ _ _
              λ open_path. ensures-pure a t _ ((value, given, valid, ground arith), refl))

    -- An administrator's request passes only with such a token, of a user with a valid session and an enabled row
    -- of the token's version, to whom the roles grant the permission `user:admin`. The check changes nothing.
    pub admin_user-is_granted :
        (now : Clock) (header : Option Text) (registered : Bool) (path : Text) (t : Tables)
        → Ensures (admin_user hash_jti decode_jwt now header registered path) t (λ a u.
          ((value : Text) × (header ≡ some value)
            × IsAuthenticated hash_jti (decode_jwt (bearer value)) now t a
            × (is_granted t a.id user_admin ≡ true))
          × (u ≡ t))
    unfolding admin_user
    admin_user-is_granted now header registered path t =
        keeping _ _ _ (auth_user-IsAuthenticated now header registered path t) λ a valid.
          checking _ _ _ λ _.
            guarding _ _ _ (require_perm-is_granted t a.id user_admin)
              λ granted. ensures-pure a t _ ((valid.0, valid.1, valid.2, granted), refl)

    abbrev raised : ℕ → Tables → Tables
    raised user_id t = record t {
      users =
          map (change (has_id user_id) (λ u. record u { token_version = u.token_version + 1 }))
            t.users;
    }

    -- A token of the version before does not name the row any more.
    outdated :
        (user_id : ℕ) (t : Tables) (user : User) (decoding : Option Claims) (claims : Claims)
        (now : Clock) (a : AuthUser)
        → find_first (has_id user_id) t.users ≡ some user
        → decoding ≡ some claims
        → parse_i32 claims.sub ≡ some (pos user_id)
        → claims.ver ≡ pos user.token_version
        → ¬ IsAuthenticated hash_jti decoding now (raised user_id t) a
    outdated user_id t user decoding claims now a found decoded named version v =
        let token : v.token ≡ claims = ground (arith, v.decoded) in
        let id : a.id ≡ user_id = ground (arith, v.named, ap (λ k. parse_i32 k.sub) token) in
        ground (
          arith,
          subst (λ i. find_first (has_id i) (raised user_id t).users ≡ some v.user) id v.found,
          find_first-some (has_id user_id) t.users found,
          find_first-map_eq (has_id user_id)
              (change (has_id user_id) (λ u. record u { token_version = u.token_version + 1 }))
              t.users (λ u. ground arith) found,
          v.version,
          ap (λ k. k.ver) token,
        )

    -- Once the token version of a user is raised, no token of the version before passes for that user.
    pub bump_token_version-authenticate :
        (user_id : ℕ) (t : Tables) (user : User) (token : Text) (claims : Claims) (now : Clock)
        → find_first (has_id user_id) t.users ≡ some user
        → decode_jwt token ≡ some claims
        → parse_i32 claims.sub ≡ some (pos user_id)
        → claims.ver ≡ pos user.token_version
        → Ensures (bump_token_version user_id) t (λ v u.
          (v ≡ user.token_version + 1)
          × Ensures (authenticate_token hash_jti decode_jwt now token) u (λ _ _. ⊥))
    unfolding bump_token_version
    bump_token_version-authenticate user_id t user token claims now found decoded named version =
        let row =
          find_first-map_eq (has_id user_id)
            (change (has_id user_id) (λ u. record u { token_version = u.token_version + 1 }))
            t.users (λ u. ground arith) found in
        changing _ _ _ (
          reading _ _ _ (
            having _ _ _ λ now_user it. ensures-pure _ _ _ (
              ground (arith, find_first-some (has_id user_id) t.users found),
              ensures-imp
                  (λ a w v.
                    outdated user_id t user (decode_jwt token) claims now a found decoded named
                      version v.0)
                  (authenticate_token-IsAuthenticated now token _),
            )))
