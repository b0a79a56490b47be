-- ===== src/Accounts/Login/Password.antt =====
-- Who may log in, and the rewriting of legacy hashes.
use rust_panel.Prelude.{refl, [], false, map, arith, find_last-map_eq, ◌∙◌, ap}
use rust_panel.Prelude.Int.{pos}
use rust_panel.Accounts.Users.{find_user_update_error_count, has_id}
use rust_panel.Accounts.Tables.{Tables, User, change}
use rust_panel.Accounts.Login.{
  Outside, check_login, Text, ban, Tables, attempt, User, find_user_update_error_count, find_last,
  upgrade, has_name, leb, pos, Bool, verify_stored, algo_argon2id, change, has_id,
}
use rust_panel.Prelude.{some, true, Option, Text, find_last, leb, ◌≡◌, ◌<◌, Bool}
use mathlib.Core.Option
use rust_panel.Db.Steps.{reading, having, checking, branching, connecting, changing}
use rust_panel.Db.Ensures.{Ensures, ensures-throw, ensures-pure, ensures->>=}

-- What holds after a login: the name's row was enabled, short of five failures, and the password matched its
-- hash; its count of failures is 0 now, and its hash is of Argon2id where the hash was a legacy one.
pub record IsLoggedIn (o : Outside) (fresh : Option Text) (name password : Text) (t u : Tables)
    (user : User) : Type 0 where
  pub before : User
  pub found : find_last (has_name name) t.users ≡ some before
  pub enabled : before.status ≡ pos 0
  pub few : before.error_count < 5
  pub rehash : Bool
  pub matches :
      verify_stored o before.password before.salt before.password_algo password
      ≡ some (true, rehash)
  pub same : user.id ≡ before.id
  pub after : User
  pub kept : find_last (has_name name) u.users ≡ some after
  pub cleared : after.error_count ≡ 0
  pub hash : rehash ≡ true → fresh ≡ some after.password
  pub algo : rehash ≡ true → after.password_algo ≡ algo_argon2id

module _ (o : Outside) where
  abbrev reset : User → User → User
  reset v = change (has_id v.id) (λ u. record u { error_count = 0 })

  abbrev rehash_row : User → Text → User → User
  rehash_row v new =
      change (has_id v.id)
        (λ u. record u { password = new; salt = []; password_algo = algo_argon2id })

  plain :
      (fresh : Option Text) (name password : Text) (t : Tables) (v : User)
      → find_last (has_name name) t.users ≡ some v
      → v.status ≡ pos 0
      → v.error_count < 5
      → verify_stored o v.password v.salt v.password_algo password ≡ some (true, false)
      → IsLoggedIn o fresh name password t (record t { users = map (reset v) t.users }) v
  plain fresh name password t v it enabled few matches = record {
    before = v;
    found = it;
    enabled = enabled;
    few = few;
    rehash = false;
    matches = matches;
    same = refl;
    after = reset v v;
    kept =
        find_last-map_eq (has_name name) (reset v) t.users (λ u. ground arith)
        ∙ ap (Option.map (reset v)) it;
    cleared = ground arith;
    hash = λ e. ground arith;
    algo = λ e. ground arith;
  }

  rehashed :
      (fresh : Option Text) (name password : Text) (t : Tables) (v : User) (new : Text)
      → find_last (has_name name) t.users ≡ some v
      → fresh ≡ some new
      → v.status ≡ pos 0
      → v.error_count < 5
      → verify_stored o v.password v.salt v.password_algo password ≡ some (true, true)
      → IsLoggedIn o fresh name password t
          (record t { users = map (rehash_row v new) (map (reset v) t.users) })
          (record v { password = new; salt = []; password_algo = algo_argon2id })
  rehashed fresh name password t v new it made enabled few matches = record {
    before = v;
    found = it;
    enabled = enabled;
    few = few;
    rehash = true;
    matches = matches;
    same = refl;
    after = rehash_row v new (reset v v);
    kept =
        find_last-map_eq (has_name name) (rehash_row v new) (map (reset v) t.users)
          (λ u. ground arith)
        ∙ ap (Option.map (rehash_row v new)) (
            find_last-map_eq (has_name name) (reset v) t.users (λ u. ground arith)
            ∙ ap (Option.map (reset v)) it);
    cleared = ground arith;
    hash = λ e. ground arith;
    algo = λ e. ground arith;
  }

  -- A login succeeds only for an enabled account with fewer than five failures and the right password; it
  -- clears the count of failures, and replaces a legacy hash.
  pub check_login-IsLoggedIn :
      (fresh : Option Text) (name password : Text) (t : Tables)
      → Ensures
          (check_login o fresh name password)
          t
          (λ user u. IsLoggedIn o fresh name password t u user)
  unfolding check_login ban attempt find_user_update_error_count upgrade
  check_login-IsLoggedIn fresh name password t = connecting _ _ (
      reading _ _ _ (
        having _ _ _ λ v it. checking _ _ _ λ enabled.
          branching (leb 5 v.error_count) (ban o v) (attempt o fresh v password)
            (λ full. changing _ _ _ (ensures-throw _ _ _))
            (λ few. having _ _ _ λ verdict matches.
              branching verdict.0 _ _
                (λ right. ensures->>= _ _ t _ (
                  changing _ _ _ (
                    ensures-pure _ _ _ (
                      branching verdict.1 _ _
                        (λ old. having _ _ _ λ new made. changing _ _ _ (
                          ensures-pure _ _ _ (
                            rehashed fresh name password t v new it made (ground arith)
                              (ground arith) (ground arith))))
                        (λ current. ensures-pure _ _ _ (
                          plain fresh name password t v it (ground arith) (ground arith)
                            (ground arith)))))))
                (λ wrong.
                  ensures->>= _ _ t _
                    (changing _ _ _ (ensures-pure _ _ _ (ensures-throw _ _ _)))))))
