-- ===== src/Paths/Write/Atomic.antt =====
-- `atomic_write_beneath` of src/service/path_bounds.rs, and the entries that it leaves.
use rust_panel.Paths.Write.Draft.{
  written, IsIntact, IsReplaced, IsDraft, Left, create-IsDraft, modify-IsDraft, rename-IsReplaced,
  preserve_existing-IsDraft,
}
use rust_panel.Paths.Open.{is_file}
use rust_panel.Paths.Results.{ok_injective, if_cases}
use rust_panel.Prelude.{[], ◌∷◌, ok, err, Result}
use rust_panel.Prelude.{inr, subst, sym}
use rust_panel.Db.Safe.{
  Safe, Safe->>, Safe-constrained, Safe->>=, Safe-update, Safe-query, Safe-imp, Safe-pure,
  Safe-acquire, Safe-throw, Ends,
}
use rust_panel.Paths.Write.{
  Directory, Entry, List, lookup, modify, rename, write_temp, ℕ, remove, set_bytes, io_error,
  openat_error, not_there, Result, existing_target, lift, unlink, write_in_parent, clean_up,
  temp_name, existing_entry, is_file, set_synced,
}
use rust_panel.Prelude.{
  refl, none, some, false, inl, Option, Text, text_eq, List, ◌≡◌, ℕ, ◌⊎◌, arith, text_eq_refl, ◌∙◌,
}
use rust_panel.Paths.Lexical.{io, PathBoundError}
use rust_panel.Db.{◌>>◌, acquire, constrained, update, Db, Conn}
use rust_panel.Prelude.{codes, ◌++◌}
use rust_panel.Prelude.Map.{lookup, modify, remove, lookup-remove}

module _ (tmp name : Text) (apart : text_eq tmp name ≡ false) (t : Directory) where
  -- the end of the closure, from the finished temporary file on
  publish-IsReplaced :
      (w : Entry) (v : Directory)
      → IsDraft tmp w t v
      → Safe
          (do
            update (io_error (codes "temp sync failed")) (λ t. (tt, modify tmp set_synced t))
            constrained
                (openat_error (codes "atomic rename failed"))
                (not_there tmp)
                (λ t. (tt, rename tmp name t))
            acquire (io_error (codes "parent sync failed")))
          v
          (λ _ u. IsReplaced tmp name (set_synced w) t u)
          (Left tmp name apart t (set_synced w))
  publish-IsReplaced w v d =
      let kept = modify-IsDraft tmp name apart t set_synced w v d in
      Safe->> _ _ (
        Safe-update _ _
          (Safe->> _ _ (
            Safe-constrained _ _ _
              (λ there.
                Safe-acquire _ (rename-IsReplaced tmp name apart t (set_synced w) _ kept)
                  (λ m. inr (m, refl, rename-IsReplaced tmp name apart t (set_synced w) _ kept)))
              (λ _. inl kept.others)))
          (λ _. inl d.others))

  pub write_temp-IsReplaced :
      (uid gid : ℕ) (existing : Option Entry) (bytes : List ℕ)
      → Safe
          (write_temp tmp name uid gid existing bytes)
          t
          (λ _ u. IsReplaced tmp name (written existing bytes uid gid) t u)
          (Left tmp name apart t (written existing bytes uid gid))
  unfolding write_temp
  write_temp-IsReplaced uid gid existing bytes = Safe->> _ _ (
      Safe-constrained _ _ _
        (λ new.
          let d0 = create-IsDraft tmp name apart t uid gid new in
          Safe->> _ _ (
            Safe-update _ _
              (Safe->> _ _ (
                Safe-imp (λ _ v dv. publish-IsReplaced _ v dv) (λ _ v left. left)
                  (preserve_existing-IsDraft tmp name apart t (written existing bytes uid gid) uid
                    gid existing bytes _
                    (modify-IsDraft tmp name apart t (set_bytes bytes) _ _ d0))))
              (λ _. inl d0.others)))
        (λ _. inl (λ j other. refl)))

  Left-remove :
      (w : Entry) (x : PathBoundError) (u : Directory)
      → Left tmp name apart t w x u
      → Left tmp name apart t w x (remove tmp u)
  Left-remove w x u (inl intact) =
      inl (λ j other. lookup-remove tmp j u ∙ ground (arith, intact j other))
  Left-remove w x u (inr (m, same, r)) = inr (
    m,
    same,
    record {
      target = lookup-remove tmp name u ∙ ground (arith, r.target);
      cleared = lookup-remove tmp tmp u ∙ ground (arith, text_eq_refl tmp);
      others = λ j p q. lookup-remove tmp j u ∙ ground (arith, r.others j p q);
    },
  )

  either :
      (R : Directory → Type 0) (r : Result PathBoundError (Unit {0}) × Conn Directory)
      → Ends (λ _. R) (λ _. R) r
      → R r.1.tables
  either R (ok u, c) h = h
  either R (err e, c) h = h

  unlink-Left :
      (w : Entry) (x : PathBoundError) (c : Conn Directory)
      → Left tmp name apart t w x c.tables
      → Left tmp name apart t w x (unlink tmp c).1.tables
  unfolding unlink
  unlink-Left w x c h = either (Left tmp name apart t w x) (unlink tmp c) (
      Safe.at
        (Safe-update {Q = λ _. Left tmp name apart t w x} {R = λ _. Left tmp name apart t w x} io
          (λ u. (tt, remove tmp u)) (Left-remove w x c.tables h) (λ _. h))
        c refl)

  clean_up-Left :
      (w : Entry) (m : Db Directory PathBoundError (Unit {0}))
      → Safe m t (λ _ u. IsReplaced tmp name w t u) (Left tmp name apart t w)
      → Safe
          (λ c. clean_up tmp (m c))
          t
          (λ _ u. IsReplaced tmp name w t u)
          (Left tmp name apart t w)
  clean_up-Left w m h = record { at = λ c same. go (m c) (h.at c same) }
    where
      go :
          (r : Result PathBoundError (Unit {0}) × Conn Directory)
          → Ends (λ _ u. IsReplaced tmp name w t u) (Left tmp name apart t w) r
          → Ends (λ _ u. IsReplaced tmp name w t u) (Left tmp name apart t w) (clean_up tmp r)
      go (ok u, d) k = k
      go (err e, d) k = unlink-Left w e d k

temp_name-apart : (name : Text) (c : ℕ) (s : Text) → text_eq (name ++ c ∷ s) name ≡ false
unfolding text_eq
temp_name-apart [] c s = refl
temp_name-apart (d ∷ name) c s = ground (arith, temp_name-apart name c s)

Safe-lift :
    {A : Type 0} {t : Directory} {Q : A → Directory → Type 0}
    {R : PathBoundError → Directory → Type 0} (r : Result PathBoundError A)
    → ((a : A) → r ≡ ok a → Q a t)
    → ((e : PathBoundError) → R e t)
    → Safe (lift r) t Q R
unfolding lift
Safe-lift (ok a) q z = Safe-pure a (q a refl)
Safe-lift (err e) q z = Safe-throw e (z e)

target_of :
    (name : Text) (t : Directory) (existing : Option Entry)
    → existing_target name t ≡ ok existing
    → existing ≡ lookup name t
unfolding existing_target
target_of name t existing h = go (lookup name t) h
  where
    go : (o : Option Entry) → existing_entry o ≡ ok existing → existing ≡ o
    go none k = sym (ok_injective k)
    go (some e) k = elim (if_cases (is_file e.kind) _ _ k) [
      | inl (regular, same) ↦ sym (ok_injective same)
      | inr (other, wrong) ↦ cc wrong
    ]

-- Whatever calls fail, wherever: on success the target is a file with all of the bytes, synced, with the owner and
-- the mode of the file that was there, the temporary entry is gone, and no other entry changed; on an error no
-- entry but the temporary one changed, or the answer is that the sync of the parent failed and the target
-- is the new file, synced and whole as after a success.
pub write_in_parent-IsReplaced :
    (name suffix : Text) (uid gid : ℕ) (bytes : List ℕ) (t : Directory)
    → Safe
        (write_in_parent name suffix uid gid bytes)
        t
        (λ _ u. IsReplaced (temp_name name suffix) name (written (lookup name t) bytes uid gid) t u)
        (λ e u.
          IsIntact (temp_name name suffix) t u
          ⊎ ((m : Text) × (e ≡ io_error (codes "parent sync failed") m)
              × IsReplaced
                  (temp_name name suffix)
                  name
                  (written (lookup name t) bytes uid gid)
                  t
                  u))
unfolding write_in_parent
write_in_parent-IsReplaced name suffix uid gid bytes t =
    let tmp = temp_name name suffix in
    let apart = temp_name-apart name b'.' (codes "rp-tmp-" ++ suffix) in
    Safe->> _ _ (
      Safe-lift _
        (λ _ _. Safe->> _ _ (
          Safe-lift _
            (λ _ _. Safe->>= _ _ (
              Safe-query _ _
                (Safe->>= _ _ (
                  Safe-lift _
                    (λ existing found. clean_up-Left tmp name apart t _ _ (
                      subst
                        (λ o.
                          Safe (write_temp tmp name uid gid existing bytes) t
                            (λ _ u. IsReplaced tmp name (written o bytes uid gid) t u)
                            (Left tmp name apart t (written o bytes uid gid)))
                        (target_of name t existing found)
                        (write_temp-IsReplaced tmp name apart t uid gid existing bytes)))
                    (λ _. inl (λ j other. refl))))
                (λ _. inl (λ j other. refl))))
            (λ _. inl (λ j other. refl))))
        (λ _. inl (λ j other. refl)))
