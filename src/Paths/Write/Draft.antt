-- ===== src/Paths/Write/Draft.antt =====
-- The temporary file of `atomic_write_beneath` of src/service/path_bounds.rs, until it is published.
use rust_panel.Prelude.{◌==◌, ◌&&◌, ap}
use rust_panel.Prelude.{true, Bool, if◌then◌else◌, subst, sym}
use rust_panel.Db.Safe.{Safe, Safe->>, Safe->>=, Safe-update, Safe-query, Safe-imp, Safe-pure}
use rust_panel.Paths.Write.{
  Directory, Entry, List, lookup, modify, preserve_metadata, rename, ℕ, already_there, new_file,
  remove, set_mode, create, set_owner, set_bytes, Bool, has_owner, preserve_existing, io_error,
}
use rust_panel.Prelude.{
  refl, none, some, false, inl, Option, Text, text_eq, List, ◌≡◌, ℕ, ◌⊎◌, arith, ◌%◌, text_eq_refl,
  ◌∙◌, text_eq_iff,
}
use rust_panel.Paths.Lexical.{PathBoundError}
use rust_panel.Db.{pure, update}
use rust_panel.Prelude.{codes}
use rust_panel.Prelude.Map.{
  lookup, modify, lookup-upsert, lookup-modify, remove, lookup-remove, lookup_absent,
}
use rust_panel.Paths.Resolve.{file}

-- the new file before it is synced: with the owner and the mode of the one that it replaces
abbrev pub filled : Option Entry → List ℕ → ℕ → ℕ → Entry
filled none bytes uid gid = record {
  kind = file;
  bytes = bytes;
  uid = uid;
  gid = gid;
  mode = 384;
  synced = false;
}
filled (some old) bytes uid gid = record {
  kind = file;
  bytes = bytes;
  uid = old.uid;
  gid = old.gid;
  mode = old.mode % 4096;
  synced = false;
}

-- the file that is written, all of it on the disk
abbrev pub written : Option Entry → List ℕ → ℕ → ℕ → Entry
written old bytes uid gid = record (filled old bytes uid gid) { synced = true }

-- All entries but the temporary one are as they were.
abbrev pub IsIntact : Text → Directory → Directory → Type 0
IsIntact tmp t u = (j : Text) → text_eq tmp j ≡ false → lookup j u ≡ lookup j t

-- The target is the new file; all other entries but the temporary one, which is gone, are as they were.
pub record IsReplaced (tmp name : Text) (e : Entry) (t u : Directory) : Type 0 where
  pub target : lookup name u ≡ some e
  pub cleared : lookup tmp u ≡ none
  pub others : (j : Text) → text_eq tmp j ≡ false → text_eq name j ≡ false → lookup j u ≡ lookup j t

-- The temporary file, while the other entries are as they were.
pub record IsDraft (tmp : Text) (e : Entry) (t u : Directory) : Type 0 where
  pub draft : lookup tmp u ≡ some e
  pub others : IsIntact tmp t u

module _ (tmp name : Text) (apart : text_eq tmp name ≡ false) (t : Directory) where
  pub create-IsDraft :
      (uid gid : ℕ)
      → already_there tmp t ≡ none
      → IsDraft tmp (new_file uid gid) t (create tmp uid gid t)
  create-IsDraft uid gid unbroken = record {
    draft = ground (
      arith,
      lookup-upsert tmp tmp (new_file uid gid) (λ e. e) t,
      text_eq_refl tmp,
      lookup_absent tmp t,
    );
    others = λ j other. ground (arith, lookup-upsert tmp j (new_file uid gid) (λ e. e) t);
  }

  pub modify-IsDraft :
      (f : Entry → Entry) (e : Entry) (u : Directory)
      → IsDraft tmp e t u
      → IsDraft tmp (f e) t (modify tmp f u)
  modify-IsDraft f e u d = record {
    draft = ground (arith, lookup-modify tmp tmp f u, text_eq_refl tmp, d.draft);
    others = λ j other. lookup-modify tmp j f u ∙ ground (arith, d.others j other);
  }

  pub rename-IsReplaced :
      (e : Entry) (u : Directory) → IsDraft tmp e t u → IsReplaced tmp name e t (rename tmp name u)
  rename-IsReplaced e u d = record {
    target =
        rw (d.draft)
          (lookup-upsert name name e (λ _. e) (remove tmp u) ∙ ground (arith, text_eq_refl name));
    cleared = rw (d.draft) (
        lookup-upsert name tmp e (λ _. e) (remove tmp u)
        ∙ ground (
          arith,
          lookup-remove tmp tmp u,
          text_eq_refl tmp,
          text_eq_iff name tmp,
          text_eq_iff tmp name,
        ));
    others = λ j p q. rw (d.draft) (
        lookup-upsert name j e (λ _. e) (remove tmp u)
        ∙ ground (arith, lookup-remove tmp j u, d.others j p));
  }

  -- what is left by a failure: the old target, or, after the sync of the parent failed, the new one whole
  abbrev pub Left : Entry → PathBoundError → Directory → Type 0
  Left e x u =
      IsIntact tmp t u
      ⊎ ((m : Text) × (x ≡ io_error (codes "parent sync failed") m) × IsReplaced tmp name e t u)

  owner_kept :
      (uid gid : ℕ) (e : Entry) (o : Option Entry)
      → o ≡ some e
      → has_owner uid gid o ≡ true
      → e.synced ≡ false
      → set_owner uid gid e ≡ e
  owner_kept uid gid e none found h dirty = cc
  owner_kept uid gid e (some x) found h dirty =
      let met : (e.uid == uid && e.gid == gid) ≡ true = ap (has_owner uid gid) (sym found) ∙ h in
      let same_uid : uid ≡ e.uid = ground arith in
      let same_gid : gid ≡ e.gid = ground arith in
      ap (λ n. record e { uid = n; gid = gid; synced = false }) same_uid
      ∙ ap (λ n. record e { gid = n; synced = false }) same_gid
      ∙ ap (λ b. record e { synced = b }) (sym dirty)

  set_owner-IsDraft :
      (e w : Entry) (uid gid : ℕ) (u : Directory) (b : Bool)
      → has_owner uid gid (lookup tmp u) ≡ b
      → e.synced ≡ false
      → IsDraft tmp e t u
      → Safe {E = PathBoundError}
          (if b
            then pure tt
            else update
                (io_error (codes "preserve ownership failed"))
                (λ u. (tt, modify tmp (set_owner uid gid) u)))
          u
          (λ _ v. IsDraft tmp (set_owner uid gid e) t v)
          (Left w)
  set_owner-IsDraft e w uid gid u true h dirty d =
      Safe-pure tt (
        subst (λ x. IsDraft tmp x t u) (sym (owner_kept uid gid e (lookup tmp u) d.draft h dirty))
          d)
  set_owner-IsDraft e w uid gid u false h dirty d =
      Safe-update _ _ (modify-IsDraft (set_owner uid gid) e u d) (λ _. inl d.others)

  preserve_metadata-IsDraft :
      (e w : Entry) (uid gid mode : ℕ) (u : Directory)
      → e.synced ≡ false
      → IsDraft tmp e t u
      → Safe
          (preserve_metadata tmp uid gid mode)
          u
          (λ _ v. IsDraft tmp (set_mode (mode % 4096) (set_owner uid gid e)) t v)
          (Left w)
  unfolding preserve_metadata
  preserve_metadata-IsDraft e w uid gid mode u dirty d = Safe->>= _ _ (
      Safe-query _ _
        (Safe->> _ _ (
          Safe-imp
            (λ _ v dv.
              Safe-update _ _ (modify-IsDraft (set_mode (mode % 4096)) _ v dv) (λ _. inl dv.others))
            (λ _ v left. left)
            (set_owner-IsDraft e w uid gid u (has_owner uid gid (lookup tmp u)) refl dirty d)))
        (λ _. inl d.others))

  pub preserve_existing-IsDraft :
      (w : Entry) (uid gid : ℕ) (existing : Option Entry) (bytes : List ℕ) (u : Directory)
      → IsDraft tmp (set_bytes bytes (new_file uid gid)) t u
      → Safe
          (preserve_existing tmp existing)
          u
          (λ _ v. IsDraft tmp (filled existing bytes uid gid) t v)
          (Left w)
  unfolding preserve_existing
  preserve_existing-IsDraft w uid gid none bytes u d = Safe-pure tt d
  preserve_existing-IsDraft w uid gid (some old) bytes u d =
      preserve_metadata-IsDraft _ w old.uid old.gid old.mode u refl d
