-- ===== src/Paths/Open/Pinned.antt =====
-- The opened path of src/service/path_bounds.rs beside the resolved one.
use rust_panel.Paths.Resolve.Landed.{names-normal, empty_path}
use rust_panel.Paths.Lexical.Normal.{is_name}
use rust_panel.Paths.Results.{>>-ok, ok_injective, if_cases}
use rust_panel.Paths.Open.{
  open_beneath_fd, open_walk, validate_leaf, is_empty, validate_regular_file, after_atomic,
  path_to_cstring, open_root, or_openat_error, not, retain, is_normal,
}
use rust_panel.Prelude.{
  refl, [], ◌∷◌, ok, err, true, false, inl, inr, Result, ◌≡◌, all, is_empty, sym, ap, not, retain,
  ◌∙◌, ◌||◌, subst,
}
use rust_panel.Paths.Lexical.{PathBuf, name_of}
use rust_panel.Paths.Resolve.{
  file, directory, symlink, special, enoent, enotdir, eloop, exdev, emlink, other_errno, Os,
  IoError, Kind, Errno, path_to_cstring, open_root, is_normal,
}
use rust_panel.Prelude.{◌>>◌, ◌++◌}
use mathlib.Core.List.{append_assoc}

module _ (os : Os) (fstat : PathBuf → Result IoError Kind) where
  -- a regular file, opened as a path
  abbrev IsOpened : PathBuf → PathBuf → Type 0
  IsOpened path fd = (fd ≡ path) × (fstat fd ≡ ok file)

  validate_leaf-file :
      (opened : PathBuf) → validate_leaf os fstat opened false ≡ ok tt → fstat opened ≡ ok file
  validate_leaf-file opened h = go (fstat opened) h
    where
      go : (r : Result IoError Kind) → validate_regular_file os fstat r ≡ ok tt → r ≡ ok file
      go (err e) k = cc k
      go (ok file) k = refl
      go (ok directory) k = cc k
      go (ok symlink) k = cc k
      go (ok special) k = cc k

  validate_leaf-IsOpened :
      (path fd : PathBuf)
      → (validate_leaf os fstat path false >> ok path) ≡ ok fd
      → IsOpened path fd
  validate_leaf-IsOpened path fd h =
      let (checked, h1) = >>-ok (validate_leaf os fstat path false) _ h in
      let same = ok_injective h1 in
      (sym same, ap fstat (sym same) ∙ validate_leaf-file path checked)

  open_walk-IsOpened :
      (dir names fd : PathBuf)
      → is_empty names ≡ false
      → open_walk os fstat dir false names ≡ ok fd
      → IsOpened (dir ++ names) fd
  unfolding open_walk
  open_walk-IsOpened dir [] fd some_left h = cc
  open_walk-IsOpened dir (c ∷ names) fd some_left h =
      let (clean, h1) = >>-ok (path_to_cstring (c ∷ [])) _ h in
      let (entered, h2) =
        >>-ok (or_openat_error (os.openat dir (name_of c) (not (is_empty names) || false))) _ h1 in
      elim (if_cases (is_empty names) _ _ h2) [
        | inl (last, here) ↦
            subst (λ q. IsOpened (dir ++ c ∷ q) fd) (sym (empty_path names last))
              (validate_leaf-IsOpened (dir ++ c ∷ []) fd here)
        | inr (more, below) ↦
            subst (λ q. IsOpened q fd) (append_assoc dir (c ∷ []) names)
              (open_walk-IsOpened (dir ++ c ∷ []) names fd more below)
      ]

  after_atomic-IsOpened :
      (root names fd : PathBuf) (r : Result Errno (Unit {0}))
      → is_empty names ≡ false
      → after_atomic os fstat root names false r ≡ ok fd
      → IsOpened (root ++ names) fd
  after_atomic-IsOpened root names fd (ok u) n h = validate_leaf-IsOpened (root ++ names) fd h
  after_atomic-IsOpened root names fd (err (other_errno m)) n h =
      open_walk-IsOpened root names fd n (>>-ok (open_root os root) _ h).1
  after_atomic-IsOpened root names fd (err emlink) n h =
      open_walk-IsOpened root names fd n (>>-ok (open_root os root) _ h).1
  after_atomic-IsOpened root names fd (err enoent) n h = cc h
  after_atomic-IsOpened root names fd (err enotdir) n h = cc h
  after_atomic-IsOpened root names fd (err eloop) n h = cc h
  after_atomic-IsOpened root names fd (err exdev) n h = cc h

  -- Whatever the operating system answers, where a file is opened for reading below a root, by `openat2` or by the
  -- walk, the descriptor is of the path that was asked for, and it is a regular file.
  pub open_beneath_fd-IsOpened :
      (root relative fd : PathBuf)
      → all is_name relative ≡ true
      → open_beneath_fd os fstat root relative false ≡ ok fd
      → (fd ≡ root ++ relative) × (fstat fd ≡ ok file)
  unfolding open_beneath_fd
  open_beneath_fd-IsOpened root relative fd names h =
      let same = names-normal relative names in
      elim (if_cases (is_empty (retain is_normal relative)) _ _ h) [
        | inl (none_left, wrong) ↦ cc wrong
        | inr (some_left, h1) ↦
            let (opened, h2) = >>-ok (open_root os root) _ h1 in
            let (clean, h3) = >>-ok (path_to_cstring relative) _ h2 in
            subst (λ q. IsOpened (root ++ q) fd) same
              (after_atomic-IsOpened root (retain is_normal relative) fd
                (os.openat2 root relative false) some_left h3)
      ]
