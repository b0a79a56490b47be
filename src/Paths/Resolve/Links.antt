-- ===== src/Paths/Resolve/Links.antt =====
-- What the check for symlinks establishes.
use rust_panel.Paths.Resolve.{
  Os, Result, reject_symlink_components, IoError, Text, Kind, not_found, check_component,
  is_symlink, failed,
}
use rust_panel.Prelude.{refl, [], ◌∷◌, ok, err, false, inl, inr, Result, Text, ◌≡◌, ◌⊎◌}
use rust_panel.Paths.Resolve.{file, directory, symlink, special}
use rust_panel.Paths.Lexical.{root_dir, cur_dir, parent_dir, normal, PathBuf, PathBoundError}
use rust_panel.Prelude.{◌++◌}

-- From `cursor` down along names, each entry is there and no symlink, until one is not found.
abbrev pub NoLinks : Os → PathBuf → PathBuf → Type 0
NoLinks os cursor [] = Unit
NoLinks os cursor (normal name ∷ relative) =
    ((m : Text) × (os.symlink_metadata (cursor ++ normal name ∷ []) ≡ err (not_found m)))
    ⊎ ((kind : Kind) × (os.symlink_metadata (cursor ++ normal name ∷ []) ≡ ok kind)
        × (is_symlink kind ≡ false)
        × NoLinks os (cursor ++ normal name ∷ []) relative)
NoLinks os cursor (c ∷ relative) = NoLinks os cursor relative

module _ (os : Os) where
  checked :
      (r : Result IoError Kind) (rest : Result PathBoundError (Unit {0}))
      → check_component r rest ≡ ok tt
      → ((m : Text) × (r ≡ err (not_found m)))
        ⊎ ((kind : Kind) × (r ≡ ok kind) × (is_symlink kind ≡ false) × (rest ≡ ok tt))
  checked (err (not_found m)) rest h = inl (m, refl)
  checked (err (failed m)) rest h = cc h
  checked (ok file) rest h = inr (file, refl, refl, h)
  checked (ok directory) rest h = inr (directory, refl, refl, h)
  checked (ok special) rest h = inr (special, refl, refl, h)
  checked (ok symlink) rest h = cc h

  pub reject_symlink_components-NoLinks :
      (cursor relative : PathBuf)
      → reject_symlink_components os cursor relative ≡ ok tt
      → NoLinks os cursor relative
  unfolding reject_symlink_components
  reject_symlink_components-NoLinks cursor [] h = tt
  reject_symlink_components-NoLinks cursor (normal name ∷ relative) h =
      let next = cursor ++ normal name ∷ [] in
      elim (checked (os.symlink_metadata next) (reject_symlink_components os next relative) h) [
        | inl gone ↦ inl gone
        | inr (kind, there, plain, rest) ↦
            inr (kind, there, plain, reject_symlink_components-NoLinks next relative rest)
      ]
  reject_symlink_components-NoLinks cursor (root_dir ∷ relative) h =
      reject_symlink_components-NoLinks cursor relative h
  reject_symlink_components-NoLinks cursor (cur_dir ∷ relative) h =
      reject_symlink_components-NoLinks cursor relative h
  reject_symlink_components-NoLinks cursor (parent_dir ∷ relative) h =
      reject_symlink_components-NoLinks cursor relative h
