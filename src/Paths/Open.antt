-- ===== src/Paths/Open.antt =====
-- src/service/path_bounds.rs: the opening of a resolved path without following links, from its root down.
pub mod Pinned
pub mod Resolved
use rust_panel.Prelude.{◌>>=◌}
use rust_panel.Prelude.{none, some, Option}
use rust_panel.Prelude.{
  [], ◌∷◌, ok, err, true, false, Result, Text, Bool, fail_if, if◌then◌else◌, retain, not, is_empty,
  ◌||◌,
}
use rust_panel.Paths.Lexical.{escape, io, PathBuf, PathBoundError, name_of, strip_prefix}
use rust_panel.Paths.Resolve.{
  file, enoent, enotdir, eloop, exdev, emlink, other_errno, Kind, Os, Errno, IoError, no_symlinks,
  open_root, path_to_cstring, is_normal, missing, BoundPath, or_portable, or_missing, is_symlink,
  is_directory,
}
use rust_panel.Prelude.{◌>>◌, codes, ◌++◌}

-- `linux::map_openat_errno`
unfoldable pub map_openat_errno : Text → Errno → PathBoundError
map_openat_errno prefix eloop = no_symlinks
map_openat_errno prefix emlink = no_symlinks
map_openat_errno prefix enoent = missing
map_openat_errno prefix enotdir = io (prefix ++ codes ": Not a directory (os error 20)")
map_openat_errno prefix exdev = io (prefix ++ codes ": Invalid cross-device link (os error 18)")
map_openat_errno prefix (other_errno m) = io (prefix ++ codes ": " ++ m)

abbrev pub or_openat_error : Result Errno (Unit {0}) → Result PathBoundError (Unit {0})
or_openat_error (ok u) = ok u
or_openat_error (err e) = err (map_openat_errno (codes "open beneath root failed") e)

abbrev pub is_file : Kind → Bool
is_file file = true
is_file _ = false

-- `fstat` of the descriptor that a path was opened as is a question of its own.
module _ (os : Os) (fstat : PathBuf → Result IoError Kind) where
  -- `linux::validate_regular_file`
  abbrev pub validate_regular_file : Result IoError Kind → Result PathBoundError (Unit {0})
  validate_regular_file (err e) = err (io (codes "stat beneath root failed"))
  validate_regular_file (ok kind) =
      fail_if (not (is_file kind)) (escape (codes "Path is not a regular file"))

  abbrev pub validate_leaf : PathBuf → Bool → Result PathBoundError (Unit {0})
  validate_leaf opened leaf_directory =
      if leaf_directory then ok tt else validate_regular_file (fstat opened)

  -- the walk of `linux::open_beneath_fd`, which answers with the descriptor
  unfoldable pub open_walk : PathBuf → Bool → PathBuf → Result PathBoundError PathBuf
  open_walk dir leaf_directory [] = ok dir
  open_walk dir leaf_directory (c ∷ names) =
      let next = dir ++ c ∷ [] in
      let rest = open_walk next leaf_directory names in
      do
        path_to_cstring (c ∷ [])
        or_openat_error (os.openat dir (name_of c) (not (is_empty names) || leaf_directory))
        if is_empty names then (validate_leaf next leaf_directory >> ok next) else rest

  abbrev pub after_atomic :
      PathBuf → PathBuf → Bool → Result Errno (Unit {0}) → Result PathBoundError PathBuf
  after_atomic root names leaf_directory (ok u) =
      validate_leaf (root ++ names) leaf_directory >> ok (root ++ names)
  after_atomic root names leaf_directory (err (other_errno m)) =
      open_root os root >> open_walk root leaf_directory names
  after_atomic root names leaf_directory (err emlink) =
      open_root os root >> open_walk root leaf_directory names
  after_atomic root names leaf_directory (err _) =
      err (escape (codes "Path escapes managed root or uses disallowed symlink"))

  -- `linux::open_beneath_fd`; a descriptor is named by the path that it was opened as
  unfoldable pub open_beneath_fd : PathBuf → PathBuf → Bool → Result PathBoundError PathBuf
  open_beneath_fd root relative leaf_directory =
      let names = retain is_normal relative in
      if is_empty names
      then (if leaf_directory
          then (open_root os root >> ok root)
          else err (escape (codes "Managed root cannot be opened as a file")))
      else (open_root os root
          >> (path_to_cstring relative
              >> after_atomic root names leaf_directory (os.openat2 root relative leaf_directory)))

-- `map_open_err`, where the kernel refused to follow a link
unfoldable pub map_open_err : Text → Errno → PathBoundError
map_open_err prefix eloop = no_symlinks
map_open_err prefix enoent = io (prefix ++ codes ": No such file or directory (os error 2)")
map_open_err prefix enotdir = io (prefix ++ codes ": Not a directory (os error 20)")
map_open_err prefix exdev = io (prefix ++ codes ": Invalid cross-device link (os error 18)")
map_open_err prefix emlink = io (prefix ++ codes ": Too many links (os error 31)")
map_open_err prefix (other_errno m) = io (prefix ++ codes ": " ++ m)

abbrev pub or_open_error : Text → Result Errno (Unit {0}) → Result PathBoundError (Unit {0})
or_open_error prefix (ok u) = ok u
or_open_error prefix (err e) = err (map_open_err prefix e)

-- The opening of a whole path with O_NOFOLLOW is a question of its own; its last argument asks for a directory.
module _ (os : Os) (fstat : PathBuf → Result IoError Kind)
    (open_nofollow : PathBuf → Bool → Result Errno (Unit {0})) where
  -- the rest of `open_bound_file`: on Linux it follows an error of `open_beneath_fd` that is no escape
  unfoldable pub portable_file : PathBuf → Result PathBoundError PathBuf
  portable_file absolute = do
    kind ← or_missing missing (os.symlink_metadata absolute)
    fail_if (is_symlink kind) no_symlinks
    fail_if (not (is_file kind)) (escape (codes "Path is not a regular file"))
    or_open_error (codes "open file failed") (open_nofollow absolute false)
    ok absolute

  -- the rest of `open_bound_dir`, likewise
  unfoldable pub portable_dir : PathBuf → Result PathBoundError PathBuf
  portable_dir absolute = do
    kind ← or_missing missing (os.symlink_metadata absolute)
    fail_if (is_symlink kind) no_symlinks
    fail_if (not (is_directory kind)) (escape (codes "Path is not a directory"))
    or_open_error (codes "open directory failed") (open_nofollow absolute true)
    ok absolute

  abbrev pub from_root :
      Option PathBuf
      → PathBuf
      → Bool
      → Result PathBoundError PathBuf
      → Result PathBoundError PathBuf
  from_root none root leaf_directory other = other
  from_root (some relative) root leaf_directory other =
      or_portable (open_beneath_fd os fstat root relative leaf_directory) other

  unfoldable pub open_bound_file : BoundPath → Result PathBoundError PathBuf
  open_bound_file bound =
      from_root (strip_prefix bound.root bound.absolute) bound.root false
        (portable_file bound.absolute)

  -- `open_bound_dir`, up to the listing of the directory that it opens
  unfoldable pub open_bound_dir : BoundPath → Result PathBoundError PathBuf
  open_bound_dir bound =
      from_root (strip_prefix bound.root bound.absolute) bound.root true
        (portable_dir bound.absolute)
