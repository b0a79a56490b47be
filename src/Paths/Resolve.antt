-- ===== src/Paths/Resolve.antt =====
-- src/service/path_bounds.rs: the resolution of a request to a path under a managed root, and the Linux module
-- that asks the kernel for it. The answers of the operating system are a parameter; the same question gets
-- the same answer within one resolution. A descriptor is named by the path that was walked to open it.
pub mod Links
pub mod Landed
pub mod Bound
pub mod Write
use rust_panel.Prelude.{none, some, Option, text_eq}
use rust_panel.Prelude.{
  [], ◌∷◌, ok, err, true, false, Bool, Result, Text, List, fail_if, if◌then◌else◌, retain, any,
  is_empty, not, ◌&&◌, ◌==◌, ◌||◌,
}
use rust_panel.Paths.Lexical.{
  root_dir, cur_dir, parent_dir, normal, escape, io, Component, PathBoundError, PathBuf, name_of,
  is_absolute, parse_request_path, is_some, match_root, normalize_lexical, strip_prefix, text_of,
  or_err, one_dot, two_dots, pop,
}
use rust_panel.Prelude.{◌>>=◌, ◌>>◌, codes, ◌++◌}

pub data Kind : Type 0 where
  file directory symlink special : Kind

-- `io::Error`, by what the code asks of it, with its text
pub data IoError : Type 0 where
  not_found failed : Text → IoError

pub data Errno : Type 0 where
  enoent enotdir eloop exdev emlink : Errno
  other_errno : Text → Errno

-- What the operating system answers: `fs::symlink_metadata`, `fs::canonicalize`, `Path::exists`,
-- `Path::is_dir`, `open` of a directory, `openat2` beneath a directory without symlinks, and `openat`
-- without following; the last argument of the last two asks for a directory.
pub record Os : Type 0 where
  pub symlink_metadata : PathBuf → Result IoError Kind
  pub canonicalize : PathBuf → Result IoError PathBuf
  pub exists : PathBuf → Bool
  pub is_dir : PathBuf → Bool
  pub open_dir : PathBuf → Result IoError (Unit {0})
  pub openat2 : PathBuf → PathBuf → Bool → Result Errno (Unit {0})
  pub openat : PathBuf → Text → Bool → Result Errno (Unit {0})

pub record BoundPath : Type 0 where
  pub absolute : PathBuf
  pub root : PathBuf

abbrev pub io_text : IoError → Text
io_text (not_found m) = m
io_text (failed m) = m

abbrev pub is_symlink : Kind → Bool
is_symlink symlink = true
is_symlink _ = false

abbrev pub is_directory : Kind → Bool
is_directory directory = true
is_directory _ = false

abbrev pub no_symlinks : PathBoundError
no_symlinks = escape (codes "Symlinks are not allowed in managed file paths")

abbrev pub missing : PathBoundError
missing = escape (codes "Path not found under managed roots")

-- `map_err`, with an error of its own for what is not found
abbrev pub or_missing : {A : Type 0} → PathBoundError → Result IoError A → Result PathBoundError A
or_missing e (ok a) = ok a
or_missing e (err (not_found m)) = err e
or_missing e (err (failed m)) = err (io m)

abbrev pub or_io : {A : Type 0} → Result IoError A → Result PathBoundError A
or_io (ok a) = ok a
or_io (err e) = err (io (io_text e))

abbrev pub join : PathBuf → PathBuf → PathBuf
join base p = if is_absolute p then p else base ++ p

-- `CString::new` of a path
unfoldable pub path_to_cstring : PathBuf → Result PathBoundError (Unit {0})
path_to_cstring p =
    fail_if (any (λ c. c == 0) (text_of p)) (escape (codes "Path contains interior NUL"))

-- `Path::file_name`: the last component, if it is a name
unfoldable pub file_name : PathBuf → Option Text
file_name [] = none
file_name (normal name ∷ []) = some name
file_name (c ∷ []) = none
file_name (c ∷ d ∷ p) = file_name (d ∷ p)

-- how the loop of `reject_symlink_components` goes on
abbrev pub check_component :
    Result IoError Kind → Result PathBoundError (Unit {0}) → Result PathBoundError (Unit {0})
check_component (err (not_found m)) rest = ok tt
check_component (err (failed m)) rest = err (io m)
check_component (ok kind) rest = if is_symlink kind then err no_symlinks else rest

abbrev pub is_normal : Component → Bool
is_normal (normal s) = true
is_normal _ = false

abbrev pub walk_error : Errno → PathBoundError
walk_error eloop = no_symlinks
walk_error emlink = no_symlinks
walk_error enoent = missing
walk_error enotdir = io (codes "Not a directory (os error 20)")
walk_error exdev = io (codes "Invalid cross-device link (os error 18)")
walk_error (other_errno m) = io m

abbrev pub or_walk_error : Result Errno (Unit {0}) → Result PathBoundError (Unit {0})
or_walk_error (ok u) = ok u
or_walk_error (err e) = err (walk_error e)

-- On an error that is no escape the portable way is tried.
abbrev pub or_portable :
    {A : Type 0} → Result PathBoundError A → Result PathBoundError A → Result PathBoundError A
or_portable (ok bound) other = ok bound
or_portable (err (escape m)) other = err (escape m)
or_portable (err (io m)) other = other

module _ (os : Os) where
  unfoldable pub reject_symlink_components : PathBuf → PathBuf → Result PathBoundError (Unit {0})
  reject_symlink_components cursor [] = ok tt
  reject_symlink_components cursor (normal name ∷ relative) =
      let next = cursor ++ normal name ∷ [] in
      check_component (os.symlink_metadata next) (reject_symlink_components next relative)
  reject_symlink_components cursor (c ∷ relative) = reject_symlink_components cursor relative

  unfoldable pub ensure_root_dir : PathBuf → Result PathBoundError (Unit {0})
  ensure_root_dir root = do
    kind ← or_missing (escape (codes "Managed root does not exist")) (os.symlink_metadata root)
    fail_if (is_symlink kind) (escape (codes "Managed root must not be a symlink"))
    fail_if (not (is_directory kind)) (escape (codes "Managed root is not a directory"))

  -- the end of `resolve_via_canonicalize`, for a path that must exist
  unfoldable pub canonical_under : PathBuf → PathBuf → Result PathBoundError BoundPath
  canonical_under root joined = do
    canon ← or_missing missing (os.canonicalize joined)
    root_canon ← or_io (os.canonicalize root)
    fail_if (not (is_some (strip_prefix root_canon canon)))
        (escape (codes "Resolved path escapes managed root"))
    ok (record { absolute = canon; root = root })

  unfoldable pub resolve_via_canonicalize :
      PathBuf → PathBuf → Bool → Result PathBoundError BoundPath
  resolve_via_canonicalize root relative must_exist = do
    ensure_root_dir root
    reject_symlink_components root relative
    if not must_exist && not (os.exists (join root relative))
        then ok (record { absolute = normalize_lexical (join root relative); root = root })
        else canonical_under root (join root relative)

  -- `linux::open_root`
  unfoldable pub open_root : PathBuf → Result PathBoundError (Unit {0})
  open_root root = do
    path_to_cstring root
    or_missing (escape (codes "Managed root does not exist")) (os.open_dir root)
    kind ← or_io (os.symlink_metadata root)
    fail_if (is_symlink kind) (escape (codes "Managed root must not be a symlink"))

  -- the loop of `linux::walk_nofollow` over the names
  unfoldable pub walk : PathBuf → Bool → PathBuf → Result PathBoundError (Unit {0})
  walk dir leaf_directory [] = ok tt
  walk dir leaf_directory (c ∷ names) =
      let rest = walk (dir ++ c ∷ []) leaf_directory names in
      do
        path_to_cstring (c ∷ [])
        or_walk_error (os.openat dir (name_of c) (not (is_empty names) || leaf_directory))
        rest

  unfoldable pub walk_nofollow : PathBuf → PathBuf → Bool → Result PathBoundError BoundPath
  walk_nofollow root relative leaf_directory = do
    open_root root
    if is_empty (retain is_normal relative)
        then ok (record { absolute = root; root = root })
        else (walk root leaf_directory (retain is_normal relative)
            >> ok (record { absolute = join root relative; root = root }))

  -- what `linux::resolve_beneath` makes of the answer of `openat2`
  unfoldable pub after_openat2 :
      PathBuf → PathBuf → Bool → Result Errno (Unit {0}) → Result PathBoundError BoundPath
  after_openat2 root relative leaf_directory (ok u) = do
    kind ← or_io (os.symlink_metadata (join root relative))
    fail_if (is_symlink kind) no_symlinks
    ok (record { absolute = join root relative; root = root })
  after_openat2 root relative leaf_directory (err (other_errno m)) =
      walk_nofollow root relative leaf_directory
  after_openat2 root relative leaf_directory (err emlink) =
      walk_nofollow root relative leaf_directory
  after_openat2 root relative leaf_directory (err _) =
      err (escape (codes "Path escapes managed root or uses disallowed symlink"))

  unfoldable pub resolve_beneath : PathBuf → PathBuf → Bool → Result PathBoundError BoundPath
  resolve_beneath root relative leaf_directory = do
    open_root root
    if is_empty relative
        then ok (record { absolute = root; root = root })
        else (path_to_cstring relative
            >> after_openat2 root relative leaf_directory (os.openat2 root relative leaf_directory))

  unfoldable pub resolve_existing_under : Text → List PathBuf → Result PathBoundError BoundPath
  resolve_existing_under path roots = do
    candidate ← parse_request_path path
    found ← match_root candidate roots
    reject_symlink_components found.0 found.1
    or_portable (resolve_beneath found.0 found.1 false)
        (resolve_via_canonicalize found.0 found.1 true)

  -- the check of an existing target by `resolve_for_write_under`
  unfoldable pub check_target : BoundPath → Text → Result PathBoundError BoundPath
  check_target parent name =
      let absolute = join parent.absolute (normal name ∷ []) in
      if os.exists absolute
      then (or_io (os.symlink_metadata absolute) >>= λ kind.
          fail_if (is_symlink kind) no_symlinks
          >> ok (record { absolute = absolute; root = parent.root }))
      else ok (record { absolute = absolute; root = parent.root })

  unfoldable pub portable_parent : PathBuf → PathBuf → Result PathBoundError BoundPath
  portable_parent root parent_rel =
      if is_empty parent_rel
      then (ensure_root_dir root >> ok (record { absolute = root; root = root }))
      else resolve_via_canonicalize root parent_rel true

  unfoldable pub portable_target : PathBuf → PathBuf → Text → Result PathBoundError BoundPath
  portable_target root parent_rel name = do
    parent ← portable_parent root parent_rel
    fail_if (not (os.is_dir parent.absolute))
        (escape (codes "Write parent is not a directory under a managed root"))
    ok (record { absolute = join parent.absolute (normal name ∷ []); root = parent.root })

  abbrev pub or_portable_target :
      Result PathBoundError BoundPath
      → Text
      → Result PathBoundError BoundPath
      → Result PathBoundError BoundPath
  or_portable_target (ok parent) name other = check_target parent name
  or_portable_target (err (escape m)) name other = err (escape m)
  or_portable_target (err (io m)) name other = other

  unfoldable pub resolve_for_write_under : Text → List PathBuf → Result PathBoundError BoundPath
  resolve_for_write_under path roots = do
    candidate ← parse_request_path path
    found ← match_root candidate roots
    name ← or_err (file_name found.1) (escape (codes "Write path must name a file"))
    fail_if (text_eq name one_dot || text_eq name two_dots)
        (escape (codes "Invalid write target name"))
    let parent_rel = pop found.1
    reject_symlink_components found.0 parent_rel
    or_portable_target (resolve_beneath found.0 parent_rel true) name
        (portable_target found.0 parent_rel name)
