-- ===== src/Paths/Write.antt =====
-- src/service/path_bounds.rs: the atomic write of a file, as system calls on its directory. The state is the
-- directory's entries; each call is answered or fails with the name of its errno, by the list of faults of Db.
-- The fresh suffix and the owner of new files are arguments.
pub mod Draft
pub mod Atomic
use rust_panel.Paths.Open.{map_openat_errno, is_file}
use rust_panel.Prelude.{
  [], ◌∷◌, none, some, ok, err, false, List, Result, Text, ℕ, Option, Bool, if◌then◌else◌, text_eq,
  ◌==◌, ◌%◌, ◌&&◌,
}
use rust_panel.Paths.Lexical.{escape, io, normal, PathBoundError}
use rust_panel.Paths.Resolve.{
  file, directory, enoent, eloop, emlink, other_errno, Kind, Errno, path_to_cstring,
}
use rust_panel.Prelude.Map.{or_else, Map, lookup, upsert, remove, has_key, modify, keys}
use rust_panel.Prelude.{true}
use rust_panel.Prelude.{codes, ◌++◌}
use rust_panel.Db.{◌>>=◌, ◌>>◌, Db, Conn, constrained, pure, query, update, throw, acquire}

-- `synced` tells whether what the file holds is on the disk: `fsync` sets it, and each change takes it back.
pub record Entry : Type 0 where
  pub kind : Kind
  pub bytes : List ℕ
  pub uid : ℕ
  pub gid : ℕ
  pub mode : ℕ
  pub synced : Bool

abbrev pub Directory : Type 0
Directory = Map Entry

-- the errno that a fault names
unfoldable pub errno_of : Text → Errno
errno_of m =
    if text_eq m (codes "ELOOP")
    then eloop
    else if text_eq m (codes "EMLINK")
    then emlink
    else if text_eq m (codes "ENOENT")
    then enoent
    else other_errno m

abbrev pub openat_error : Text → Text → PathBoundError
openat_error prefix m = map_openat_errno prefix (errno_of m)

abbrev pub io_error : Text → Text → PathBoundError
io_error prefix m = io (prefix ++ codes ": " ++ m)

-- `openat` with O_CREAT and O_EXCL
abbrev pub already_there : Text → Directory → Option Text
already_there name t = if has_key name (keys t) then some (codes "EEXIST") else none

abbrev pub not_there : Text → Directory → Option Text
not_there name t = if has_key name (keys t) then none else some (codes "ENOENT")

abbrev pub new_file : ℕ → ℕ → Entry
new_file uid gid = record {
  kind = file;
  bytes = [];
  uid = uid;
  gid = gid;
  mode = 384;
  synced = false;
}

abbrev pub create : Text → ℕ → ℕ → Directory → Directory
create name uid gid t = upsert name (new_file uid gid) (λ e. e) t

abbrev pub set_bytes : List ℕ → Entry → Entry
set_bytes bytes e = record e { bytes = bytes; synced = false }

abbrev pub set_owner : ℕ → ℕ → Entry → Entry
set_owner uid gid e = record e { uid = uid; gid = gid; synced = false }

abbrev pub set_mode : ℕ → Entry → Entry
set_mode mode e = record e { mode = mode; synced = false }

-- `fsync`
abbrev pub set_synced : Entry → Entry
set_synced e = record e { synced = true }

-- `renameat` within the directory
abbrev pub rename_from : Text → Text → Option Entry → Directory → Directory
rename_from from to none t = t
rename_from from to (some e) t = upsert to e (λ _. e) (remove from t)

abbrev pub rename : Text → Text → Directory → Directory
rename from to t = rename_from from to (lookup from t) t

abbrev pub has_owner : ℕ → ℕ → Option Entry → Bool
has_owner uid gid none = false
has_owner uid gid (some e) = e.uid == uid && e.gid == gid

-- `preserve_metadata`, of the file that was created under a name; 4096 is 0o7777 and one
unfoldable pub preserve_metadata : Text → ℕ → ℕ → ℕ → Db Directory PathBoundError (Unit {0})
preserve_metadata name uid gid mode = do
  current ← query io (lookup name)
  if has_owner uid gid current
      then pure tt
      else update (io_error (codes "preserve ownership failed"))
          (λ t. (tt, modify name (set_owner uid gid) t))
  update (io_error (codes "preserve permissions failed"))
      (λ t. (tt, modify name (set_mode (mode % 4096)) t))

unfoldable pub preserve_existing : Text → Option Entry → Db Directory PathBoundError (Unit {0})
preserve_existing name none = pure tt
preserve_existing name (some e) = preserve_metadata name e.uid e.gid e.mode

-- the closure `write_result` of `linux::atomic_write_beneath`
unfoldable pub write_temp :
    Text → Text → ℕ → ℕ → Option Entry → List ℕ → Db Directory PathBoundError (Unit {0})
write_temp tmp name uid gid existing bytes = do
  constrained (openat_error (codes "temp create failed")) (already_there tmp)
      (λ t. (tt, create tmp uid gid t))
  update (io_error (codes "temp write failed")) (λ t. (tt, modify tmp (set_bytes bytes) t))
  preserve_existing tmp existing
  update (io_error (codes "temp sync failed")) (λ t. (tt, modify tmp set_synced t))
  constrained (openat_error (codes "atomic rename failed")) (not_there tmp)
      (λ t. (tt, rename tmp name t))
  acquire (io_error (codes "parent sync failed"))

-- After an error the temporary file is unlinked, and the answer of that is dropped.
unfoldable pub unlink : Text → Db Directory PathBoundError (Unit {0})
unlink name = update io (λ t. (tt, remove name t))

abbrev pub clean_up :
    Text
    → Result PathBoundError (Unit {0}) × Conn Directory
    → Result PathBoundError (Unit {0}) × Conn Directory
clean_up tmp (ok u, c) = (ok u, c)
clean_up tmp (err e, c) = (err e, (unlink tmp c).1)

-- `fstatat` of the target: a regular file, or none
abbrev pub existing_entry : Option Entry → Result PathBoundError (Option Entry)
existing_entry none = ok none
existing_entry (some e) =
    if is_file e.kind
    then ok (some e)
    else err (escape (codes "Write target must be a regular file"))

unfoldable pub existing_target : Text → Directory → Result PathBoundError (Option Entry)
existing_target name t = existing_entry (lookup name t)

unfoldable pub lift : {A : Type 0} → Result PathBoundError A → Db Directory PathBoundError A
lift (ok a) = pure a
lift (err e) = throw e

abbrev pub temp_name : Text → Text → Text
temp_name name suffix = name ++ (codes ".rp-tmp-" ++ suffix)

-- `linux::atomic_write_beneath` from the open parent on, under a name
unfoldable pub write_in_parent :
    Text → Text → ℕ → ℕ → List ℕ → Db Directory PathBoundError (Unit {0})
write_in_parent name suffix uid gid bytes = do
  let tmp = temp_name name suffix
  lift (path_to_cstring (normal tmp ∷ []))
  lift (path_to_cstring (normal name ∷ []))
  target ← query (openat_error (codes "write target metadata failed")) (existing_target name)
  existing ← lift target
  λ c. clean_up tmp (write_temp tmp name uid gid existing bytes c)
