-- ===== src/Paths/Examples.antt =====
-- The theorems on paths at a concrete file system.
use rust_panel.Prelude.Map.{lookup}
use rust_panel.Paths.Lexical.Normal.{parse_request_path-text_of}
use rust_panel.Paths.Write.Draft.{IsReplaced, written, IsIntact}
use rust_panel.Paths.Write.Atomic.{write_in_parent-IsReplaced}
use rust_panel.Paths.Resolve.Bound.{IsBound, resolve_existing_under-IsBound}
use rust_panel.Paths.Write.{Directory, write_in_parent, temp_name, io_error}
use rust_panel.Paths.Resolve.Write.{IsTarget, resolve_for_write_under-IsTarget}
use rust_panel.Paths.Lexical.Roots.{IsMatch, match_root-IsMatch}
use rust_panel.Db.Safe.{Safe}
use rust_panel.Prelude.{
  refl, [], ◌∷◌, ok, true, false, List, Text, text_eq, Result, ◌≡◌, byte_len, ◌⊎◌, Bool,
}
use rust_panel.Paths.Lexical.{
  root_dir, normal, text_from, component_eq, PathBuf, parse_request_path, components, match_root,
  text_of, split_on, pieces, pop, normalize_lexical, push_all, best_root, strip_prefix,
}
use rust_panel.Paths.Resolve.{
  file, directory, BoundPath, Os, resolve_existing_under, resolve_for_write_under, check_target,
  IoError, file_name, open_root, Kind, path_to_cstring, reject_symlink_components, resolve_beneath,
  after_openat2, Errno,
}
use rust_panel.Prelude.{codes, ◌++◌}

-- every entry is a file or directory as it is asked for
abbrev os : Os
os = record {
  symlink_metadata = λ p. ok directory;
  canonicalize = λ p. ok p;
  exists = λ p. false;
  is_dir = λ p. true;
  open_dir = λ p. ok tt;
  openat2 = λ p q leaf. ok tt;
  openat = λ p name leaf. ok tt;
}

abbrev www : PathBuf
www = root_dir ∷ normal (codes "www") ∷ []

abbrev roots : List PathBuf
roots = (root_dir ∷ []) ∷ www ∷ []

abbrev page : Text
page = codes "/www/site//./a.txt"

abbrev relative : PathBuf
relative = normal (codes "site") ∷ normal (codes "a.txt") ∷ []

abbrev page_path : PathBuf
page_path = www ++ relative

abbrev bound : BoundPath
bound = record { absolute = page_path; root = www }

parse_request_path-text_of_example : parse_request_path (text_of page_path) ≡ ok page_path
unfolding text_eq
parse_request_path-text_of_example = parse_request_path-text_of page_path refl

match_root-IsMatch_example : IsMatch page_path roots (match_root page_path roots)
match_root-IsMatch_example = match_root-IsMatch page_path roots

page_resolved : resolve_existing_under os page roots ≡ ok bound
unfolding resolve_existing_under parse_request_path components split_on pieces text_eq
    normalize_lexical push_all match_root best_root strip_prefix component_eq text_of text_from
    byte_len reject_symlink_components resolve_beneath open_root path_to_cstring after_openat2
page_resolved = refl

resolve_existing_under-IsBound_example : (rel : PathBuf) × IsBound os page roots bound rel
resolve_existing_under-IsBound_example =
    resolve_existing_under-IsBound os page roots bound refl page_resolved

target_resolved : resolve_for_write_under os page roots ≡ ok bound
unfolding resolve_for_write_under check_target file_name pop parse_request_path components split_on
    pieces text_eq normalize_lexical push_all match_root best_root strip_prefix component_eq text_of
    text_from byte_len reject_symlink_components resolve_beneath open_root path_to_cstring
    after_openat2
target_resolved = refl

resolve_for_write_under-IsTarget_example : IsTarget os page roots bound
resolve_for_write_under-IsTarget_example =
    resolve_for_write_under-IsTarget os page roots bound refl target_resolved

abbrev fstat : PathBuf → Result IoError Kind
fstat p = ok file

abbrev directory_entries : Directory
directory_entries =
    (
      codes "a.txt",
      record { kind = file; bytes = 1 ∷ 2 ∷ []; uid = 33; gid = 33; mode = 420; synced = true },
    )
    ∷ []

write_in_parent-IsReplaced_example :
    Safe
      (write_in_parent (codes "a.txt") (codes "Zx9") 0 0 (7 ∷ 8 ∷ []))
      directory_entries
      (λ _ u.
        IsReplaced
          (temp_name (codes "a.txt") (codes "Zx9"))
          (codes "a.txt")
          (written (lookup (codes "a.txt") directory_entries) (7 ∷ 8 ∷ []) 0 0)
          directory_entries
          u)
      (λ e u.
        IsIntact (temp_name (codes "a.txt") (codes "Zx9")) directory_entries u
        ⊎ ((m : Text) × (e ≡ io_error (codes "parent sync failed") m)
            × IsReplaced
                (temp_name (codes "a.txt") (codes "Zx9"))
                (codes "a.txt")
                (written (lookup (codes "a.txt") directory_entries) (7 ∷ 8 ∷ []) 0 0)
                directory_entries
                u))
write_in_parent-IsReplaced_example =
    write_in_parent-IsReplaced (codes "a.txt") (codes "Zx9") 0 0 (7 ∷ 8 ∷ []) directory_entries

abbrev open_nofollow : PathBuf → Bool → Result Errno (Unit {0})
open_nofollow p leaf = ok tt
