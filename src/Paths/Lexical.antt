-- ===== src/Paths/Lexical.antt =====
-- src/service/path_bounds.rs: a request's path, its normal form, and the managed root that it lies under.
-- The environment is an argument.
pub mod Normal
pub mod Roots
pub mod Managed
use rust_panel.Prelude.Map.{or_else}
use rust_panel.Prelude.{
  [], ◌∷◌, none, some, ok, err, true, false, Bool, List, Option, Text, ℕ, Result, byte_len,
  if◌then◌else◌, is_empty, ltb, one_of, text_eq, fail_if, is_whitespace, to_ascii_lowercase, ◌&&◌,
  ◌==◌, ◌||◌, any, not, trim,
}
use rust_panel.Prelude.{◌>>=◌, ◌>>◌, codes, ◌++◌, reverse}

-- `std::path::Component` on Unix
pub data Component : Type 0 where
  root_dir cur_dir parent_dir : Component
  normal : Text → Component

abbrev pub PathBuf : Type 0
PathBuf = List Component

pub data PathBoundError : Type 0 where
  escape io : Text → PathBoundError

-- `PathBoundError::is_escape`
unfoldable pub is_escape : PathBoundError → Bool
is_escape (escape m) = true
is_escape (io m) = false

-- the pieces between the characters of a kind: `split`
abbrev pub cons_piece : ℕ → ℕ → List Text → List Text
cons_piece sep c [] = (c ∷ []) ∷ []
cons_piece sep c (piece ∷ pieces) = if c == sep then [] ∷ (piece ∷ pieces) else (c ∷ piece) ∷ pieces

unfoldable pub split_on : ℕ → Text → List Text
split_on sep [] = [] ∷ []
split_on sep (c ∷ s) = cons_piece sep c (split_on sep s)

abbrev pub one_dot : Text
one_dot = codes "."

abbrev pub two_dots : Text
two_dots = codes ".."

-- `PathBuf::from(s).components()`, from the pieces between slashes: empty pieces and dots are skipped.
unfoldable pub pieces : List Text → PathBuf
pieces [] = []
pieces (p ∷ ps) =
    let rest = pieces ps in
    if is_empty p || text_eq p one_dot
    then rest
    else if text_eq p two_dots
    then parent_dir ∷ rest
    else normal p ∷ rest

-- a first piece that is a dot is a component of its own
abbrev pub relative_pieces : List Text → PathBuf
relative_pieces [] = []
relative_pieces (p ∷ ps) = if text_eq p one_dot then cur_dir ∷ pieces ps else pieces (p ∷ ps)

unfoldable pub components : Text → PathBuf
components [] = []
components (c ∷ s) =
    if c == b'/'
    then root_dir ∷ pieces (split_on b'/' s)
    else relative_pieces (split_on b'/' (c ∷ s))

abbrev pub is_absolute : PathBuf → Bool
is_absolute (root_dir ∷ p) = true
is_absolute _ = false

-- the text of a path, without a slash at its end
abbrev pub name_of : Component → Text
name_of root_dir = []
name_of cur_dir = one_dot
name_of parent_dir = two_dots
name_of (normal s) = s

unfoldable pub text_from : PathBuf → Text
text_from [] = []
text_from (c ∷ p) = b'/' ∷ name_of c ++ text_from p

unfoldable pub text_of : PathBuf → Text
text_of [] = []
text_of (root_dir ∷ []) = b'/' ∷ []
text_of (root_dir ∷ p) = text_from p
text_of (c ∷ p) = name_of c ++ text_from p

-- `PathBuf::pop`: the last component, unless it is the root
unfoldable pub pop : PathBuf → PathBuf
pop [] = []
pop (root_dir ∷ []) = root_dir ∷ []
pop (c ∷ []) = []
pop (c ∷ d ∷ p) = c ∷ pop (d ∷ p)

-- a step of the loop of `normalize_lexical`; pushing an absolute path replaces the buffer
abbrev pub push : PathBuf → Component → PathBuf
push out root_dir = root_dir ∷ []
push out cur_dir = out
push out (normal s) = out ++ normal s ∷ []
push out parent_dir = pop out

unfoldable pub push_all : PathBuf → PathBuf → PathBuf
push_all out [] = out
push_all out (c ∷ p) = push_all (push out c) p

abbrev pub or_root : PathBuf → PathBuf
or_root [] = root_dir ∷ []
or_root (c ∷ p) = c ∷ p

unfoldable pub normalize_lexical : PathBuf → PathBuf
normalize_lexical path = or_root (push_all [] path)

abbrev pub is_parent_dir : Component → Bool
is_parent_dir parent_dir = true
is_parent_dir _ = false

unfoldable pub parse_request_path : Text → Result PathBoundError PathBuf
parse_request_path path = do
  fail_if (is_empty path || any (λ c. c == 0) path) (escape (codes "Empty or NUL path rejected"))
  fail_if (any is_parent_dir (components path))
      (escape (codes "Path must not contain '..' components"))
  fail_if (not (is_absolute (components path)))
      (escape (codes "File paths must be absolute under a managed root"))
  ok (normalize_lexical (components path))

-- `==` on components
unfoldable pub component_eq : Component → Component → Bool
component_eq root_dir root_dir = true
component_eq cur_dir cur_dir = true
component_eq parent_dir parent_dir = true
component_eq (normal s) (normal t) = text_eq s t
component_eq _ _ = false

-- `Path::strip_prefix`, of the second path; `starts_with` where it answers
unfoldable pub strip_prefix : PathBuf → PathBuf → Option PathBuf
strip_prefix [] p = some p
strip_prefix (b ∷ base) [] = none
strip_prefix (b ∷ base) (c ∷ p) =
    let rest = strip_prefix base p in if component_eq b c then rest else none

abbrev pub is_some : {A : Type 0} → Option A → Bool
is_some none = false
is_some (some a) = true

abbrev pub path_len : PathBuf → ℕ
path_len p = byte_len (text_of p)

-- The test `best.map(|(l, _)| len > l).unwrap_or(true)`, where the length of a root is that of its path printed from
-- its components, without doubled or trailing slashes.
abbrev pub is_better : PathBuf → Option PathBuf → Bool
is_better root none = true
is_better root (some best) = ltb (path_len best) (path_len root)

-- the loop of `match_root`
unfoldable pub best_root : PathBuf → Option PathBuf → List PathBuf → Option PathBuf
best_root candidate best [] = best
best_root candidate best (root ∷ roots) =
    best_root candidate
      (if is_some (strip_prefix root candidate) && is_better root best then some root else best)
      roots

abbrev pub outside : PathBoundError
outside = escape (codes "Path is outside managed file roots")

abbrev pub or_err : {A : Type 0} → Option A → PathBoundError → Result PathBoundError A
or_err none e = err e
or_err (some a) e = ok a

unfoldable pub match_root : PathBuf → List PathBuf → Result PathBoundError (PathBuf × PathBuf)
match_root candidate roots = do
  root ← or_err (best_root candidate none roots) outside
  relative ← or_err (strip_prefix root candidate) outside
  ok (root, relative)

-- `expert_mode`, of the variable's value
unfoldable pub expert_mode : Option Text → Bool
expert_mode value =
    one_of (codes "1" ∷ codes "true" ∷ codes "yes" ∷ codes "on" ∷ [])
      (to_ascii_lowercase (or_else value []))

-- the loop over the parts of RP_FILE_ROOTS
unfoldable pub configured_roots : List Text → List PathBuf
configured_roots [] = []
configured_roots (part ∷ parts) =
    let rest = configured_roots parts in
    let path = components (trim part) in
    if is_empty (trim part)
    then rest
    else if is_absolute path
    then normalize_lexical path ∷ rest
    else rest

abbrev pub path_eq : PathBuf → PathBuf → Bool
path_eq p q = elim (strip_prefix p q) [ some rest ↦ is_empty rest | none ↦ false ]

abbrev pub named_roots : Option Text → List PathBuf
named_roots none = []
named_roots (some raw) = configured_roots (split_on b':' raw)

abbrev pub with_root : Bool → List PathBuf → List PathBuf
with_root expert roots =
    if expert && not (any (λ r. path_eq r (root_dir ∷ [])) roots)
    then roots ++ (root_dir ∷ []) ∷ []
    else roots

-- the roots that stand where none is configured
abbrev pub or_default : List PathBuf → List PathBuf
or_default [] =
    (root_dir ∷ normal (codes "www") ∷ [])
    ∷ (root_dir ∷ normal (codes "var") ∷ normal (codes "www") ∷ [])
    ∷ []
or_default (r ∷ roots) = r ∷ roots

-- `managed_roots`, of RP_FILE_ROOTS and RP_FILE_EXPERT_MODE
unfoldable pub managed_roots : Option Text → Option Text → List PathBuf
managed_roots file_roots expert =
    or_default (with_root (expert_mode expert) (named_roots file_roots))
