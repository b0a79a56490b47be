-- ===== src/Paths/Lexical/Managed.antt =====
-- The configured roots.
use rust_panel.Prelude.{
  refl, [], ◌∷◌, none, some, true, false, Option, List, Text, all, is_empty, ◌≡◌, arith, Bool,
  all-append,
}
use rust_panel.Paths.Lexical.{
  root_dir, cur_dir, parent_dir, normal, Option, PathBuf, configured_roots, managed_roots,
  normalize_lexical, pop, push_all, List, Text, is_absolute, is_empty, named_roots, or_root,
  components, split_on, trim, Bool, or_default, with_root, expert_mode,
}
use rust_panel.Prelude.{◌++◌}

pop-absolute : (p : PathBuf) → is_absolute p ≡ true → is_absolute (pop p) ≡ true
unfolding pop
pop-absolute (root_dir ∷ []) h = refl
pop-absolute (root_dir ∷ d ∷ p) h = refl
pop-absolute [] h = cc
pop-absolute (cur_dir ∷ p) h = cc
pop-absolute (parent_dir ∷ p) h = cc
pop-absolute (normal s ∷ p) h = cc

absolute-append : (p q : PathBuf) → is_absolute p ≡ true → is_absolute (p ++ q) ≡ true
absolute-append (root_dir ∷ p) q h = refl
absolute-append [] q h = cc
absolute-append (cur_dir ∷ p) q h = cc
absolute-append (parent_dir ∷ p) q h = cc
absolute-append (normal s ∷ p) q h = cc

push_all-absolute : (out p : PathBuf) → is_absolute out ≡ true → is_absolute (push_all out p) ≡ true
unfolding push_all
push_all-absolute out [] h = h
push_all-absolute out (root_dir ∷ p) h = push_all-absolute (root_dir ∷ []) p refl
push_all-absolute out (cur_dir ∷ p) h = push_all-absolute out p h
push_all-absolute out (parent_dir ∷ p) h = push_all-absolute (pop out) p (pop-absolute out h)
push_all-absolute out (normal s ∷ p) h =
    push_all-absolute (out ++ normal s ∷ []) p (absolute-append out (normal s ∷ []) h)

or_root-absolute : (p : PathBuf) → is_absolute p ≡ true → is_absolute (or_root p) ≡ true
or_root-absolute [] h = refl
or_root-absolute (c ∷ p) h = h

normalize_lexical-absolute :
    (p : PathBuf) → is_absolute p ≡ true → is_absolute (normalize_lexical p) ≡ true
unfolding normalize_lexical push_all
normalize_lexical-absolute (root_dir ∷ p) h =
    or_root-absolute _ (push_all-absolute (root_dir ∷ []) p refl)
normalize_lexical-absolute [] h = cc
normalize_lexical-absolute (cur_dir ∷ p) h = cc
normalize_lexical-absolute (parent_dir ∷ p) h = cc
normalize_lexical-absolute (normal s ∷ p) h = cc

configured_roots-absolute : (parts : List Text) → all is_absolute (configured_roots parts) ≡ true
unfolding configured_roots
configured_roots-absolute [] = refl
configured_roots-absolute (part ∷ parts) =
    ground
      (arith, configured_roots-absolute parts, normalize_lexical-absolute (components (trim part)))

named_roots-absolute : (file_roots : Option Text) → all is_absolute (named_roots file_roots) ≡ true
named_roots-absolute none = refl
named_roots-absolute (some raw) = configured_roots-absolute (split_on b':' raw)

with_root-absolute :
    (expert : Bool) (roots : List PathBuf)
    → all is_absolute roots ≡ true
    → all is_absolute (with_root expert roots) ≡ true
with_root-absolute expert roots h =
    ground (arith, all-append is_absolute roots ((root_dir ∷ []) ∷ []), h)

or_default-absolute :
    (roots : List PathBuf)
    → all is_absolute roots ≡ true
    → (is_empty (or_default roots) ≡ false) × (all is_absolute (or_default roots) ≡ true)
or_default-absolute [] h = (refl, refl)
or_default-absolute (r ∷ roots) h = (refl, h)

-- Whatever the environment holds, there is a managed root, and all managed roots are absolute.
managed_roots-absolute :
    (file_roots expert : Option Text)
    → (is_empty (managed_roots file_roots expert) ≡ false)
      × (all is_absolute (managed_roots file_roots expert) ≡ true)
unfolding managed_roots
managed_roots-absolute file_roots expert =
    or_default-absolute (with_root (expert_mode expert) (named_roots file_roots)) (
      with_root-absolute (expert_mode expert) (named_roots file_roots)
        (named_roots-absolute file_roots))
