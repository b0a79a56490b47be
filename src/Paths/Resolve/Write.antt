-- ===== src/Paths/Resolve/Write.antt =====
-- What a request for writing is bound to.
use rust_panel.Paths.Results.{>>=-ok, if_cases, fail_if-ok, >>-ok, ok_injective, or_err-ok}
use rust_panel.Paths.Resolve.Links.{NoLinks, reject_symlink_components-NoLinks}
use rust_panel.Paths.Lexical.Roots.{IsBest, covers, match_root-outside}
use rust_panel.Paths.Resolve.Landed.{
  IsLanded, resolve_beneath-IsLanded, at_root, resolve_via_canonicalize-IsLanded,
}
use rust_panel.Paths.Resolve.Bound.{IsMatched, matched}
use rust_panel.Paths.Lexical.Normal.{is_name}
use rust_panel.Paths.Resolve.{
  Os, file_name, resolve_existing_under, resolve_for_write_under, Text, check_target, BoundPath,
  Result, join, portable_parent, portable_target, is_empty, or_io, resolve_beneath, is_symlink, not,
  or_portable_target, ensure_root_dir, text_eq, reject_symlink_components,
}
use rust_panel.Prelude.{
  refl, [], ◌∷◌, some, ok, err, true, false, inl, inr, Text, all, List, ◌≡◌, Result, arith,
  all-append, any, ap, is_empty, sym, not, ◌∙◌, subst, text_eq, ◌||◌,
}
use rust_panel.Paths.Lexical.{
  root_dir, cur_dir, parent_dir, normal, escape, io, PathBuf, pop, components, is_absolute,
  parse_request_path, PathBoundError, match_root, or_err, outside, one_dot, two_dots,
}
use rust_panel.Prelude.{◌++◌}

-- The target of a write: a name in a directory that is resolved below a managed root.
pub record IsTarget (os : Os) (path : Text) (roots : List PathBuf) (b : BoundPath) : Type 0 where
  pub directory : BoundPath
  pub parent : PathBuf
  pub name : Text
  pub request : components path ≡ b.root ++ (parent ++ normal name ∷ [])
  pub best : IsBest (b.root ++ (parent ++ normal name ∷ [])) roots b.root
  pub names : all is_name (parent ++ normal name ∷ []) ≡ true
  pub unlinked : NoLinks os b.root parent
  pub landed : IsLanded os b.root parent directory
  pub target : b.absolute ≡ directory.absolute ++ normal name ∷ []

file_name-some :
    (p : PathBuf) {name : Text} → file_name p ≡ some name → p ≡ pop p ++ normal name ∷ []
unfolding file_name pop
file_name-some [] h = cc
file_name-some (normal s ∷ []) h = ground arith
file_name-some (root_dir ∷ []) h = cc
file_name-some (cur_dir ∷ []) h = cc
file_name-some (parent_dir ∷ []) h = cc
file_name-some (c ∷ d ∷ p) {name} h = ap (λ q. c ∷ q) (file_name-some (d ∷ p) h)

module _ (os : Os) where
  check_target-ok :
      (parent b : BoundPath) (name : Text)
      → check_target os parent name ≡ ok b
      → b ≡ record { absolute = join parent.absolute (normal name ∷ []); root = parent.root }
  unfolding check_target
  check_target-ok parent b name h =
      elim (if_cases (os.exists (join parent.absolute (normal name ∷ []))) _ _ h) [
        | inl (there, h1) ↦
            let (kind, met, h2) =
              >>=-ok (or_io (os.symlink_metadata (join parent.absolute (normal name ∷ [])))) _ h1 in
            let (plain, h3) = fail_if-ok (is_symlink kind) _ _ h2 in sym (ok_injective h3)
        | inr (new, h1) ↦ sym (ok_injective h1)
      ]

  module _ (root parent : PathBuf) (names : all is_name parent ≡ true) where
    portable_parent-IsLanded :
        (b : BoundPath) → portable_parent os root parent ≡ ok b → IsLanded os root parent b
    unfolding portable_parent
    portable_parent-IsLanded b h = elim (if_cases (is_empty parent) _ _ h) [
      | inl (none_left, h1) ↦
          let (dir, h2) = >>-ok (ensure_root_dir os root) _ h1 in
          at_root os root parent names b none_left (sym (ok_injective h2))
      | inr (some_left, h1) ↦ resolve_via_canonicalize-IsLanded os root parent names b h1
    ]

    -- A directory that the parent landed in, and the target in it.
    abbrev Found : Text → BoundPath → Type 0
    Found name b =
        (d : BoundPath) × IsLanded os root parent d
        × (b ≡ record { absolute = join d.absolute (normal name ∷ []); root = d.root })

    portable_target-Found :
        (name : Text) (b : BoundPath) → portable_target os root parent name ≡ ok b → Found name b
    unfolding portable_target
    portable_target-Found name b h =
        let (d, met, h1) = >>=-ok (portable_parent os root parent) _ h in
        let (dir, h2) = fail_if-ok (not (os.is_dir d.absolute)) _ _ h1 in
        (d, portable_parent-IsLanded d met, sym (ok_injective h2))

    or_portable_target-Found :
        (r : Result PathBoundError BoundPath) (name : Text) (b : BoundPath)
        → resolve_beneath os root parent true ≡ r
        → or_portable_target os r name (portable_target os root parent name) ≡ ok b
        → Found name b
    or_portable_target-Found (ok d) name b same h =
        (d, resolve_beneath-IsLanded os root parent names true d same, check_target-ok d b name h)
    or_portable_target-Found (err (escape m)) name b same h = cc h
    or_portable_target-Found (err (io m)) name b same h = portable_target-Found name b h

names_of_parent :
    (p : PathBuf) (name : Text) → all is_name (p ++ normal name ∷ []) ≡ true → all is_name p ≡ true
names_of_parent p name h = ground (arith, all-append is_name p (normal name ∷ []))

IsMatched-IsTarget :
    (os : Os) (path : Text) (roots : List PathBuf) (root relative : PathBuf) (name : Text)
    (b : BoundPath) (names : all is_name (pop relative) ≡ true)
    → IsMatched path roots root relative
    → relative ≡ pop relative ++ normal name ∷ []
    → NoLinks os root (pop relative)
    → Found os root (pop relative) names name b
    → IsTarget os path roots b
IsMatched-IsTarget os path roots root relative name b names m split n (d, l, e) =
    let at = sym (ap BoundPath.root e ∙ l.rooted) in
    record {
      directory = d;
      parent = pop relative;
      name = name;
      request =
          m.request
          ∙ ap (λ r. root ++ r) split
          ∙ ap (λ r. r ++ (pop relative ++ normal name ∷ [])) at;
      best =
          subst (λ r. IsBest (r ++ (pop relative ++ normal name ∷ [])) roots r) at
            (subst (λ r. IsBest (root ++ r) roots root) split m.best);
      names = ap (all is_name) (sym split) ∙ m.names;
      unlinked = subst (λ r. NoLinks os r (pop relative)) at n;
      landed = subst (λ r. IsLanded os r (pop relative) d) at l;
      target = ap BoundPath.absolute e;
    }

-- Whatever the operating system answers, with absolute roots: a request that is resolved for writing names an entry
-- of a directory below one of the managed roots, the one with the longest text that it lies under; no entry on the
-- way down to that directory was a symlink; and the target is that name in the directory as it is written, or in
-- its canonical form, which is under that of the root.
pub resolve_for_write_under-IsTarget :
    (os : Os) (path : Text) (roots : List PathBuf) (b : BoundPath)
    → all is_absolute roots ≡ true
    → resolve_for_write_under os path roots ≡ ok b
    → IsTarget os path roots b
unfolding resolve_for_write_under
resolve_for_write_under-IsTarget os path roots b absolute h =
    let (candidate, parsed, h1) = >>=-ok (parse_request_path path) _ h in
    let (found, split, h2) = >>=-ok (match_root candidate roots) _ h1 in
    let (root, relative) = found in
    let (name, named, h3) = >>=-ok (or_err (file_name relative) _) _ h2 in
    let (plain_name, h4) = fail_if-ok (text_eq name one_dot || text_eq name two_dots) _ _ h3 in
    let (plain, h5) = >>-ok (reject_symlink_components os root (pop relative)) _ h4 in
    let m = matched path roots candidate root relative absolute parsed split in
    let parts = file_name-some relative (or_err-ok (file_name relative) _ named) in
    let names = names_of_parent (pop relative) name (ap (all is_name) (sym parts) ∙ m.names) in
    IsMatched-IsTarget os path roots root relative name b names m parts
      (reject_symlink_components-NoLinks os root (pop relative) plain)
      (or_portable_target-Found os root (pop relative) names
        (resolve_beneath os root (pop relative) true) name b refl h5)

-- A request under no managed root is refused as an escape, for reading and for writing, whatever the operating system
-- answers.
resolve-outside :
    (os : Os) (path : Text) (roots : List PathBuf) (candidate : PathBuf)
    → parse_request_path path ≡ ok candidate
    → any (covers candidate) roots ≡ false
    → (resolve_existing_under os path roots ≡ err outside)
      × (resolve_for_write_under os path roots ≡ err outside)
unfolding resolve_existing_under resolve_for_write_under
resolve-outside os path roots candidate parsed apart = (
  rw (parsed) (rw (match_root-outside candidate roots apart) refl),
  rw (parsed) (rw (match_root-outside candidate roots apart) refl),
)
