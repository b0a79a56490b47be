-- ===== src/Paths/Resolve/Bound.antt =====
-- What a resolved request is bound to, whatever the operating system answers.
use rust_panel.Prelude.{refl, none, some, Option, Bool, is_empty}
use rust_panel.Paths.Resolve.Landed.{
  IsLanded, resolve_beneath-IsLanded, resolve_via_canonicalize-IsLanded,
}
use rust_panel.Paths.Results.{>>=-ok, >>-ok}
use rust_panel.Paths.Resolve.Links.{NoLinks, reject_symlink_components-NoLinks}
use rust_panel.Paths.Lexical.Roots.{IsBest, IsMatch, match_root-IsMatch, strip_prefix-some}
use rust_panel.Paths.Lexical.Normal.{IsCanonical, is_name, parse_request_path-ok}
use rust_panel.Paths.Resolve.{
  Os, resolve_existing_under, BoundPath, or_portable, reject_symlink_components, resolve_beneath,
  resolve_via_canonicalize, Option, Bool, is_empty,
}
use rust_panel.Prelude.{
  [], ◌∷◌, ok, err, true, false, inl, inr, Result, Text, List, all, ◌≡◌, any, Bool-cases, ◌⊎◌, ap,
  arith, subst, sym, all-append, ◌∙◌,
}
use rust_panel.Paths.Lexical.{
  root_dir, cur_dir, parent_dir, normal, escape, io, PathBuf, PathBoundError, is_absolute, path_eq,
  components, parse_request_path, match_root, strip_prefix,
}
use rust_panel.Prelude.{◌++◌}
use mathlib.Core.List.{append-nil}

path_eq-same : (p q : PathBuf) → path_eq p q ≡ true → p ≡ q
path_eq-same p q h = go (strip_prefix p q) refl h
  where
    go :
        (o : Option PathBuf)
        → strip_prefix p q ≡ o
        → (elim o as (λ _. Bool) [ none ↦ false | some rest ↦ is_empty rest ]) ≡ true
        → p ≡ q
    go none split k = cc
    go (some []) split k = sym (strip_prefix-some p q split ∙ append-nil p)
    go (some (c ∷ rest)) split k = cc

-- The roots that `managed_roots` gives are absolute.
absolute_listed :
    (root : PathBuf) (roots : List PathBuf)
    → all is_absolute roots ≡ true
    → any (path_eq root) roots ≡ true
    → is_absolute root ≡ true
absolute_listed root [] h m = cc
absolute_listed root (r ∷ roots) h m = elim (Bool-cases (path_eq root r)) [
  | inl same ↦ ap is_absolute (path_eq-same root r same) ∙ ground arith
  | inr other ↦ absolute_listed root roots (ground arith) (ground arith)
]

names_below :
    (root rel : PathBuf)
    → is_absolute root ≡ true
    → IsCanonical (root ++ rel)
    → all is_name rel ≡ true
names_below (root_dir ∷ root) rel h c = ground (arith, all-append is_name root rel)
names_below [] rel h c = cc
names_below (cur_dir ∷ root) rel h c = cc
names_below (parent_dir ∷ root) rel h c = cc
names_below (normal s ∷ root) rel h c = cc

-- The request `path` is for the names `relative` below the root of `b`; that root is the managed root with the longest text that
-- the request lies under; no entry on the way down was a symlink; and `b` is that path, as it is written or in the
-- canonical form of the operating system, under that of the root.
pub record IsBound (os : Os) (path : Text) (roots : List PathBuf) (b : BoundPath)
    (relative : PathBuf) : Type 0 where
  pub request : components path ≡ b.root ++ relative
  pub best : IsBest (b.root ++ relative) roots b.root
  pub names : all is_name relative ≡ true
  pub unlinked : NoLinks os b.root relative
  pub landed : IsLanded os b.root relative b

-- What parsing and matching give, for absolute roots.
pub record IsMatched (path : Text) (roots : List PathBuf) (root relative : PathBuf) : Type 0 where
  pub request : components path ≡ root ++ relative
  pub best : IsBest (root ++ relative) roots root
  pub names : all is_name relative ≡ true

pub matched :
    (path : Text) (roots : List PathBuf) (candidate root relative : PathBuf)
    → all is_absolute roots ≡ true
    → parse_request_path path ≡ ok candidate
    → match_root candidate roots ≡ ok (root, relative)
    → IsMatched path roots root relative
matched path roots candidate root relative absolute parsed found =
    let (same, canonical) = parse_request_path-ok path candidate parsed in
    let (best, split) =
      subst (IsMatch candidate roots) found (match_root-IsMatch candidate roots) in
    record {
      request = sym same ∙ split;
      best = subst (λ c. IsBest c roots root) split best;
      names =
          names_below root relative (absolute_listed root roots absolute best.listed)
            (subst IsCanonical split canonical);
    }

or_portable-ok :
    (r other : Result PathBoundError BoundPath) (b : BoundPath)
    → or_portable r other ≡ ok b
    → (r ≡ ok b) ⊎ (other ≡ ok b)
or_portable-ok (ok a) other b h = inl h
or_portable-ok (err (escape m)) other b h = cc h
or_portable-ok (err (io m)) other b h = inr h

IsMatched-IsBound :
    (os : Os) (path : Text) (roots : List PathBuf) (root relative : PathBuf) (b : BoundPath)
    → IsMatched path roots root relative
    → NoLinks os root relative
    → IsLanded os root relative b
    → IsBound os path roots b relative
IsMatched-IsBound os path roots root relative b m n l =
    let e = sym l.rooted in
    record {
      request = subst (λ r. components path ≡ r ++ relative) e m.request;
      best = subst (λ r. IsBest (r ++ relative) roots r) e m.best;
      names = m.names;
      unlinked = subst (λ r. NoLinks os r relative) e n;
      landed = subst (λ r. IsLanded os r relative b) e l;
    }

-- Whatever the operating system answers, with absolute roots: a request that is resolved for reading is for names
-- below one of the managed roots, the one with the longest text that it lies under; no entry on the way down was
-- a symlink; and the resolved path is that path, or its canonical form, which is under that of the root.
pub resolve_existing_under-IsBound :
    (os : Os) (path : Text) (roots : List PathBuf) (b : BoundPath)
    → all is_absolute roots ≡ true
    → resolve_existing_under os path roots ≡ ok b
    → (relative : PathBuf) × IsBound os path roots b relative
unfolding resolve_existing_under
resolve_existing_under-IsBound os path roots b absolute h =
    let (candidate, parsed, h1) = >>=-ok (parse_request_path path) _ h in
    let (found, split, h2) = >>=-ok (match_root candidate roots) _ h1 in
    let (root, relative) = found in
    let (plain, h3) = >>-ok (reject_symlink_components os root relative) _ h2 in
    let m = matched path roots candidate root relative absolute parsed split in
    let unlinked = reject_symlink_components-NoLinks os root relative plain in
    (
      relative,
      IsMatched-IsBound os path roots root relative b m unlinked
          (elim (or_portable-ok (resolve_beneath os root relative false)
            (resolve_via_canonicalize os root relative true) b h3) [
              | inl beneath ↦ resolve_beneath-IsLanded os root relative m.names false b beneath
              | inr portable ↦ resolve_via_canonicalize-IsLanded os root relative m.names b portable
            ]),
    )
