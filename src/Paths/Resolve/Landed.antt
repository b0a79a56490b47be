-- ===== src/Paths/Resolve/Landed.antt =====
-- Where the two ways of a resolution land, when they succeed.
use rust_panel.Paths.Results.{
  >>-ok, >>=-ok, ok_injective, fail_if-ok, or_io-ok, or_missing-ok, if_cases,
}
use rust_panel.Paths.Lexical.Roots.{covers}
use rust_panel.Paths.Lexical.Normal.{is_name}
use rust_panel.Prelude.{
  refl, [], ◌∷◌, ok, err, true, inl, inr, retain, all, is_empty, ◌≡◌, ap, ◌⊎◌, Bool, arith, ◌∙◌,
  Result, sym, not,
}
use rust_panel.Paths.Lexical.{root_dir, cur_dir, parent_dir, normal, PathBuf, is_some, strip_prefix}
use rust_panel.Paths.Resolve.{
  enoent, enotdir, eloop, exdev, emlink, other_errno, Os, retain, BoundPath, is_empty,
  after_openat2, is_normal, join, resolve_beneath, resolve_via_canonicalize, walk_nofollow, Bool,
  canonical_under, Result, Errno, ensure_root_dir, open_root, reject_symlink_components, or_io,
  or_missing, missing, is_symlink, not, path_to_cstring, walk,
}
use rust_panel.Prelude.{◌++◌}
use mathlib.Core.List.{append-nil}

-- The path at `root` and below, as it is written, or as its canonical form, which is under that of the root.
pub record IsLanded (os : Os) (root relative : PathBuf) (b : BoundPath) : Type 0 where
  pub rooted : b.root ≡ root
  pub placed :
      (b.absolute ≡ root ++ relative)
      ⊎ ((root_canon : PathBuf) × (os.canonicalize root ≡ ok root_canon)
          × (os.canonicalize (root ++ relative) ≡ ok b.absolute)
          × (covers b.absolute root_canon ≡ true))

pub join-names : (base p : PathBuf) → all is_name p ≡ true → join base p ≡ base ++ p
join-names base [] h = refl
join-names base (root_dir ∷ p) h = cc
join-names base (cur_dir ∷ p) h = refl
join-names base (parent_dir ∷ p) h = refl
join-names base (normal s ∷ p) h = refl

pub empty_path : (p : PathBuf) → is_empty p ≡ true → p ≡ []
empty_path [] h = refl
empty_path (c ∷ p) h = cc

pub names-normal : (p : PathBuf) → all is_name p ≡ true → retain is_normal p ≡ p
unfolding retain
names-normal [] h = refl
names-normal (normal s ∷ p) h = ground (arith, names-normal p)
names-normal (root_dir ∷ p) h = cc
names-normal (cur_dir ∷ p) h = cc
names-normal (parent_dir ∷ p) h = cc

module _ (os : Os) (root relative : PathBuf) (names : all is_name relative ≡ true) where
  pub at_root :
      (b : BoundPath)
      → is_empty relative ≡ true
      → b ≡ record { absolute = root; root = root }
      → IsLanded os root relative b
  at_root b none_left e = record {
    rooted = ap BoundPath.root e;
    placed = inl (
        ap BoundPath.absolute e
        ∙ sym (append-nil root)
        ∙ ap (λ p. root ++ p) (sym (empty_path relative none_left)));
  }

  as_written :
      (b : BoundPath)
      → b ≡ record { absolute = join root relative; root = root }
      → IsLanded os root relative b
  as_written b e = record {
    rooted = ap BoundPath.root e;
    placed = inl (ap BoundPath.absolute e ∙ join-names root relative names);
  }

  walk_nofollow-IsLanded :
      (leaf : Bool) (b : BoundPath)
      → walk_nofollow os root relative leaf ≡ ok b
      → IsLanded os root relative b
  unfolding walk_nofollow
  walk_nofollow-IsLanded leaf b h =
      let (opened, h1) = >>-ok (open_root os root) _ h in
      elim (if_cases (is_empty (retain is_normal relative)) _ _ h1) [
        | inl (none_left, here) ↦
            at_root b (ap is_empty (sym (names-normal relative names)) ∙ none_left)
              (sym (ok_injective here))
        | inr (some_left, below) ↦
            let (walked, h2) = >>-ok (walk os root leaf (retain is_normal relative)) _ below in
            as_written b (sym (ok_injective h2))
      ]

  after_openat2-IsLanded :
      (leaf : Bool) (r : Result Errno (Unit {0})) (b : BoundPath)
      → after_openat2 os root relative leaf r ≡ ok b
      → IsLanded os root relative b
  unfolding after_openat2
  after_openat2-IsLanded leaf (ok u) b h =
      let (kind, there, h1) = >>=-ok (or_io (os.symlink_metadata (join root relative))) _ h in
      let (plain, h2) = fail_if-ok (is_symlink kind) _ _ h1 in as_written b (sym (ok_injective h2))
  after_openat2-IsLanded leaf (err (other_errno m)) b h = walk_nofollow-IsLanded leaf b h
  after_openat2-IsLanded leaf (err emlink) b h = walk_nofollow-IsLanded leaf b h
  after_openat2-IsLanded leaf (err enoent) b h = cc h
  after_openat2-IsLanded leaf (err enotdir) b h = cc h
  after_openat2-IsLanded leaf (err eloop) b h = cc h
  after_openat2-IsLanded leaf (err exdev) b h = cc h

  pub resolve_beneath-IsLanded :
      (leaf : Bool) (b : BoundPath)
      → resolve_beneath os root relative leaf ≡ ok b
      → IsLanded os root relative b
  unfolding resolve_beneath
  resolve_beneath-IsLanded leaf b h =
      let (opened, h1) = >>-ok (open_root os root) _ h in
      elim (if_cases (is_empty relative) _ _ h1) [
        | inl (none_left, here) ↦ at_root b none_left (sym (ok_injective here))
        | inr (some_left, below) ↦
            let (clean, h2) = >>-ok (path_to_cstring relative) _ below in
            after_openat2-IsLanded leaf (os.openat2 root relative leaf) b h2
      ]

  pub resolve_via_canonicalize-IsLanded :
      (b : BoundPath)
      → resolve_via_canonicalize os root relative true ≡ ok b
      → IsLanded os root relative b
  unfolding resolve_via_canonicalize canonical_under
  resolve_via_canonicalize-IsLanded b h =
      let (dir, h1) = >>-ok (ensure_root_dir os root) _ h in
      let (plain, h2) = >>-ok (reject_symlink_components os root relative) _ h1 in
      let (canon, c, h3) =
        >>=-ok (or_missing missing (os.canonicalize (join root relative))) _ h2 in
      let (root_canon, r, h4) = >>=-ok (or_io (os.canonicalize root)) _ h3 in
      let (under, h5) = fail_if-ok (not (is_some (strip_prefix root_canon canon))) _ _ h4 in
      let e = sym (ok_injective h5) in
      record {
        rooted = ap BoundPath.root e;
        placed = inr (
          root_canon,
          or_io-ok (os.canonicalize root) r,
          ap os.canonicalize (sym (join-names root relative names))
              ∙ or_missing-ok missing (os.canonicalize (join root relative)) c
              ∙ ap (λ p. ok (BoundPath.absolute p)) (sym e),
          ap (λ p. covers (BoundPath.absolute p) root_canon) e ∙ ground arith,
        );
      }
