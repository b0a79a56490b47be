-- ===== src/Paths/Lexical/Roots.antt =====
-- The managed root of a request: one of the roots that it lies under, with the longest text.
use rust_panel.Prelude.{ok, err, Result, ap, Option-cases, is_empty, ◌||◌, sym, ◌∙◌}
use rust_panel.Prelude.{
  refl, [], ◌∷◌, none, some, true, false, inl, inr, Bool, List, ◌++◌, ◌≡◌, any, arith, ◌↔◌, ◌⊎◌,
  All, Bool-cases, text_eq_iff, ◌≤◌, ◌&&◌, ltb,
}
use rust_panel.Paths.Lexical.{
  root_dir, cur_dir, parent_dir, normal, PathBuf, best_root, component_eq, strip_prefix, Bool,
  Component, path_eq, is_some, path_len, ltb, Result, match_root, PathBoundError, is_empty, outside,
}
use mathlib.Core.List.{append-nil}

component_eq_iff : (b c : Component) → (component_eq b c ≡ true) ↔ (b ≡ c)
unfolding component_eq
component_eq_iff root_dir root_dir = ground arith
component_eq_iff cur_dir cur_dir = ground arith
component_eq_iff parent_dir parent_dir = ground arith
component_eq_iff (normal s) (normal t) = ground (arith, text_eq_iff s t)
component_eq_iff root_dir cur_dir = ground arith
component_eq_iff root_dir parent_dir = ground arith
component_eq_iff root_dir (normal t) = ground arith
component_eq_iff cur_dir root_dir = ground arith
component_eq_iff cur_dir parent_dir = ground arith
component_eq_iff cur_dir (normal t) = ground arith
component_eq_iff parent_dir root_dir = ground arith
component_eq_iff parent_dir cur_dir = ground arith
component_eq_iff parent_dir (normal t) = ground arith
component_eq_iff (normal s) root_dir = ground arith
component_eq_iff (normal s) cur_dir = ground arith
component_eq_iff (normal s) parent_dir = ground arith

pub strip_prefix-some :
    (base p : PathBuf) {rest : PathBuf} → strip_prefix base p ≡ some rest → p ≡ base ++ rest
unfolding strip_prefix
strip_prefix-some [] p h = ground arith
strip_prefix-some (b ∷ base) [] h = cc
strip_prefix-some (b ∷ base) (c ∷ p) {rest} h = ground (
  arith,
  component_eq_iff b c,
  λ (k : strip_prefix base p ≡ some rest). strip_prefix-some base p k,
)

pub strip_prefix-append : (base rest : PathBuf) → strip_prefix base (base ++ rest) ≡ some rest
unfolding strip_prefix
strip_prefix-append [] rest = refl
strip_prefix-append (b ∷ base) rest =
    rw ((component_eq_iff b b).1 refl) (strip_prefix-append base rest)

-- the roots that a path lies under
abbrev pub covers : PathBuf → PathBuf → Bool
covers candidate root = is_some (strip_prefix root candidate)

-- What `match_root` answers.
pub record IsBest (candidate : PathBuf) (roots : List PathBuf) (root : PathBuf) : Type 0 where
  pub listed : any (path_eq root) roots ≡ true
  pub covered : covers candidate root ≡ true
  pub longest : All (λ r. covers candidate r ≡ true → path_len r ≤ path_len root) roots

path_eq_refl : (p : PathBuf) → path_eq p p ≡ true
path_eq_refl p =
    ap (λ o. elim o as (λ _. Bool) [ none ↦ false | some rest ↦ is_empty rest ])
      (ap (strip_prefix p) (sym (append-nil p)) ∙ strip_prefix-append p [])

listed_in :
    (root r : PathBuf) (roots : List PathBuf)
    → (root ≡ r) ⊎ (any (path_eq root) roots ≡ true)
    → any (path_eq root) (r ∷ roots) ≡ true
listed_in root r roots (inl same) =
    ap (λ b. b || any (path_eq root) roots) (ap (path_eq root) (sym same) ∙ path_eq_refl root)
listed_in root r roots (inr there) = ground arith

-- What the loop of `match_root` keeps, from a best root to its answer.
record IsKept (candidate best : PathBuf) (roots : List PathBuf) (root : PathBuf) : Type 0 where
  found : best_root candidate (some best) roots ≡ some root
  covered : covers candidate root ≡ true
  listed : (root ≡ best) ⊎ (any (path_eq root) roots ≡ true)
  longer : path_len best ≤ path_len root
  longest : All (λ r. covers candidate r ≡ true → path_len r ≤ path_len root) roots

taken :
    (candidate best r root : PathBuf) (roots : List PathBuf)
    → (covers candidate r && ltb (path_len best) (path_len r)) ≡ true
    → IsKept candidate r roots root
    → IsKept candidate best (r ∷ roots) root
unfolding best_root
taken candidate best r root roots better k = record {
  found = rw (better) k.found;
  covered = k.covered;
  listed = inr (listed_in root r roots k.listed);
  longer = ground (arith, k.longer);
  longest = (λ _. k.longer, k.longest);
}

passed :
    (candidate best r root : PathBuf) (roots : List PathBuf)
    → (covers candidate r && ltb (path_len best) (path_len r)) ≡ false
    → IsKept candidate best roots root
    → IsKept candidate best (r ∷ roots) root
unfolding best_root
passed candidate best r root roots worse k = record {
  found = rw (worse) k.found;
  covered = k.covered;
  listed = elim k.listed [
    | inl same ↦ inl same
    | inr there ↦ inr (listed_in root r roots (inr there))
  ];
  longer = k.longer;
  longest = (λ c. ground (arith, k.longer), k.longest);
}

best_root-IsKept :
    (candidate best : PathBuf) (roots : List PathBuf)
    → covers candidate best ≡ true
    → (root : PathBuf) × IsKept candidate best roots root
unfolding best_root
best_root-IsKept candidate best [] h = (
  best,
  record { found = refl; covered = h; listed = inl refl; longer = omega arith; longest = tt },
)
best_root-IsKept candidate best (r ∷ roots) h =
    elim (Bool-cases (covers candidate r && ltb (path_len best) (path_len r))) [
      | inl better ↦
          let (root, k) = best_root-IsKept candidate r roots (ground arith) in
          (root, taken candidate best r root roots better k)
      | inr worse ↦
          let (root, k) = best_root-IsKept candidate best roots h in
          (root, passed candidate best r root roots worse k)
    ]

begun :
    (candidate r root : PathBuf) (roots : List PathBuf)
    → IsKept candidate r roots root
    → IsBest candidate (r ∷ roots) root
begun candidate r root roots k = record {
  listed = listed_in root r roots k.listed;
  covered = k.covered;
  longest = (λ _. k.longer, k.longest);
}

skipped :
    (candidate r root : PathBuf) (roots : List PathBuf)
    → covers candidate r ≡ false
    → IsBest candidate roots root
    → IsBest candidate (r ∷ roots) root
skipped candidate r root roots unmet b = record {
  listed = listed_in root r roots (inr b.listed);
  covered = b.covered;
  longest = (λ c. ground arith, b.longest);
}

best_root-IsBest :
    (candidate : PathBuf) (roots : List PathBuf)
    → ((best_root candidate none roots ≡ none) × (any (covers candidate) roots ≡ false))
      ⊎ ((root : PathBuf) × (best_root candidate none roots ≡ some root)
          × IsBest candidate roots root)
unfolding best_root
best_root-IsBest candidate [] = inl (refl, refl)
best_root-IsBest candidate (r ∷ roots) = elim (Bool-cases (covers candidate r)) [
  | inl met ↦
      let (root, k) = best_root-IsKept candidate r roots met in
      inr (root, rw (met) k.found, begun candidate r root roots k)
  | inr unmet ↦ elim (best_root-IsBest candidate roots) [
    | inl (nowhere, none_covers) ↦ inl (rw (unmet) nowhere, ground arith)
    | inr (root, e, b) ↦ inr (root, rw (unmet) e, skipped candidate r root roots unmet b)
  ]
]

-- What `match_root` answers for a path among some roots.
abbrev pub IsMatch : PathBuf → List PathBuf → Result PathBoundError (PathBuf × PathBuf) → Type 0
IsMatch candidate roots (ok (root, relative)) =
    IsBest candidate roots root × (candidate ≡ root ++ relative)
IsMatch candidate roots (err e) = (e ≡ outside) × (any (covers candidate) roots ≡ false)

-- A path that lies under some root is split at one of the roots, the longest text of those it lies under, into
-- that root and the rest; a path under no root is refused as an escape.
pub match_root-IsMatch :
    (candidate : PathBuf) (roots : List PathBuf)
    → IsMatch candidate roots (match_root candidate roots)
unfolding match_root
match_root-IsMatch candidate roots = elim (best_root-IsBest candidate roots) [
  | inl (nowhere, none_covers) ↦ rw (nowhere) (refl, none_covers)
  | inr (root, e, b) ↦ elim (Option-cases (strip_prefix root candidate)) [
    | inl apart ↦ cc (sym (ap is_some apart) ∙ b.covered)
    | inr (relative, split) ↦ rw (e) (rw (split) (b, strip_prefix-some root candidate split))
  ]
]

pub match_root-outside :
    (candidate : PathBuf) (roots : List PathBuf)
    → any (covers candidate) roots ≡ false
    → match_root candidate roots ≡ err outside
unfolding match_root best_root
match_root-outside candidate roots h = rw (nowhere roots h) refl
  where
    nowhere :
        (roots : List PathBuf)
        → any (covers candidate) roots ≡ false
        → best_root candidate none roots ≡ none
    nowhere [] k = refl
    nowhere (r ∷ roots) k = ground (arith, nowhere roots)
