-- ===== src/Paths/Lexical/Normal.antt =====
-- The normal form of a path, and what a request must be to have one.
use rust_panel.Prelude.{ok, Result, ◌||◌, fail_if, subst, ◌>>◌, any-append}
use rust_panel.Prelude.{inl, inr, ℕ, List, sym, Bool-cases, ap, ◌∙◌}
use rust_panel.Prelude.{
  refl, [], ◌∷◌, true, false, all, Bool, Text, ◌≡◌, any, not, is_empty, ◌==◌, arith, ◌&&◌, text_eq,
}
use mathlib.Core.List.{append-nil, append_assoc}
use rust_panel.Paths.Lexical.{
  root_dir, cur_dir, parent_dir, normal, Component, split_on, Bool, Text, not, is_empty, text_eq,
  one_dot, two_dots, PathBuf, pieces, ℕ, text_from, is_parent_dir, parse_request_path, push_all,
  text_of, components, Result, is_absolute, normalize_lexical, fail_if, or_root, relative_pieces,
}
use rust_panel.Prelude.{◌++◌}

-- a component that names an entry of a directory: not empty, no dots, no slash and no NUL in it
abbrev pub is_name : Component → Bool
is_name (normal s) =
    not (is_empty s)
    && not (text_eq s one_dot)
    && not (text_eq s two_dots)
    && not (any (λ c. c == b'/') s)
    && not (any (λ c. c == 0) s)
is_name _ = false

abbrev pub IsCanonical : PathBuf → Type 0
IsCanonical (root_dir ∷ p) = all is_name p ≡ true
IsCanonical _ = ⊥

split_on-cons : (sep : ℕ) (s : Text) → (p : Text) × (ps : List Text) × (split_on sep s ≡ p ∷ ps)
unfolding split_on
split_on-cons sep [] = ([], [], refl)
split_on-cons sep (c ∷ s) =
    let (p, ps, e) = split_on-cons sep s in
    elim (Bool-cases (c == sep)) [
      | inl met ↦ ([], p ∷ ps, rw (e) (rw (met) refl))
      | inr other ↦ (c ∷ p, ps, rw (e) (rw (other) refl))
    ]

-- A test that the pieces of a text pass, where its characters do.
split_on-all :
    (bad : ℕ → Bool) (sep : ℕ) (s : Text)
    → any bad s ≡ false
    → all (λ p. not (any bad p)) (split_on sep s) ≡ true
unfolding split_on
split_on-all bad sep [] h = refl
split_on-all bad sep (c ∷ s) h =
    let (p, ps, e) = split_on-cons sep s in
    let rest = sym (ap (all (λ p. not (any bad p))) e) ∙ split_on-all bad sep s (ground arith) in
    rw (e) (ground arith)

split_on-clean :
    (sep : ℕ) (s : Text) → all (λ p. not (any (λ c. c == sep) p)) (split_on sep s) ≡ true
unfolding split_on
split_on-clean sep [] = refl
split_on-clean sep (c ∷ s) =
    let (p, ps, e) = split_on-cons sep s in
    let rest = sym (ap (all (λ p. not (any (λ c. c == sep) p))) e) ∙ split_on-clean sep s in
    rw (e) (ground arith)

split_on-one : (sep : ℕ) (w : Text) → any (λ c. c == sep) w ≡ false → split_on sep w ≡ w ∷ []
unfolding split_on
split_on-one sep [] h = refl
split_on-one sep (c ∷ w) h = rw (split_on-one sep w (ground arith)) (ground arith)

split_on-word :
    (sep : ℕ) (w s : Text)
    → any (λ c. c == sep) w ≡ false
    → split_on sep (w ++ sep ∷ s) ≡ w ∷ split_on sep s
unfolding split_on
split_on-word sep [] s h = let (p, ps, e) = split_on-cons sep s in rw (e) (ground arith)
split_on-word sep (c ∷ w) s h = rw (split_on-word sep w s (ground arith)) (ground arith)

-- The names of a path are the pieces of its text.
pieces-text_from :
    (w : Text) (p : PathBuf)
    → is_name (normal w) ≡ true
    → all is_name p ≡ true
    → pieces (split_on b'/' (w ++ text_from p)) ≡ normal w ∷ p
unfolding pieces text_from
pieces-text_from w [] n h =
    ap (λ t. pieces (split_on b'/' t)) (append-nil w)
    ∙ ap pieces (split_on-one b'/' w (ground arith))
    ∙ ground arith
pieces-text_from w (normal v ∷ p) n h =
    ap pieces (split_on-word b'/' w (v ++ text_from p) (ground arith))
    ∙ ground (arith, pieces-text_from v p)
pieces-text_from w (root_dir ∷ p) n h = cc
pieces-text_from w (cur_dir ∷ p) n h = cc
pieces-text_from w (parent_dir ∷ p) n h = cc

-- A path without parents is pushed as it is.
push_all-names : (out p : PathBuf) → all is_name p ≡ true → push_all out p ≡ out ++ p
unfolding push_all
push_all-names out [] h = sym (append-nil out)
push_all-names out (normal s ∷ p) h =
    push_all-names (out ++ normal s ∷ []) p (ground arith) ∙ append_assoc out (normal s ∷ []) p
push_all-names out (root_dir ∷ p) h = cc
push_all-names out (cur_dir ∷ p) h = cc
push_all-names out (parent_dir ∷ p) h = cc

-- The pieces of a text without parents are names.
pieces-names :
    (ps : List Text)
    → all (λ p. not (any (λ c. c == b'/') p)) ps ≡ true
    → all (λ p. not (any (λ c. c == 0) p)) ps ≡ true
    → any is_parent_dir (pieces ps) ≡ false
    → all is_name (pieces ps) ≡ true
unfolding pieces
pieces-names [] h g k = refl
pieces-names (p ∷ ps) h g k = ground (arith, pieces-names ps)

text_of-canonical :
    (p : PathBuf) → all is_name p ≡ true → components (text_of (root_dir ∷ p)) ≡ root_dir ∷ p
unfolding text_of components text_from pieces split_on text_eq
text_of-canonical [] h = refl
text_of-canonical (normal s ∷ p) h =
    ap (λ q. root_dir ∷ q) (pieces-text_from s p (ground arith) (ground arith))
text_of-canonical (root_dir ∷ p) h = cc
text_of-canonical (cur_dir ∷ p) h = cc
text_of-canonical (parent_dir ∷ p) h = cc

fail_if-ok :
    {E A : Type 0} (b : Bool) (e : E) (rest : Result E A) (a : A)
    → (fail_if b e >> rest) ≡ ok a
    → (b ≡ false) × (rest ≡ ok a)
fail_if-ok true e rest a h = cc h
fail_if-ok false e rest a h = (refl, h)

pieces-relative : (ps : List Text) → is_absolute (pieces ps) ≡ false
unfolding pieces
pieces-relative [] = refl
pieces-relative (p ∷ ps) = ground (arith, pieces-relative ps)

relative_pieces-relative : (ps : List Text) → is_absolute (relative_pieces ps) ≡ false
relative_pieces-relative [] = refl
relative_pieces-relative (p ∷ ps) = ground (arith, pieces-relative (p ∷ ps))

-- Only a text that begins with a slash is absolute.
components-absolute :
    (s : Text)
    → is_absolute (components s) ≡ true
    → (t : Text) × (s ≡ b'/' ∷ t) × (components s ≡ root_dir ∷ pieces (split_on b'/' t))
unfolding components
components-absolute [] h = cc
components-absolute (c ∷ t) h = elim (Bool-cases (c == b'/')) [
  | inl slash ↦ (t, ground arith, rw (slash) refl)
  | inr other ↦ ground (arith, relative_pieces-relative (split_on b'/' (c ∷ t)))
]

normalize_lexical-names :
    (p : PathBuf) → all is_name p ≡ true → normalize_lexical (root_dir ∷ p) ≡ root_dir ∷ p
unfolding normalize_lexical push_all
normalize_lexical-names p h = ap or_root (push_all-names (root_dir ∷ []) p h)

ok_injective : {E A : Type 0} {a b : A} → ◌≡◌ {A = Result E A} (ok a) (ok b) → a ≡ b
ok_injective h = cc h

-- A request that passes is for the path of its own components, and that path is canonical: a root, and
-- after it only names, which are not empty, no dots, and free of slashes and of NUL.
pub parse_request_path-ok :
    (s : Text) (p : PathBuf) → parse_request_path s ≡ ok p → (p ≡ components s) × IsCanonical p
unfolding parse_request_path
parse_request_path-ok s p h =
    let (plain, h1) = fail_if-ok (is_empty s || any (λ c. c == 0) s) _ _ p h in
    let (down, h2) = fail_if-ok (any is_parent_dir (components s)) _ _ p h1 in
    let (rooted, h3) = fail_if-ok (not (is_absolute (components s))) _ _ p h2 in
    let (t, begins, parts) = components-absolute s (ground arith) in
    let names =
      pieces-names (split_on b'/' t) (split_on-clean b'/' t)
        (split_on-all (λ c. c == 0) b'/' t (ground arith)) (ground arith) in
    let same : p ≡ root_dir ∷ pieces (split_on b'/' t) =
      sym (ok_injective h3)
      ∙ ap normalize_lexical parts
      ∙ normalize_lexical-names (pieces (split_on b'/' t)) names in
    (same ∙ sym parts, subst IsCanonical (sym same) names)

text_from-clean : (p : PathBuf) → all is_name p ≡ true → any (λ c. c == 0) (text_from p) ≡ false
unfolding text_from
text_from-clean [] h = refl
text_from-clean (normal s ∷ p) h =
    ground (arith, any-append (λ c. c == 0) s (text_from p), text_from-clean p)
text_from-clean (root_dir ∷ p) h = cc
text_from-clean (cur_dir ∷ p) h = cc
text_from-clean (parent_dir ∷ p) h = cc

text_of-clean :
    (p : PathBuf)
    → all is_name p ≡ true
    → (is_empty (text_of (root_dir ∷ p)) || any (λ c. c == 0) (text_of (root_dir ∷ p))) ≡ false
unfolding text_of text_from
text_of-clean [] h = refl
text_of-clean (normal s ∷ p) h = text_from-clean (normal s ∷ p) h
text_of-clean (root_dir ∷ p) h = cc
text_of-clean (cur_dir ∷ p) h = cc
text_of-clean (parent_dir ∷ p) h = cc

names-down : (p : PathBuf) → all is_name p ≡ true → any is_parent_dir p ≡ false
names-down [] h = refl
names-down (normal s ∷ p) h = ground (arith, names-down p)
names-down (root_dir ∷ p) h = cc
names-down (cur_dir ∷ p) h = cc
names-down (parent_dir ∷ p) h = cc

parse_names :
    (p : PathBuf)
    → all is_name p ≡ true
    → parse_request_path (text_of (root_dir ∷ p)) ≡ ok (root_dir ∷ p)
unfolding parse_request_path
parse_names p h =
    rw (text_of-clean p h)
      (rw (text_of-canonical p h) (rw (names-down p h) (ap ok (normalize_lexical-names p h))))

-- Printing a canonical path and parsing the text gives the path back.
pub parse_request_path-text_of :
    (p : PathBuf) → IsCanonical p → parse_request_path (text_of p) ≡ ok p
parse_request_path-text_of (root_dir ∷ p) h = parse_names p h
parse_request_path-text_of [] h = absurd h
parse_request_path-text_of (cur_dir ∷ p) h = absurd h
parse_request_path-text_of (parent_dir ∷ p) h = absurd h
parse_request_path-text_of (normal s ∷ p) h = absurd h
