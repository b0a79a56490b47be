-- ===== src/Csrf/Origin.antt =====
-- Which sites may write with a user's cookie.
use rust_panel.Csrf.{Refusal, unproven, Result}
use rust_panel.Prelude.{
  none, ok, err, true, inl, inr, ℕ, Bool, ◌||◌, ◌↔◌, ◌⊎◌, if◌then◌else◌, Option, Option-cases, ap,
  ◌∙◌, text_eq_iff, any-append, Result,
}
use mathlib.Core.List.{reverse_aux, reverse-reverse, append-nil}
use rust_panel.Csrf.{
  before_slash, origin_host, trim, trim_start, any, starts_with, is_whitespace, text_eq, codes,
  reverse, to_ascii_lowercase, check_csrf, ℕ, Bool, Headers, is_mutating, has_session_cookie,
  and_then, mismatch, Option, judge, or,
}
use rust_panel.Prelude.{
  refl, [], ◌∷◌, some, false, Text, any, starts_with, is_whitespace, text_eq, ◌==◌, codes, ◌≡◌,
  arith, reverse, ◌++◌, to_ascii_lowercase,
}

-- a host and port as a browser sends them: no white space and no slash
abbrev pub IsHost : Text → Type 0
IsHost t = (any is_whitespace t ≡ false) × (any (λ c. c == b'/') t ≡ false)

trim_start-plain : (t : Text) → any is_whitespace t ≡ false → trim_start t ≡ t
unfolding trim_start
trim_start-plain [] h = refl
trim_start-plain (c ∷ t) h = ground arith

before_slash-plain : (t : Text) → any (λ c. c == b'/') t ≡ false → before_slash t ≡ t
unfolding before_slash
before_slash-plain [] h = refl
before_slash-plain (c ∷ t) h = ground (arith, before_slash-plain t)

any-reverse_aux : (p : ℕ → Bool) (t acc : Text) → any p (reverse_aux t acc) ≡ (any p t || any p acc)
any-reverse_aux p [] acc = refl
any-reverse_aux p (c ∷ t) acc = ground (arith, any-reverse_aux p t (c ∷ acc))

any-reverse : (t : Text) → any is_whitespace t ≡ false → any is_whitespace (reverse t) ≡ false
any-reverse t h = ground (arith, any-reverse_aux is_whitespace t [])

trim-plain : (t : Text) → any is_whitespace t ≡ false → trim t ≡ t
unfolding trim
trim-plain t h =
    ap (λ x. reverse (trim_start (reverse x))) (trim_start-plain t h)
    ∙ ap reverse (trim_start-plain (reverse t) (any-reverse t h))
    ∙ reverse-reverse t

before_slash-path :
    (site path : Text)
    → any (λ c. c == b'/') site ≡ false
    → before_slash (site ++ b'/' ∷ path) ≡ site
unfolding before_slash
before_slash-path [] path h = refl
before_slash-path (c ∷ site) path h = ground (arith, before_slash-path site path)

-- what may follow the site in a header: nothing, or a path
abbrev pub IsPath : Text → Type 0
IsPath rest = (rest ≡ []) ⊎ ((path : Text) × (rest ≡ b'/' ∷ path))

-- The header is an address of the site, without white space: `https://site`, `http://site/path` and the like.
pub record IsAt (site : Text) (header : Option Text) : Type 0 where
  pub scheme : Text
  pub rest : Text
  pub known : (scheme ≡ codes "https://") ⊎ (scheme ≡ codes "http://")
  pub path : IsPath rest
  pub solid : any is_whitespace rest ≡ false
  pub sent : header ≡ some (scheme ++ (site ++ rest))

-- The header names no site: it is missing, or `null`.
abbrev pub IsSilent : Option Text → Type 0
IsSilent header = (header ≡ none) ⊎ (header ≡ some (codes "null"))

before_slash-site :
    (site rest : Text) → IsHost site → IsPath rest → before_slash (site ++ rest) ≡ site
before_slash-site site rest h (inl bare) =
    ap (λ r. before_slash (site ++ r)) bare
    ∙ ap before_slash (append-nil site)
    ∙ before_slash-plain site h.1
before_slash-site site rest h (inr (path, same)) =
    ap (λ r. before_slash (site ++ r)) same ∙ before_slash-path site path h.1

origin_host-address :
    (site rest : Text)
    → IsHost site
    → IsPath rest
    → any is_whitespace rest ≡ false
    → (origin_host (codes "https://" ++ (site ++ rest)) ≡ some (to_ascii_lowercase site))
      × (origin_host (codes "http://" ++ (site ++ rest)) ≡ some (to_ascii_lowercase site))
unfolding origin_host starts_with text_eq
origin_host-address site rest h path solid = (
  ground (
    arith,
    trim-plain (codes "https://" ++ (site ++ rest))
        (ground (arith, any-append is_whitespace site rest, h.0, solid)),
    before_slash-site site rest h path,
  ),
  ground (
    arith,
    trim-plain (codes "http://" ++ (site ++ rest))
        (ground (arith, any-append is_whitespace site rest, h.0, solid)),
    before_slash-site site rest h path,
  ),
)

named_by :
    (site : Text) (header : Option Text)
    → IsHost site
    → IsAt site header
    → and_then header origin_host ≡ some (to_ascii_lowercase site)
named_by site header h at = elim at.known [
  | inl secure ↦
      ap (λ o. and_then o origin_host) (at.sent ∙ ap (λ s. some (s ++ (site ++ at.rest))) secure)
      ∙ (origin_host-address site at.rest h at.path at.solid).0
  | inr plain ↦
      ap (λ o. and_then o origin_host) (at.sent ∙ ap (λ s. some (s ++ (site ++ at.rest))) plain)
      ∙ (origin_host-address site at.rest h at.path at.solid).1
]

silent : (header : Option Text) → IsSilent header → and_then header origin_host ≡ none
unfolding origin_host text_eq trim trim_start
silent header (inl missing) = ap (λ o. and_then o origin_host) missing
silent header (inr null) = ap (λ o. and_then o origin_host) null

-- The site that the headers of a request name, if any.
pub data Evidence (r : Headers) : Option Text → Type 0 where
  by_origin : {site : Text} → IsHost site → IsAt site r.origin → Evidence r (some site)
  by_referer :
      {site : Text} → IsSilent r.origin → IsHost site → IsAt site r.referer → Evidence r (some site)
  by_neither : IsSilent r.origin → IsSilent r.referer → Evidence r none

abbrev pub verdict : Option Text → Text → Result Refusal (Unit {0})
verdict none host = err unproven
verdict (some site) host =
    if text_eq (to_ascii_lowercase site) (to_ascii_lowercase host) then ok tt else err mismatch

judge-verdict :
    (r : Headers) (site : Option Text) (host : Text)
    → Evidence r site
    → judge
        (or (and_then r.origin origin_host) (and_then r.referer origin_host))
        (to_ascii_lowercase host)
      ≡ verdict site host
judge-verdict r _ host (by_origin {site} h at) =
    ap (λ o. judge (or o (and_then r.referer origin_host)) (to_ascii_lowercase host))
      (named_by site r.origin h at)
judge-verdict r _ host (by_referer {site} none_sent h at) =
    ap (λ o. judge (or o (and_then r.referer origin_host)) (to_ascii_lowercase host))
      (silent r.origin none_sent)
    ∙ ap (λ o. judge o (to_ascii_lowercase host)) (named_by site r.referer h at)
judge-verdict r _ host (by_neither none_sent none_left) =
    ap (λ o. judge (or o (and_then r.referer origin_host)) (to_ascii_lowercase host))
      (silent r.origin none_sent)
    ∙ ap (λ o. judge o (to_ascii_lowercase host)) (silent r.referer none_left)

-- A request that writes with the session cookie and names its host: where the Origin is an http or https address
-- of a site, or is missing or `null` and the Referer is such an address, the request passes exactly when that
-- site is the host, up to the case of letters, and is else refused as a mismatch; where both headers are
-- missing or `null` it is refused as unproven.
pub check_csrf-origin :
    (r : Headers) (site : Option Text) (host : Text)
    → is_mutating r.method ≡ true
    → has_session_cookie r ≡ true
    → r.host ≡ some host
    → Evidence r site
    → check_csrf r ≡ verdict site host
unfolding check_csrf
check_csrf-origin r site host writes cookie named evidence =
    rw (writes, cookie, named) (judge-verdict r site host evidence)

judge_iff :
    (o p : Option Text) (host : Text)
    → (judge (or o p) host ≡ ok tt) ↔ ((o ≡ some host) ⊎ ((o ≡ none) × (p ≡ some host)))
judge_iff none none host = ground arith
judge_iff none (some q) host = ground (arith, text_eq_iff q host)
judge_iff (some q) p host = ground (arith, text_eq_iff q host)

-- A request that writes with the session cookie passes exactly where it names a host and its Origin, or its
-- Referer where the Origin names no site, names the same one, up to the case of letters.
pub check_csrf_iff :
    (r : Headers)
    → is_mutating r.method ≡ true
    → has_session_cookie r ≡ true
    → (check_csrf r ≡ ok tt) ↔ (
        (host : Text) × (r.host ≡ some host)
        × ((and_then r.origin origin_host ≡ some (to_ascii_lowercase host))
            ⊎ ((and_then r.origin origin_host ≡ none)
                × (and_then r.referer origin_host ≡ some (to_ascii_lowercase host)))))
unfolding check_csrf
check_csrf_iff r writes cookie = (
  (λ passed. elim (Option-cases r.host) [
    | inl missing ↦ cc
    | inr (host, named) ↦ (
      host,
      named,
      (judge_iff (and_then r.origin origin_host) (and_then r.referer origin_host)
            (to_ascii_lowercase host)).0
          (ground arith),
    )
  ]),
  (λ (host, named, same). ground (
    arith,
    (judge_iff (and_then r.origin origin_host) (and_then r.referer origin_host)
          (to_ascii_lowercase host)).1
        same,
  )),
)
