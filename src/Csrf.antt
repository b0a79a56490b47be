-- ===== src/Csrf.antt =====
-- src/api/csrf.rs: the check of Origin and Referer on requests that write with a session cookie. A header is its
-- first value, where that is text.
pub mod Origin
mod Examples
use rust_panel.Prelude.{
  [], ◌∷◌, none, some, ok, err, true, false, Bool, Option, Result, Text, ℕ, List, any,
  if◌then◌else◌, reverse, text_eq, to_ascii_lowercase, codes, is_whitespace, not, starts_with, ◌==◌,
  drop, ◌||◌, length,
}

pub data Method : Type 0 where
  get head post put delete connect options trace patch : Method
  extension : Text → Method

abbrev pub is_mutating : Method → Bool
is_mutating post = true
is_mutating put = true
is_mutating patch = true
is_mutating delete = true
is_mutating _ = false

pub record Headers : Type 0 where
  pub method : Method
  pub cookie : Option Text
  pub host : Option Text
  pub origin : Option Text
  pub referer : Option Text

-- `split(c)`
unfoldable pub split_on : ℕ → Text → List Text
split_on sep [] = [] ∷ []
split_on sep (c ∷ s) = elim (split_on sep s) [
  | [] ↦ [] ∷ []
  | part ∷ parts ↦ if c == sep then [] ∷ part ∷ parts else (c ∷ part) ∷ parts
]

unfoldable pub trim_start : Text → Text
trim_start [] = []
trim_start (c ∷ s) = let rest = trim_start s in if is_whitespace c then rest else c ∷ s

-- `trim`
unfoldable pub trim : Text → Text
unfolding trim_start
trim s = reverse (trim_start (reverse (trim_start s)))

abbrev pub strip_prefix : Text → Text → Option Text
strip_prefix p s = if starts_with p s then some (drop (length p) s) else none

unfoldable pub has_session_cookie : Headers → Bool
has_session_cookie r = elim r.cookie [
  | none ↦ false
  | some c ↦ any (λ part. starts_with (codes "token=") (trim part)) (split_on b';' c)
]

-- `split('/').next()`
unfoldable pub before_slash : Text → Text
before_slash [] = []
before_slash (c ∷ s) = let rest = before_slash s in if c == b'/' then [] else c ∷ rest

abbrev pub host_of_url : Option Text → Option Text
host_of_url none = none
host_of_url (some url) = some (to_ascii_lowercase (before_slash url))

abbrev pub or : {A : Type 0} → Option A → Option A → Option A
or (some a) o = some a
or none o = o

unfoldable pub origin_host : Text → Option Text
origin_host value =
    let t = trim value in
    if text_eq t (codes "null")
    then none
    else host_of_url (or (strip_prefix (codes "https://") t) (strip_prefix (codes "http://") t))

abbrev pub and_then : {A B : Type 0} → Option A → (A → Option B) → Option B
and_then none f = none
and_then (some a) f = f a

-- the three refusals
pub data Refusal : Type 0 where
  missing_host mismatch unproven : Refusal

abbrev pub hosts_match : Text → Text → Bool
hosts_match = text_eq

abbrev pub judge : Option Text → Text → Result Refusal (Unit {0})
judge none host = err unproven
judge (some h) host = if hosts_match h host then ok tt else err mismatch

unfoldable pub check_csrf : Headers → Result Refusal (Unit {0})
check_csrf r =
    if not (is_mutating r.method) || not (has_session_cookie r) then ok tt else (elim r.host [
      | none ↦ err missing_host
      | some h ↦
          judge (or (and_then r.origin origin_host) (and_then r.referer origin_host))
            (to_ascii_lowercase h)
    ])
