-- ===== src/Prelude/Decimal.antt =====
-- `to_string` of an integer: its decimal digits.
use Prim.Native.Nat.{ℕ, zero, suc, ◌+◌, ◌-◌, ◌*◌, ◌^◌, ◌/◌, ◌%◌, ◌<◌, ◌≤◌}
use mathlib.Core.Path.{◌≡◌, refl}
use mathlib.Core.Logic.{◌≢◌, inl, inr}
use mathlib.Core.Bool.{Bool, true, ◌&&◌}
use mathlib.Core.Option.{Option, none, some}
use mathlib.Core.List.{[], ◌∷◌, ◌++◌}
use native.Mathlib.Omega.{arith}
use rust_panel.Prelude.Tests.{Bool-cases, ltb, leb, ◌==◌, if◌then◌else◌}
use rust_panel.Prelude.Lists.{all, all-append}
use rust_panel.Prelude.Strings.{Text}
use rust_panel.Prelude.Int.{ℤ, pos, negsuc}

-- With fuel above the number the recursion ends by its test.
digits_from : ℕ → ℕ → Text
digits_from zero n = []
digits_from (suc f) n =
    let more = digits_from f (n / 10) in
    let digit = (b'0' + n % 10) ∷ [] in if ltb n 10 then digit else more ++ digit

unfoldable pub digits : ℕ → Text
unfolding digits_from
digits n = digits_from (suc n) n

unfoldable pub digits_ℤ : ℤ → Text
unfolding digits
digits_ℤ (pos n) = digits n
digits_ℤ (negsuc n) = b'-' ∷ digits (suc n)

abbrev pub is_digit : ℕ → Bool
is_digit c = leb b'0' c && leb c b'9'

digits_from-all : (f n : ℕ) → all is_digit (digits_from f n) ≡ true
unfolding digits_from
digits_from-all zero n = refl
digits_from-all (suc f) n = ground (
  arith,
  digits_from-all f (n / 10),
  all-append is_digit (digits_from f (n / 10)) ((b'0' + n % 10) ∷ []),
)

-- A printed natural number holds decimal digits and nothing else.
pub digits-all : (n : ℕ) → all is_digit (digits n) ≡ true
unfolding digits
digits-all n = digits_from-all (suc n) n

append-snoc_ne : (xs : Text) (c : ℕ) → xs ++ c ∷ [] ≢ []
append-snoc_ne [] c e = cc
append-snoc_ne (x ∷ xs) c e = cc

-- A printed natural number is not empty.
pub digits-nonempty : (n : ℕ) → digits n ≢ []
unfolding digits
digits-nonempty n = ground (arith, append-snoc_ne (digits_from n (n / 10)) (b'0' + n % 10))

digits_tests : digits 65535 ≡ b'6' ∷ b'5' ∷ b'5' ∷ b'3' ∷ b'5' ∷ []
unfolding digits
digits_tests = refl

-- The digits of a number, read on from a value.
abbrev pub read_digits : ℕ → Text → Option ℕ
read_digits n [] = some n
read_digits n (c ∷ cs) =
    let rest = read_digits (n * 10 + (c - b'0')) cs in if is_digit c then rest else none

abbrev pub read_magnitude : Text → Option ℕ
read_magnitude [] = none
read_magnitude (c ∷ cs) = read_digits 0 (c ∷ cs)

abbrev pub negative : ℕ → ℤ
negative zero = pos 0
negative (suc n) = negsuc n

abbrev pub below : ℕ → (ℕ → ℤ) → Option ℕ → Option ℤ
below bound sign none = none
below bound sign (some n) = if ltb n bound then some (sign n) else none

-- `str::parse::<i32>`: an optional sign and digits, within 32 bits
unfoldable pub parse_i32 : Text → Option ℤ
parse_i32 [] = none
parse_i32 (c ∷ cs) =
    if c == b'+'
    then below (2 ^ 31) pos (read_magnitude cs)
    else if c == b'-'
    then below (2 ^ 31 + 1) negative (read_magnitude cs)
    else below (2 ^ 31) pos (read_digits 0 (c ∷ cs))

read_digits-append :
    (n m : ℕ) (s t : Text) → read_digits n s ≡ some m → read_digits n (s ++ t) ≡ read_digits m t
read_digits-append n m [] t h = ground arith
read_digits-append n m (c ∷ s) t h = ground (arith, read_digits-append (n * 10 + (c - b'0')) m s t)

read_digits-digits_from : (f n : ℕ) → n < f → read_digits 0 (digits_from f n) ≡ some n
unfolding digits_from
read_digits-digits_from zero n h = absurd (omega arith)
read_digits-digits_from (suc f) n h = elim (Bool-cases (ltb n 10)) [
  | inl small ↦ ground arith
  | inr large ↦
      let big : 10 ≤ n = ground arith in
      let more = read_digits-digits_from f (n / 10) (omega arith) in
      ground
        (arith, read_digits-append 0 (n / 10) (digits_from f (n / 10)) ((b'0' + n % 10) ∷ []) more)
]

first_digit :
    (n : ℕ) (c : ℕ) (cs : Text)
    → n < 2 ^ 31
    → is_digit c ≡ true
    → read_digits 0 (c ∷ cs) ≡ some n
    → parse_i32 (c ∷ cs) ≡ some (pos n)
unfolding parse_i32
first_digit n c cs h d e = ground arith

-- Reading the digits of a number that an `i32` holds gives the number.
pub parse_i32-digits : (n : ℕ) → n < 2 ^ 31 → parse_i32 (digits n) ≡ some (pos n)
unfolding digits
parse_i32-digits n h =
    go (digits n) (digits-nonempty n) (digits-all n)
      (read_digits-digits_from (suc n) n (omega arith))
  where
    go :
        (s : Text)
        → ¬ (s ≡ [])
        → all is_digit s ≡ true
        → read_digits 0 s ≡ some n
        → parse_i32 s ≡ some (pos n)
    go [] some_digit d e = absurd (some_digit refl)
    go (c ∷ cs) some_digit d e = first_digit n c cs h (ground arith) e
