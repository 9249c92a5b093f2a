-- ===== src/Go/Scan/Prefix.antt =====
-- A number is scanned as `ParseInt` reads it, whatever stands behind it.
use Prim.Native.String.append
use kle_ng_api.Prelude.{
  ℕ, ◌+◌, ◌-◌, ◌*◌, ◌≡◌, refl, sym, ap, ◌∙◌, Char, code, true, false, ◌||◌, some, String, ◌==◌,
  Bool-cases, Option-cases, inl, inr, ℤ, arith,
}
use kle_ng_api.Go.Strings.{◌<>◌}
use kle_ng_api.Go.Decimal.{
  is_digit, parse_int, parse_unsigned, parse_negated, parse_nat, read_digits,
}
use kle_ng_api.Go.Scan.{is_space, skip_space, take_digits, take_number, scan_int}

-- The text is empty, or its first character is no digit.
abbrev pub NoDigitFirst : String → Type 0
unfolding is_digit
NoDigitFirst String.[] = Unit
NoDigitFirst (String.◌∷◌ c s) = is_digit c ≡ false

take_digits-none : (t : String) → NoDigitFirst t → take_digits t ≡ ""
unfolding take_digits is_digit
take_digits-none String.[] h = refl
take_digits-none (String.◌∷◌ c s) h = rw h refl

take_digits-append :
    (acc n : ℕ) (s t : String)
    → read_digits acc s ≡ some n
    → NoDigitFirst t
    → take_digits (s <> t) ≡ s
unfolding take_digits read_digits is_digit
take_digits-append acc n String.[] t h d = rw append.nil (take_digits-none t d)
take_digits-append acc n (String.◌∷◌ c s) t h d = elim (Bool-cases (is_digit c)) [
  | inl is_d ↦
      rw (append.cons, is_d)
        (ap (λ u. String.◌∷◌ c u)
          (take_digits-append (acc * 10 + (code c - 48)) n s t (ground arith) d))
  | inr not_d ↦ ground arith
]

-- a digit is no blank and no sign
digit_plain :
    (c : Char)
    → is_digit c ≡ true
    → ((code c == 10) ≡ false) × (is_space c ≡ false) × ((code c == b'+' || code c == b'-') ≡ false)
unfolding is_digit is_space
digit_plain c h = ground arith

sign_plain :
    (c : Char)
    → (code c == b'+' || code c == b'-') ≡ true
    → ((code c == 10) ≡ false) × (is_space c ≡ false)
unfolding is_space
sign_plain c h = ground arith

nat_digits : (s : String) (m : ℕ) → parse_nat s ≡ some m → read_digits 0 s ≡ some m
unfolding parse_nat
nat_digits String.[] m h = cc h
nat_digits (String.◌∷◌ c s) m h = h

unsigned_digits :
    (s : String) (n : ℤ) → parse_unsigned s ≡ (n, true) → (m : ℕ) × (read_digits 0 s ≡ some m)
unfolding parse_unsigned
unsigned_digits s n h = elim (Option-cases (parse_nat s)) [
  | inl e ↦ ground arith
  | inr (m, e) ↦ (m, nat_digits s m e)
]

negated_digits :
    (s : String) (n : ℤ) → parse_negated s ≡ (n, true) → (m : ℕ) × (read_digits 0 s ≡ some m)
unfolding parse_negated
negated_digits s n h = elim (Option-cases (parse_nat s)) [
  | inl e ↦ ground arith
  | inr (m, e) ↦ (m, nat_digits s m e)
]

first_digit :
    (c : Char) (s : String) (m : ℕ) → read_digits 0 (String.◌∷◌ c s) ≡ some m → is_digit c ≡ true
unfolding read_digits is_digit
first_digit c s m h = ground arith

-- A sign, digits, and no digit behind them.
signed :
    (c : Char) (s t : String) (m : ℕ)
    → (code c == b'+' || code c == b'-') ≡ true
    → read_digits 0 s ≡ some m
    → NoDigitFirst t
    → (skip_space (String.◌∷◌ c s <> t) ≡ some (String.◌∷◌ c s <> t))
      × (take_number (String.◌∷◌ c s <> t) ≡ String.◌∷◌ c s)
unfolding skip_space take_number
signed c s t m sign digits d =
    let (no_newline, no_blank) = sign_plain c sign in
    rw append.cons (
      rw (no_newline, no_blank) refl,
      rw sign (ap (λ u. String.◌∷◌ c u) (take_digits-append 0 m s t digits d)),
    )

unsigned :
    (c : Char) (s t : String) (m : ℕ)
    → read_digits 0 (String.◌∷◌ c s) ≡ some m
    → NoDigitFirst t
    → (skip_space (String.◌∷◌ c s <> t) ≡ some (String.◌∷◌ c s <> t))
      × (take_number (String.◌∷◌ c s <> t) ≡ String.◌∷◌ c s)
unfolding skip_space take_number
unsigned c s t m digits d =
    let (no_newline, no_blank, no_sign) = digit_plain c (first_digit c s m digits) in
    let same = take_digits-append 0 m (String.◌∷◌ c s) t digits d in
    (
      rw append.cons (rw (no_newline, no_blank) refl),
      rw append.cons (rw no_sign (sym (ap take_digits (append.cons c s t)) ∙ same)),
    )

number_shape :
    (v t : String) (n : ℤ)
    → parse_int v ≡ (n, true)
    → NoDigitFirst t
    → (skip_space (v <> t) ≡ some (v <> t)) × (take_number (v <> t) ≡ v)
unfolding parse_int
number_shape String.[] t n h d = ground arith
number_shape (String.◌∷◌ c s) t n h d = elim (Bool-cases (code c == b'+')) [
  | inl plus ↦
      let (m, digits) = unsigned_digits s n (ground arith) in signed c s t m (rw plus refl) digits d
  | inr no_plus ↦ elim (Bool-cases (code c == b'-')) [
    | inl minus ↦
        let (m, digits) = negated_digits s n (ground arith) in
        signed c s t m (rw (no_plus, minus) refl) digits d
    | inr no_minus ↦
        let (m, digits) = unsigned_digits (String.◌∷◌ c s) n (ground arith) in
        unsigned c s t m digits d
  ]
]

-- A text that `ParseInt` accepts is scanned as the same number, whatever stands behind it, unless
-- that begins with a digit.
pub scan_int-parse_int :
    (v t : String) (n : ℤ) → parse_int v ≡ (n, true) → NoDigitFirst t → scan_int (v <> t) ≡ some n
unfolding scan_int
scan_int-parse_int v t n h d =
    let (blank, digits) = number_shape v t n h d in rw (blank, scan_int) (rw (digits, h) refl)
