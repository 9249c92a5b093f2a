-- ===== src/Go/Scan.antt =====
-- `fmt.Sscanf(s, "%d", &i)`: blanks, a sign and digits; what follows the digits is not looked at.
pub mod Prefix
use kle_ng_api.Prelude.{
  ◌+◌, ◌≡◌, refl, Char, code, ℕ, Bool, true, false, ◌&&◌, ◌||◌, Option, none, some, String, leb,
  ◌==◌, if◌then◌else◌, ℤ, pos, negsuc,
}
use kle_ng_api.Go.Decimal.{
  is_digit, parse_int, parse_unsigned, parse_negated, parse_nat, read_digits,
}

-- `fmt` takes these characters for blanks
unfoldable pub is_space : Char → Bool
is_space c =
    let n = code c in
    (leb 9 n && leb n 13)
    || n == 32
    || n == 0x85
    || n == 0xA0
    || n == 0x1680
    || (leb 0x2000 n && leb n 0x200a)
    || n == 0x2028
    || n == 0x2029
    || n == 0x202f
    || n == 0x205f
    || n == 0x3000

-- what stands behind the blanks; a newline among them is an error
unfoldable pub skip_space : String → Option String
unfolding is_space
skip_space String.[] = some ""
skip_space (String.◌∷◌ c s) =
    let rest = skip_space s in
    if code c == 10 then none else if is_space c then rest else some (String.◌∷◌ c s)

-- the digits at the front
unfoldable pub take_digits : String → String
unfolding is_digit
take_digits String.[] = ""
take_digits (String.◌∷◌ c s) =
    let rest = take_digits s in if is_digit c then String.◌∷◌ c rest else ""

-- a sign, if there is one, and digits
unfoldable pub take_number : String → String
unfolding take_digits
take_number String.[] = ""
take_number (String.◌∷◌ c s) =
    if code c == b'+' || code c == b'-'
    then String.◌∷◌ c (take_digits s)
    else take_digits (String.◌∷◌ c s)

-- `none` for an error: no digits, a number out of range, a newline
unfoldable pub scan_int : String → Option ℤ
unfolding skip_space take_number
scan_int s = elim (skip_space s) [
  | none ↦ none
  | some t ↦ let (n, ok) = parse_int (take_number t) in if ok then some n else none
]

scan_int_test : scan_int " -12x" ≡ some (negsuc 11)
unfolding scan_int parse_int parse_negated parse_nat read_digits
scan_int_test = refl
