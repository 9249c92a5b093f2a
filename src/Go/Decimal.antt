-- ===== src/Go/Decimal.antt =====
-- Decimal print, as `%d` writes it, and `strconv.ParseInt(s, 10, 64)`.
pub mod Print
use kle_ng_api.Prelude.{
  ℕ, zero, suc, ◌+◌, ◌-◌, ◌*◌, ◌/◌, ◌%◌, ◌^◌, ◌≡◌, refl, Char, code, Bool, true, false, ◌&&◌,
  Option, none, some, String, ltb, leb, ◌==◌, str_eq, if◌then◌else◌, ℤ, pos, negsuc,
}
use kle_ng_api.Go.Strings.{◌<>◌}

unfoldable pub digit : ℕ → String
digit zero = "0"
digit (suc zero) = "1"
digit (suc (suc zero)) = "2"
digit (suc (suc (suc zero))) = "3"
digit (suc (suc (suc (suc zero)))) = "4"
digit (suc (suc (suc (suc (suc zero))))) = "5"
digit (suc (suc (suc (suc (suc (suc zero)))))) = "6"
digit (suc (suc (suc (suc (suc (suc (suc zero))))))) = "7"
digit (suc (suc (suc (suc (suc (suc (suc (suc zero)))))))) = "8"
digit (suc (suc (suc (suc (suc (suc (suc (suc (suc _))))))))) = "9"

-- a number has fewer digits than `suc n`
unfoldable pub digits_fuel : ℕ → ℕ → String
digits_fuel zero n = ""
digits_fuel (suc f) n =
    let front = digits_fuel f (n / 10) in if ltb n 10 then digit n else front <> digit (n % 10)

unfoldable pub show_nat : ℕ → String
unfolding digits_fuel digit
show_nat n = digits_fuel (suc n) n

-- `fmt.Sprintf("%d", i)`
unfoldable pub show_int : ℤ → String
show_int (pos n) = show_nat n
show_int (negsuc n) = "-" <> show_nat (suc n)

show_int_test : show_int (negsuc 89) ≡ "-90"
unfolding show_int show_nat
show_int_test = refl

unfoldable pub is_digit : Char → Bool
is_digit c = leb 48 (code c) && leb (code c) 57

-- the number behind the digits read so far; `none` for a character that is no digit
unfoldable pub read_digits : ℕ → String → Option ℕ
unfolding is_digit
read_digits acc String.[] = some acc
read_digits acc (String.◌∷◌ c s) =
    let rest = read_digits (acc * 10 + (code c - 48)) s in if is_digit c then rest else none

-- an unsigned decimal has at least one digit
unfoldable pub parse_nat : String → Option ℕ
parse_nat String.[] = none
parse_nat (String.◌∷◌ c s) = read_digits 0 (String.◌∷◌ c s)

-- The value that `ParseInt` returns, and whether the error is nil: 0 on a syntax error, the
-- nearest int64 when out of range.
abbrev in_range_pos : ℕ → ℤ × Bool
in_range_pos n = if ltb n (2 ^ 63) then (pos n, true) else (pos (2 ^ 63 - 1), false)

abbrev in_range_neg : ℕ → ℤ × Bool
in_range_neg zero = (pos 0, true)
in_range_neg (suc n) = if ltb n (2 ^ 63) then (negsuc n, true) else (negsuc (2 ^ 63 - 1), false)

unfoldable pub parse_unsigned : String → ℤ × Bool
unfolding parse_nat
parse_unsigned s = elim (parse_nat s) [ none ↦ (pos 0, false) | some n ↦ in_range_pos n ]

unfoldable pub parse_negated : String → ℤ × Bool
unfolding parse_nat
parse_negated s = elim (parse_nat s) [ none ↦ (pos 0, false) | some n ↦ in_range_neg n ]

unfoldable pub parse_int : String → ℤ × Bool
parse_int String.[] = (pos 0, false)
parse_int (String.◌∷◌ c s) =
    if code c == b'+'
    then parse_unsigned s
    else if code c == b'-'
    then parse_negated s
    else parse_unsigned (String.◌∷◌ c s)

parse_int_test : parse_int "-90" ≡ (negsuc 89, true)
unfolding parse_int parse_negated parse_nat read_digits
parse_int_test = refl
