-- ===== src/Go/Decimal/Print.antt =====
-- A printed number is read back.
use Prim.Native.String.append
use kle_ng_api.Prelude.{
  ℕ, zero, suc, ◌+◌, ◌-◌, ◌*◌, ◌/◌, ◌%◌, ◌^◌, ◌<◌, ◌≤◌, ◌≡◌, ◌∙◌, refl, sym, ap, some, String,
  arith, inl, inr, Bool-cases, ltb, true, ltb→lt, code, ℤ, pos, negsuc, pos_part, neg_part,
}
use kle_ng_api.Go.Strings.{◌<>◌}
use kle_ng_api.Go.Decimal.{
  digit, digits_fuel, show_nat, show_int, is_digit, read_digits, parse_nat, parse_unsigned,
  parse_negated, parse_int,
}

read_digit : (acc d : ℕ) → d < 10 → read_digits acc (digit d) ≡ some (acc * 10 + d)
unfolding read_digits digit
read_digit acc zero h = ground arith
read_digit acc (suc zero) h = ground arith
read_digit acc (suc (suc zero)) h = ground arith
read_digit acc (suc (suc (suc zero))) h = ground arith
read_digit acc (suc (suc (suc (suc zero)))) h = ground arith
read_digit acc (suc (suc (suc (suc (suc zero))))) h = ground arith
read_digit acc (suc (suc (suc (suc (suc (suc zero)))))) h = ground arith
read_digit acc (suc (suc (suc (suc (suc (suc (suc zero))))))) h = ground arith
read_digit acc (suc (suc (suc (suc (suc (suc (suc (suc zero)))))))) h = ground arith
read_digit acc (suc (suc (suc (suc (suc (suc (suc (suc (suc zero))))))))) h = ground arith
read_digit acc (suc (suc (suc (suc (suc (suc (suc (suc (suc (suc d)))))))))) h =
    absurd (omega arith)

read_digits-append :
    (acc n : ℕ) (s t : String)
    → read_digits acc s ≡ some n
    → read_digits acc (s <> t) ≡ read_digits n t
unfolding read_digits
read_digits-append acc n String.[] t h =
    let e : acc ≡ n = ground arith in rw append.nil (ap (λ m. read_digits m t) e)
read_digits-append acc n (String.◌∷◌ c s) t h = elim (Bool-cases (is_digit c)) [
  | inl is_d ↦
      rw (append.cons, is_d) (read_digits-append (acc * 10 + (code c - 48)) n s t (ground arith))
  | inr not_d ↦ ground arith
]

read_digits-digits : (f n : ℕ) → n < f → read_digits 0 (digits_fuel f n) ≡ some n
unfolding digits_fuel
read_digits-digits zero n h = absurd (omega arith)
read_digits-digits (suc f) n h = elim (Bool-cases (ltb n 10)) [
  | inl small ↦ rw small (read_digit 0 n (ltb→lt n 10 small) ∙ ap some (omega arith))
  | inr big ↦
      let lt : n / 10 < f = ground arith in
      rw big (
        read_digits-append 0 (n / 10) (digits_fuel f (n / 10)) (digit (n % 10))
          (read_digits-digits f (n / 10) lt)
        ∙ read_digit (n / 10) (n % 10) (omega arith)
        ∙ ap some (omega arith))
]

show_nat-read : (n : ℕ) → read_digits 0 (show_nat n) ≡ some n
unfolding show_nat
show_nat-read n = read_digits-digits (suc n) n (omega arith)

text_ne : ¬ ◌≡◌ {A = String} "0" ""
unfolding parse_nat read_digits
text_ne e = cc e

-- the empty text reads as 0, and 0 is not printed as the empty text
show_nat-nonempty : (n : ℕ) → ¬ (show_nat n ≡ "")
unfolding show_nat read_digits digits_fuel digit
show_nat-nonempty zero e = absurd (text_ne e)
show_nat-nonempty (suc n) e =
    let back : read_digits 0 "" ≡ some (suc n) =
      ap (λ t. read_digits 0 t) (sym e) ∙ show_nat-read (suc n) in
    ground arith

-- a text of digits has no sign
parse_int-digits :
    (s : String) (n : ℕ)
    → ¬ (s ≡ "")
    → read_digits 0 s ≡ some n
    → (parse_int s ≡ parse_unsigned s) × (parse_nat s ≡ some n)
unfolding parse_int parse_nat read_digits
parse_int-digits String.[] n d h = absurd (d refl)
parse_int-digits (String.◌∷◌ c s) n d h = ground arith

minus : (t : String) → parse_int ("-" <> t) ≡ parse_negated t
unfolding parse_int
minus t =
    let cons : ◌≡◌ {A = String} ("-" <> t) (String.◌∷◌ "-" t) =
      append.cons "-" "" t ∙ ap (λ u. String.◌∷◌ "-" u) (append.nil t) in
    rw cons refl

-- A number of the int64 range that is printed with `%d` is read back by `ParseInt` without error.
pub parse_int-show_int :
    (i : ℤ) → pos_part i < 2 ^ 63 → neg_part i ≤ 2 ^ 63 → parse_int (show_int i) ≡ (i, true)
unfolding show_int parse_int parse_unsigned parse_negated
parse_int-show_int (pos n) hp hn =
    let (unsigned, nat) = parse_int-digits (show_nat n) n (show_nat-nonempty n) (show_nat-read n) in
    unsigned ∙ rw (nat, parse_unsigned) (ground arith)
parse_int-show_int (negsuc n) hp hn =
    let (_, nat) =
      parse_int-digits (show_nat (suc n)) (suc n) (show_nat-nonempty (suc n))
        (show_nat-read (suc n)) in
    minus (show_nat (suc n)) ∙ rw (nat, parse_negated) (ground arith)
