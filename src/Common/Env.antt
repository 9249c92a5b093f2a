-- ===== src/Common/Env.antt =====
-- backend/internal/common/env.go. `lookup` is `os.LookupEnv`.
use kle_ng_api.Prelude.{
  ◌^◌, ◌<◌, ◌≤◌, ◌≡◌, refl, String, Option, none, some, ℤ, pos_part, neg_part, if◌then◌else◌,
}
use kle_ng_api.Go.Decimal.{parse_int, show_int}
use kle_ng_api.Go.Decimal.Print.{parse_int-show_int}

unfoldable pub getenv_or_default : (String → Option String) → String → String → String
getenv_or_default lookup key default_value = elim (lookup key) [ none ↦ default_value | some v ↦ v ]

-- `strconv.Atoi` is `ParseInt` on a 64-bit int
unfoldable pub get_int_or_default : (String → Option String) → String → ℤ → ℤ
get_int_or_default lookup key default_value = elim (lookup key) [
  | none ↦ default_value
  | some v ↦ let (n, parsed) = parse_int v in if parsed then n else default_value
]

-- A variable that holds a printed number gives that number, whatever the default is.
pub get_int_or_default-show_int :
    (lookup : String → Option String) (key : String) (i default_value : ℤ)
    → lookup key ≡ some (show_int i)
    → pos_part i < 2 ^ 63
    → neg_part i ≤ 2 ^ 63
    → get_int_or_default lookup key default_value ≡ i
unfolding get_int_or_default
get_int_or_default-show_int lookup key i default_value h hp hn =
    rw (h, get_int_or_default) (rw (parse_int-show_int i hp hn) refl)
