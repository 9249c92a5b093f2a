-- ===== src/Server/Startup/EnvInt.antt =====
-- The two readers of a number in the environment.
use Prim.Native.String.append
use kle_ng_api.Prelude.{
  ◌≡◌, refl, sym, ap, ◌∙◌, true, String, Option, some, str_eq, eq_iff, Bool-cases, inl, inr, ℤ,
}
use kle_ng_api.Go.Strings.{◌<>◌}
use kle_ng_api.Go.Decimal.{parse_int}
use kle_ng_api.Go.Scan.{scan_int}
use kle_ng_api.Go.Scan.Prefix.{NoDigitFirst, scan_int-parse_int}
use kle_ng_api.Common.Env.{get_int_or_default}
use kle_ng_api.Server.Startup.{getenv, scan_or, get_env_int}

empty_not_scanned : (n : ℤ) → ¬ (scan_int "" ≡ some n)
unfolding scan_int parse_int
empty_not_scanned n h = cc h

scanned : (v : String) (n default_value : ℤ) → scan_int v ≡ some n → scan_or default_value v ≡ n
unfolding scan_or
scanned v n default_value h = elim (Bool-cases (str_eq v "")) [
  | inl e ↦ absurd (empty_not_scanned n (ap scan_int (sym ((eq_iff v "").0 e)) ∙ h))
  | inr other ↦ rw (other, h) refl
]

append_empty : (v : String) → v <> "" ≡ v
append_empty String.[] = append.nil ""
append_empty (String.◌∷◌ c v) = append.cons c v "" ∙ ap (λ u. String.◌∷◌ c u) (append_empty v)

-- Where the environment has a number that `GetIntOrDefault` takes, followed by nothing or by a
-- text that does not begin with a digit, `getEnvInt` takes the number, whatever the default.
-- Without such a text both readers agree.
pub get_env_int_lem :
    (lookup : String → Option String) (key v t : String) (n default_value other_default : ℤ)
    → parse_int v ≡ (n, true)
    → NoDigitFirst t
    → lookup key ≡ some (v <> t)
    → (get_env_int lookup key default_value ≡ n)
      × (t ≡ ""
          → get_int_or_default lookup key other_default ≡ get_env_int lookup key default_value)
unfolding get_env_int get_int_or_default
get_env_int_lem lookup key v t n default_value other_default h d e =
    let read : getenv lookup key ≡ v <> t = rw (e, getenv) refl in
    let same : scan_or default_value (getenv lookup key) ≡ n =
      ap (scan_or default_value) read
      ∙ scanned (v <> t) n default_value (scan_int-parse_int v t n h d) in
    (
      same,
      λ nothing.
          let whole : v <> t ≡ v = ap (λ u. v <> u) nothing ∙ append_empty v in
          rw (e, get_int_or_default) (rw (whole, h) (sym same)),
    )
