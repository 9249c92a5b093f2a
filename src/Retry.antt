-- ===== src/Retry.antt =====
-- backend/internal/retry/retry.go: `Do`. The operation `fn` and the wait on the timer or the
-- context are effects on a world `S`: `fn s` is the error (`none` is nil) and the next world,
-- `wait d s` says whether the timer of `d` fired (`true`) or the context was done first (`false`).
pub mod Calls
pub mod Rule
pub mod Script
use kle_ng_api.Prelude.{
  ℕ, zero, suc, ◌+◌, ◌-◌, ◌*◌, ◌%◌, ◌^◌, Bool, true, false, not, Option, none, some, ltb, ◌==◌, ℤ,
  pos, negsuc, if◌then◌else◌,
}

-- `baseDelay << uint(attempt)`, as the 64-bit pattern of the int64
unfoldable pub backoff_delay : ℕ → ℕ → ℕ
backoff_delay base_delay attempt = (base_delay * 2 ^ attempt) % 2 ^ 64

-- `if attempts < 1 { attempts = 1 }`
unfoldable pub normalize_attempts : ℤ → ℕ
normalize_attempts (pos n) = if ltb n 1 then 1 else n
normalize_attempts (negsuc n) = 1

-- `retryable != nil && !retryable(err)`
unfoldable pub is_permanent : {E : Type 0} → Option (E → Bool) → E → Bool
is_permanent none e = false
is_permanent (some retryable) e = not (retryable e)

module _ {E S : Type 0} (fn : S → Option E × S) (wait : ℕ → S → Bool × S)
    (retryable : Option (E → Bool)) (base_delay attempts : ℕ) where
  -- the loop: `left` rounds remain, `err` is the last error
  unfoldable pub attempt_loop : ℕ → ℕ → Option E → S → Option E × S
  attempt_loop zero attempt err s = (err, s)
  attempt_loop (suc left) attempt err s =
      let (result, s') = fn s in
      elim result [
        | none ↦ (none, s')
        | some e ↦ elim (is_permanent retryable e) [
          | true ↦ (some e, s')
          | false ↦ elim (attempt == attempts - 1) [
            | true ↦ (some e, s')
            | false ↦
                let (fired, s'') = wait (backoff_delay base_delay attempt) s' in
                elim fired [
                  | true ↦ attempt_loop left (suc attempt) (some e) s''
                  | false ↦ (some e, s'')
                ]
          ]
        ]
      ]

unfoldable pub do_retry :
    {E S : Type 0}
    → (S → Option E × S)
    → (ℕ → S → Bool × S)
    → Option (E → Bool)
    → ℕ
    → ℤ
    → S
    → Option E × S
unfolding attempt_loop
do_retry fn wait retryable base_delay attempts s =
    let n = normalize_attempts attempts in attempt_loop fn wait retryable base_delay n n 0 none s
