-- ===== src/Examples/Calls.antt =====
-- `retry.Do` on errors that are status codes: 500 and more may pass.
use kle_ng_api.Prelude.{
  ℕ, ◌+◌, ◌≤◌, ◌≡◌, refl, Bool, true, Option, none, some, [], ◌∷◌, ◌++◌, map, arith, leb, pos, inr,
}
use kle_ng_api.Retry.{normalize_attempts, is_permanent, do_retry}
use kle_ng_api.Retry.Script.{play, sleep_until, delays, do_retry_exhausts}
use kle_ng_api.Retry.Calls.{do_retry_calls}

abbrev may_pass : Option (ℕ → Bool)
may_pass = some (λ code. leb 500 code)

-- The context is done in the wait after the second of five attempts.
do_retry_exhausts_example :
    do_retry play
      (sleep_until 1)
      may_pass
      1000
      (pos 5)
      (record { outcomes = map some (503 ∷ []) ++ some 502 ∷ none ∷ []; waited = [] })
    ≡ (some 502, record { outcomes = none ∷ []; waited = [] ++ delays 1000 0 2 })
unfolding is_permanent
do_retry_exhausts_example =
    do_retry_exhausts may_pass 1000 1 5 (503 ∷ []) 502 (none ∷ []) [] (refl, tt) refl (omega arith)
      (inr (omega arith, refl))

-- A call that counts itself and fails.
abbrev count_and_fail : ℕ → Option ℕ × ℕ
count_and_fail n = (some 503, n + 1)

abbrev fire : ℕ → ℕ → Bool × ℕ
fire d n = (true, n)

do_retry_calls_example :
    (do_retry count_and_fail fire may_pass 1000 (pos 3) 7).1 ≤ 7 + normalize_attempts (pos 3)
do_retry_calls_example =
    do_retry_calls count_and_fail fire may_pass 1000 (pos 3) (λ n. n) (λ s. omega arith)
      (λ d s. omega arith) 7
