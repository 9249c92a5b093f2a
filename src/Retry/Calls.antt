-- ===== src/Retry/Calls.antt =====
-- How often `Do` calls its operation, in any world.
use kle_ng_api.Prelude.{
  ℕ, zero, suc, ◌+◌, ◌≤◌, Bool, Option, none, some, inl, inr, arith, Option-cases, ℤ,
}
use kle_ng_api.Retry.{backoff_delay, normalize_attempts, attempt_loop, do_retry}

module _ {E S : Type 0} (fn : S → Option E × S) (wait : ℕ → S → Bool × S)
    (retryable : Option (E → Bool)) (base n : ℕ) (calls : S → ℕ)
    (counts : (s : S) → calls (fn s).1 ≤ calls s + 1)
    (keeps : (d : ℕ) (s : S) → calls (wait d s).1 ≤ calls s) where
  loop_calls :
      (left attempt : ℕ) (err : Option E) (s : S)
      → calls (attempt_loop fn wait retryable base n left attempt err s).1 ≤ calls s + left
  unfolding attempt_loop
  loop_calls zero attempt err s = omega arith
  loop_calls (suc left) attempt err s = elim (Option-cases (fn s).0) [
    | inl ok ↦ ground (arith, counts s)
    | inr (e, failed) ↦
        let waiting = wait (backoff_delay base attempt) (fn s).1 in
        ground (
          arith,
          counts s,
          keeps (backoff_delay base attempt) (fn s).1,
          loop_calls left (suc attempt) (some e) waiting.1,
        )
  ]

module _ {E S : Type 0} (fn : S → Option E × S) (wait : ℕ → S → Bool × S)
    (retryable : Option (E → Bool)) (base : ℕ) (attempts : ℤ) where
  -- Whatever the calls and the waits do to the world, a counter that a call moves by at most one
  -- and that no wait moves up has moved by at most `attempts`, or 1 where `attempts` is below 1:
  -- `Do` makes at most that many calls.
  pub do_retry_calls :
      (calls : S → ℕ)
      → ((s : S) → calls (fn s).1 ≤ calls s + 1)
      → ((d : ℕ) (s : S) → calls (wait d s).1 ≤ calls s)
      → (s : S)
      → calls (do_retry fn wait retryable base attempts s).1 ≤ calls s + normalize_attempts attempts
  unfolding do_retry
  do_retry_calls calls counts keeps s =
      loop_calls fn wait retryable base (normalize_attempts attempts) calls counts keeps _ 0 none s
