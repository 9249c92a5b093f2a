-- ===== src/Retry/Rule.antt =====
-- A proof rule for `Do`: what its failed calls and its waits leave alone, and what a success gives.
use kle_ng_api.Prelude.{
  ℕ, zero, suc, ◌≤◌, ◌≡◌, refl, ◌⊎◌, Bool, Option, none, some, inl, inr, arith, Option-cases, ℤ,
  pos, negsuc,
}
use kle_ng_api.Retry.{backoff_delay, normalize_attempts, attempt_loop, do_retry}

-- `failed` after an error, `done` after nil
abbrev pub outcome : {E A : Type 0} → A → A → Option E → A
outcome failed done none = done
outcome failed done (some e) = failed

module _ {E S A : Type 0} (fn : S → Option E × S) (wait : ℕ → S → Bool × S)
    (retryable : Option (E → Bool)) (base : ℕ) (view : S → A) (failed done : A)
    (call : (s : S) → view s ≡ failed → view (fn s).1 ≡ outcome failed done (fn s).0)
    (waited : (d : ℕ) (s : S) → view s ≡ failed → view (wait d s).1 ≡ failed) where
  loop_outcome :
      (n left attempt : ℕ) (err : Option E) (s : S)
      → view s ≡ failed
      → (1 ≤ left) ⊎ ((e : E) × (err ≡ some e))
      → let r = attempt_loop fn wait retryable base n left attempt err s in
        view r.1 ≡ outcome failed done r.0
  unfolding attempt_loop
  loop_outcome n zero attempt err s f h = ground arith
  loop_outcome n (suc left) attempt err s f h = elim (Option-cases (fn s).0) [
    | inl ok ↦ ground (arith, call s f)
    | inr (e, bad) ↦
        let s' = (fn s).1 in
        let f' : view s' ≡ failed = ground (arith, call s f) in
        let s'' = (wait (backoff_delay base attempt) s').1 in
        let f'' : view s'' ≡ failed = waited (backoff_delay base attempt) s' f' in
        ground (arith, loop_outcome n left (suc attempt) (some e) s'' f'' (inr (e, refl)))
  ]

  rounds_pos : (attempts : ℤ) → 1 ≤ normalize_attempts attempts
  unfolding normalize_attempts
  rounds_pos (pos n) = ground arith
  rounds_pos (negsuc n) = omega arith

  -- after `Do` the view tells whether it returned nil
  pub do_retry-outcome :
      (attempts : ℤ) (s : S)
      → view s ≡ failed
      → let r = do_retry fn wait retryable base attempts s in view r.1 ≡ outcome failed done r.0
  unfolding do_retry
  do_retry-outcome attempts s f =
      loop_outcome (normalize_attempts attempts) (normalize_attempts attempts) 0 none s f
        (inl (rounds_pos attempts))
