-- ===== src/Retry/Script.antt =====
-- `Do` against a script: the outcomes of the calls are given in advance, and the delays that
-- were waited for are recorded. The context is done after a number of waits.
use kle_ng_api.Prelude.{
  ℕ, zero, suc, ◌+◌, ◌-◌, ◌<◌, ◌≡◌, refl, ◌∙◌, Bool, true, false, Option, none, some, List, [], ◌∷◌,
  ◌++◌, map, append_assoc, append-nil, length, All, arith, ◌==◌, pos, ltb, ◌≤◌, ap, length-append,
  ◌⊎◌, inl, inr, if◌then◌else◌,
}
use kle_ng_api.Retry.{backoff_delay, normalize_attempts, is_permanent, attempt_loop, do_retry}

pub record Script (E : Type 0) : Type 0 where
  pub outcomes : List (Option E)
  pub waited : List ℕ

module _ {E : Type 0} where
  pop_outcome : List (Option E) → List ℕ → Option E × Script E
  pop_outcome [] waited = (none, record { outcomes = []; waited = waited })
  pop_outcome (o ∷ os) waited = (o, record { outcomes = os; waited = waited })

  -- a call of `fn`
  unfoldable pub play : Script E → Option E × Script E
  unfolding pop_outcome
  play s = pop_outcome s.outcomes s.waited

  -- The timer fires first in the first `stop` waits; from then on the context is done.
  unfoldable pub sleep_until : ℕ → ℕ → Script E → Bool × Script E
  sleep_until stop d s = (ltb (length s.waited) stop, record s { waited = s.waited ++ d ∷ [] })

-- the delays of `count` waits that begin after attempt `attempt`
unfoldable pub delays : ℕ → ℕ → ℕ → List ℕ
delays base attempt zero = []
delays base attempt (suc count) = backoff_delay base attempt ∷ delays base (suc attempt) count

module _ {E : Type 0} (retryable : Option (E → Bool)) (base stop : ℕ) where
  abbrev pub IsTransient : E → Type 0
  IsTransient e = is_permanent retryable e ≡ false

  -- a transient failure before the last round is waited for, and the loop goes on
  loop_step :
      (x : E) (os : List (Option E)) (n left attempt : ℕ) (err : Option E) (w : List ℕ)
      → IsTransient x
      → attempt + 1 < n
      → length w < stop
      → attempt_loop play
          (sleep_until stop)
          retryable
          base
          n
          (suc left)
          attempt
          err
          (record { outcomes = some x ∷ os; waited = w })
        ≡ attempt_loop play
            (sleep_until stop)
            retryable
            base
            n
            left
            (suc attempt)
            (some x)
            (record { outcomes = os; waited = w ++ backoff_delay base attempt ∷ [] })
  unfolding attempt_loop play sleep_until
  loop_step x os n left attempt err w t h goes_on =
      let e : (attempt == n - 1) ≡ false = ground arith in ground arith

  -- a transient failure before the last round, where the context is done in the wait
  loop_cancelled :
      (x : E) (os : List (Option E)) (n left attempt : ℕ) (err : Option E) (w : List ℕ)
      → IsTransient x
      → attempt + 1 < n
      → length w ≡ stop
      → attempt_loop play
          (sleep_until stop)
          retryable
          base
          n
          (suc left)
          attempt
          err
          (record { outcomes = some x ∷ os; waited = w })
        ≡ (some x, record { outcomes = os; waited = w ++ backoff_delay base attempt ∷ [] })
  unfolding attempt_loop play sleep_until
  loop_cancelled x os n left attempt err w t h done =
      let e : (attempt == n - 1) ≡ false = ground arith in ground arith

  -- in the last round the error is returned, with no wait
  loop_last :
      (x : E) (os : List (Option E)) (n left attempt : ℕ) (err : Option E) (w : List ℕ)
      → attempt + 1 ≡ n
      → attempt_loop play
          (sleep_until stop)
          retryable
          base
          n
          (suc left)
          attempt
          err
          (record { outcomes = some x ∷ os; waited = w })
        ≡ (some x, record { outcomes = os; waited = w })
  unfolding attempt_loop play
  loop_last x os n left attempt err w h =
      let e : (attempt == n - 1) ≡ true = ground arith in ground arith

  loop_permanent :
      (x : E) (os : List (Option E)) (n left attempt : ℕ) (err : Option E) (w : List ℕ)
      → is_permanent retryable x ≡ true
      → attempt_loop play
          (sleep_until stop)
          retryable
          base
          n
          (suc left)
          attempt
          err
          (record { outcomes = some x ∷ os; waited = w })
        ≡ (some x, record { outcomes = os; waited = w })
  unfolding attempt_loop play
  loop_permanent x os n left attempt err w h = ground arith

  -- the error variable after failures
  last_error : Option E → List E → Option E
  last_error err [] = err
  last_error err (x ∷ errs) = last_error (some x) errs

  -- after transient failures the loop stands at the next outcome, with the waits recorded
  loop_skip :
      (errs : List E) (n left k attempt now : ℕ) (err : Option E) (os : List (Option E))
      (w : List ℕ)
      → All IsTransient errs
      → left ≡ length errs + suc k
      → now ≡ attempt + length errs
      → attempt + left ≡ n
      → length w + length errs ≤ stop
      → attempt_loop play
          (sleep_until stop)
          retryable
          base
          n
          left
          attempt
          err
          (record { outcomes = map some errs ++ os; waited = w })
        ≡ attempt_loop play
            (sleep_until stop)
            retryable
            base
            n
            (suc k)
            now
            (last_error err errs)
            (record { outcomes = os; waited = w ++ delays base attempt (length errs) })
  unfolding last_error delays
  loop_skip [] n left k attempt now err os w t h a e goes_on =
      let l : left ≡ suc k = omega arith in
      let b : now ≡ attempt = omega arith in rw (l, b, append-nil)
  loop_skip (x ∷ errs) n zero k attempt now err os w t h a e goes_on = absurd (omega arith)
  loop_skip (x ∷ errs) n (suc left) k attempt now err os w t h a e goes_on =
      let more = length-append w (backoff_delay base attempt ∷ []) in
      loop_step x (map some errs ++ os) n left attempt err w t.0 (omega arith) (omega arith)
      ∙ loop_skip errs n left k (suc attempt) now (some x) os (w ++ backoff_delay base attempt ∷ [])
          t.1 (omega arith) (omega arith) (omega arith) (omega (arith, more))
      ∙ rw append_assoc

  attempts_pos : (n : ℕ) → 0 < n → normalize_attempts (pos n) ≡ n
  unfolding normalize_attempts
  attempts_pos n h = ground arith

  length-delays : (attempt count : ℕ) → length (delays base attempt count) ≡ count
  unfolding delays
  length-delays attempt zero = refl
  length-delays attempt (suc count) = ap suc (length-delays (suc attempt) count)

  delays_next :
      (attempt count now : ℕ)
      → now ≡ attempt + count
      → delays base attempt count ++ backoff_delay base now ∷ [] ≡ delays base attempt (suc count)
  unfolding delays
  delays_next attempt zero now e =
      let same : now ≡ attempt = omega arith in ap (λ a. backoff_delay base a ∷ []) same
  delays_next attempt (suc count) now e =
      ap (λ ds. backoff_delay base attempt ∷ ds) (delays_next (suc attempt) count now (omega arith))

  -- If every allowed attempt fails transiently, or the context is done in the wait after a transient
  -- failure before that, and in no wait before this one, `Do` returns the error of the last call. It
  -- has made no call beyond these failures, and has waited after each of them, but not after the
  -- last attempt that is allowed.
  pub do_retry_exhausts :
      (n : ℕ) (errs : List E) (x : E) (rest : List (Option E)) (w : List ℕ)
      → All IsTransient errs
      → IsTransient x
      → length w + length errs ≤ stop
      → (length errs + 1 ≡ n) ⊎ ((length errs + 1 < n) × (length w + length errs ≡ stop))
      → do_retry play
          (sleep_until stop)
          retryable
          base
          (pos n)
          (record { outcomes = map some errs ++ some x ∷ rest; waited = w })
        ≡ (
          some x,
          record {
            outcomes = rest;
            waited =
                w
                ++ delays base 0
                    (if ltb (length errs + 1) n then suc (length errs) else length errs);
          },
        )
  unfolding do_retry
  do_retry_exhausts n errs x rest w t tx goes_on (inl h) =
      let e : ltb (length errs + 1) n ≡ false = ground arith in
      rw (attempts_pos n (omega arith), e)
        (loop_skip errs n n 0 0 (length errs) none (some x ∷ rest) w t (omega arith) (omega arith)
            (omega arith) goes_on
          ∙ loop_last x rest n 0 (length errs) (last_error none errs)
              (w ++ delays base 0 (length errs)) (omega arith))
  do_retry_exhausts n errs x rest w t tx goes_on (inr (h, at)) =
      let waits = w ++ delays base 0 (length errs) in
      let e : ltb (length errs + 1) n ≡ true = ground arith in
      rw (attempts_pos n (omega arith), e)
        (loop_skip errs n n (n - 1 - length errs) 0 (length errs) none (some x ∷ rest) w t
            (omega arith) (omega arith) (omega arith) goes_on
          ∙ loop_cancelled x rest n (n - 1 - length errs) (length errs) (last_error none errs) waits
              tx (omega arith)
              (omega (
                arith,
                length-append w (delays base 0 (length errs)),
                length-delays 0 (length errs),
                at,
              ))
          ∙ ap (λ ds. (some x, record { outcomes = rest; waited = ds }))
              (append_assoc w (delays base 0 (length errs)) _
                ∙ ap (λ ds. w ++ ds) (delays_next 0 (length errs) (length errs) (omega arith))))

  -- A permanent failure ends `Do` at once with that failure, whatever attempts are left.
  pub do_retry_stops :
      (n : ℕ) (errs : List E) (x : E) (rest : List (Option E)) (w : List ℕ)
      → All IsTransient errs
      → length errs < n
      → length w + length errs ≤ stop
      → is_permanent retryable x ≡ true
      → do_retry play
          (sleep_until stop)
          retryable
          base
          (pos n)
          (record { outcomes = map some errs ++ some x ∷ rest; waited = w })
        ≡ (some x, record { outcomes = rest; waited = w ++ delays base 0 (length errs) })
  unfolding do_retry
  do_retry_stops n errs x rest w t h goes_on p = rw (attempts_pos n (omega arith)) (
      loop_skip errs n n (n - 1 - length errs) 0 (length errs) none (some x ∷ rest) w t
        (omega arith) (omega arith) (omega arith) goes_on
      ∙ loop_permanent x rest n (n - 1 - length errs) (length errs) (last_error none errs)
          (w ++ delays base 0 (length errs)) p)
