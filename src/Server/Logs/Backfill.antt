-- ===== src/Server/Logs/Backfill.antt =====
-- A reader who comes after the task has ended gets the whole log.
use kle_ng_api.Prelude.{
  ℕ, zero, suc, ◌+◌, ◌*◌, ◌-◌, ◌≤◌, ◌≡◌, refl, sym, ap, ◌∙◌, ◌⊎◌, inl, inr, Bool, true, false,
  String, none, List, [], ◌∷◌, ◌++◌, length, append-nil, drop-drop, drop-length-take, length-drop,
  length-take-le, List-cases, take, drop, take-append-drop, arith, if◌then◌else◌,
}
use kle_ng_api.Logstream.Publisher.{Values}
use kle_ng_api.Server.Queue.{Queue}
use kle_ng_api.Server.Logs.{
  ws_read_count, running, at_end, encode_frame, number, forward, Turn, read, pump_log_stream,
}
use kle_ng_api.Server.Logs.Order.{up_to_end, take-nil}

unfoldable pub has_end : List Values → Bool
has_end [] = false
has_end (v ∷ vs) = let rest = has_end vs in if (encode_frame v).1 then true else rest

no_end : {xs : List Values} → xs ≡ [] → ¬ (has_end xs ≡ true)
unfolding has_end
no_end e h = cc (sym (ap has_end e) ∙ h)

forward_all :
    (es more : List Values) (n : ℕ)
    → let r = forward (number n es) none n in
      ((r.2 ≡ at_end) × (r.0 ≡ up_to_end (es ++ more)))
      ⊎ ((r.2 ≡ running)
          × (r.1 ≡ n + length es)
          × (r.0 ++ up_to_end more ≡ up_to_end (es ++ more))
          × (has_end (es ++ more) ≡ has_end more))
unfolding forward number up_to_end has_end
forward_all [] more n = inr (refl, omega arith, refl, refl)
forward_all (v ∷ es) more n = ground (arith, forward_all es more (suc n))

length-drop-read : (n : ℕ) (xs : List Values) → length (drop n xs) ≤ length xs - n
length-drop-read zero xs = omega arith
length-drop-read (suc n) [] = omega arith
length-drop-read (suc n) (x ∷ xs) = omega (arith, length-drop-read n xs)

module _ {Q : Type 0} (q : Queue Q) where
  -- turns in which nothing arrives and nothing goes wrong
  abbrev pub quiet : List Q → List (Turn Q)
  quiet [] = []
  quiet (s ∷ states) = read [] none s ∷ quiet states

  -- one read of a stream that ends, given what the reads behind it do
  backfill_read :
      (task_id : String) (last_id : ℕ) (stream more : List Values) (s : Q) (turns : List (Turn Q))
      → let found = drop last_id (stream ++ more) in
        last_id ≤ length (stream ++ more)
        → has_end found ≡ true
        → ((k : ℕ)
            → k ≤ length (stream ++ more)
            → drop k (stream ++ more) ≡ drop ws_read_count found
            → has_end (drop ws_read_count found) ≡ true
            → pump_log_stream q task_id k (stream ++ more) turns
              ≡ (up_to_end (drop ws_read_count found), at_end))
        → pump_log_stream q task_id last_id stream (read more none s ∷ turns)
          ≡ (up_to_end found, at_end)
  unfolding pump_log_stream
  backfill_read task_id last_id stream more s turns h ended ih =
      let stream' = stream ++ more in
      let found = drop last_id stream' in
      let later = drop ws_read_count found in
      elim (List-cases (take ws_read_count found)) [
        | inl e ↦ absurd (no_end (take-nil found e) ended)
        | inr (y, ys, e) ↦
            let whole : found ≡ (y ∷ ys) ++ later =
              sym (take-append-drop ws_read_count found) ∙ ap (λ t. t ++ later) e in
            rw (e, pump_log_stream)
              (elim (forward_all (y ∷ ys) later last_id) [
                | inl (closed, all) ↦
                    rw closed (ap (λ t. (t, at_end)) (all ∙ ap up_to_end (sym whole)))
                | inr (going, last, all, same) ↦
                    let kept : drop (last_id + length (y ∷ ys)) stream' ≡ later =
                      drop-drop last_id (length (y ∷ ys)) stream' h
                      ∙ ap (λ t. drop (length t) found) (sym e)
                      ∙ drop-length-take ws_read_count found in
                    let fits : last_id + length (y ∷ ys) ≤ length stream' = omega (
                      arith,
                      ap length e,
                      length-take-le ws_read_count found,
                      length-drop last_id stream' h,
                    ) in
                    let sent = (forward (number last_id (y ∷ ys)) none last_id).0 in
                    rw (going, last)
                      (ap (λ r. (sent ++ r.0, r.1))
                          (ih (last_id + length (y ∷ ys)) fits kept
                            (sym same ∙ ap has_end (sym whole) ∙ ended))
                        ∙ ap (λ t. (t, at_end)) (all ∙ ap up_to_end (sym whole)))
              ])
      ]

  backfill :
      (task_id : String) (last_id : ℕ) (stream : List Values) (states : List Q)
      → last_id ≤ length stream
      → length (drop last_id stream) ≤ ws_read_count * length states
      → has_end (drop last_id stream) ≡ true
      → pump_log_stream q task_id last_id stream (quiet states)
        ≡ (up_to_end (drop last_id stream), at_end)
  backfill task_id last_id stream [] h few ended = elim (List-cases (drop last_id stream)) [
    | inl e ↦ absurd (no_end e ended)
    | inr (y, ys, e) ↦ absurd (omega (arith, few, ap length e))
  ]
  backfill task_id last_id stream (s ∷ states) h few ended =
      let same = append-nil stream in
      backfill_read task_id last_id stream [] s (quiet states) (rw same h) (rw same ended) (
        rw same (λ k fits kept more.
          backfill task_id k stream states fits
            (rw kept (omega (arith, few, length-drop-read ws_read_count (drop last_id stream))))
            (rw kept more)
          ∙ ap (λ t. (up_to_end t, at_end)) kept))
      ∙ ap (λ t. (up_to_end (drop last_id t), at_end)) same

  -- A log that holds its end marker reaches a reader who comes later in full: if its entries are
  -- there at the first read and neither the context nor redis fails, as many reads as batches of
  -- 500 entries fill the log are enough for the pump to send the frames up to the marker and end.
  pub pump_backfills :
      (task_id : String) (entries : List Values) (state : Q) (states : List Q)
      → length entries ≤ ws_read_count * suc (length states)
      → has_end entries ≡ true
      → pump_log_stream q task_id 0 [] (read entries none state ∷ quiet states)
        ≡ (up_to_end entries, at_end)
  pump_backfills task_id entries state states few ended =
      backfill_read task_id 0 [] entries state (quiet states) (omega arith) ended
        λ k fits same more.
          backfill task_id k entries states fits
            (rw same (omega (arith, few, length-drop-read ws_read_count entries))) (rw same more)
          ∙ ap (λ t. (up_to_end t, at_end)) same
