-- ===== src/Server/Logs/Order.antt =====
-- The frames of a log stream: in the order of the entries, each once, up to the end marker.
use kle_ng_api.Prelude.{
  ℕ, zero, suc, ◌+◌, ◌≤◌, ◌≡◌, refl, sym, ap, ◌∙◌, ◌⊎◌, inl, inr, String, Option, none, some, List,
  [], ◌∷◌, ◌++◌, append_assoc, append-nil, length, drop-append, drop-drop, drop-length-take,
  length-drop, length-take-le, List-cases, take, drop, take-append-drop, length-append, arith,
  if◌then◌else◌, Bool-cases,
}
use kle_ng_api.Logstream.Publisher.{Values}
use kle_ng_api.Server.Queue.{Queue}
use kle_ng_api.Server.Logs.{
  ws_read_count, Frame, Ended, running, at_end, stopped, encode_frame, number, forward, Turn,
  cancelled, failed, read, task_stream_finished, pump_log_stream,
}

-- the frames of a stream, the first end frame the last
unfoldable pub up_to_end : List Values → List Frame
up_to_end [] = []
up_to_end (v ∷ vs) =
    let rest = up_to_end vs in
    let (frame, is_end) = encode_frame v in if is_end then frame ∷ [] else frame ∷ rest

-- What `forward` has sent of the entries `es` when `more` follow them.
Forwarded : List Values → List Values → ℕ → List Frame × ℕ × Ended → Type 0
Forwarded es more n r =
    ((r.2 ≡ at_end) × (r.0 ≡ up_to_end (es ++ more)))
    ⊎ (((r.2 ≡ stopped) × ((rest : List Frame) × (r.0 ++ rest ≡ up_to_end (es ++ more))))
        ⊎ ((r.2 ≡ running)
            × (r.1 ≡ n + length es)
            × (r.0 ++ up_to_end more ≡ up_to_end (es ++ more))))

forward_lem :
    (es more : List Values) (sends : Option ℕ) (n : ℕ)
    → Forwarded es more n (forward (number n es) sends n)
unfolding Forwarded forward number up_to_end
forward_lem [] more sends n = inr (inr (refl, omega arith, refl))
forward_lem (v ∷ es) more none n = ground (arith, forward_lem es more none (suc n))
forward_lem (v ∷ es) more (some zero) n = inr (inl (refl, (up_to_end (v ∷ es ++ more), refl)))
forward_lem (v ∷ es) more (some (suc m)) n = ground (arith, forward_lem es more (some m) (suc n))

pub take-nil : (xs : List Values) → take ws_read_count xs ≡ [] → xs ≡ []
take-nil [] h = refl
take-nil (x ∷ xs) h = cc h

module _ {Q : Type 0} where
  -- the entries that arrive over the turns
  abbrev pub grown : List (Turn Q) → List Values
  grown [] = []
  grown (read more sends s ∷ turns) = more ++ grown turns
  grown (_ ∷ turns) = grown turns

-- What is sent is the beginning of the frames of `all`, and all of them if the end marker is sent.
pub record IsInOrder (all : List Values) (r : List Frame × Ended) : Type 0 where
  pub starts : (rest : List Frame) × (r.0 ++ rest ≡ up_to_end all)
  pub whole : r.1 ≡ at_end → r.0 ≡ up_to_end all

-- One read that finds entries: the rest of the pump goes on behind the last of them.
read-IsInOrder :
    (es more : List Values) (sends : Option ℕ) (n : ℕ) (rest : List Frame × Ended)
    → ((forward (number n es) sends n).2 ≡ running
        → (forward (number n es) sends n).1 ≡ n + length es
        → IsInOrder more rest)
    → let f = forward (number n es) sends n in
      IsInOrder
        (es ++ more)
        (elim (f.2) [ running ↦ (f.0 ++ rest.0, rest.1) | closed ↦ (f.0, closed) ])
unfolding Forwarded
read-IsInOrder es more sends n rest ih = elim (forward_lem es more sends n) [
  | inl (e, all) ↦ rw e (record { starts = ([], append-nil _ ∙ all); whole = λ _. all })
  | inr (inl (e, (behind, starts))) ↦ rw e (record { starts = (behind, starts); whole = λ d. cc d })
  | inr (inr (e, last, all)) ↦
      let r = ih e last in
      rw e (record {
        starts = (
          r.starts.0,
          append_assoc _ rest.0 r.starts.0
              ∙ ap (λ t. (forward (number n es) sends n).0 ++ t) r.starts.1
              ∙ all,
        );
        whole = λ d. ap (λ t. (forward (number n es) sends n).0 ++ t) (r.whole d) ∙ all;
      })
]

module _ {Q : Type 0} (q : Queue Q) where
  pump_lem :
      (task_id : String) (last_id : ℕ) (stream : List Values) (turns : List (Turn Q))
      → last_id ≤ length stream
      → IsInOrder
          (drop last_id stream ++ grown turns)
          (pump_log_stream q task_id last_id stream turns)
  unfolding pump_log_stream
  pump_lem task_id last_id stream [] h = record { starts = (_, refl); whole = λ e. cc e }
  pump_lem task_id last_id stream (cancelled ∷ turns) h = record {
    starts = (_, refl);
    whole = λ e. cc e;
  }
  pump_lem task_id last_id stream (failed ∷ turns) h = record {
    starts = (_, refl);
    whole = λ e. cc e;
  }
  pump_lem task_id last_id stream (read more sends s ∷ turns) h =
      let stream' = stream ++ more in
      let h' : last_id ≤ length stream' = omega (arith, h, length-append stream more) in
      let shape : drop last_id stream ++ (more ++ grown turns)
          ≡ drop last_id stream' ++ grown turns =
        sym (append_assoc (drop last_id stream) more (grown turns))
        ∙ ap (λ t. t ++ grown turns) (sym (drop-append last_id stream more h)) in
      let found = drop last_id stream' in
      rw shape (elim (List-cases (take ws_read_count found)) [
        | inl none_new ↦
            let ih = pump_lem task_id last_id stream' turns h' in
            rw (none_new, pump_log_stream)
              (elim (Bool-cases (task_stream_finished q task_id s)) [
                | inl over ↦ rw over (record { starts = (_, refl); whole = λ e. cc e })
                | inr going ↦ rw going ih
              ])
        | inr (y, ys, some_new) ↦
            let whole : found ++ grown turns
                ≡ (y ∷ ys) ++ (drop ws_read_count found ++ grown turns) =
              ap (λ t. t ++ grown turns)
                (sym (take-append-drop ws_read_count found)
                  ∙ ap (λ t. t ++ drop ws_read_count found) some_new)
              ∙ append_assoc (y ∷ ys) (drop ws_read_count found) (grown turns) in
            rw (some_new, pump_log_stream)
              (rw whole (
                read-IsInOrder (y ∷ ys) (drop ws_read_count found ++ grown turns) sends last_id
                  (pump_log_stream q task_id (forward (number last_id (y ∷ ys)) sends last_id).1
                    stream' turns)
                  λ _ last.
                    let kept : drop (last_id + length (y ∷ ys)) stream' ≡ drop ws_read_count found =
                      drop-drop last_id (length (y ∷ ys)) stream' h'
                      ∙ ap (λ t. drop (length t) found) (sym some_new)
                      ∙ drop-length-take ws_read_count found in
                    let fits : last_id + length (y ∷ ys) ≤ length stream' = omega (
                      arith,
                      ap length some_new,
                      length-take-le ws_read_count found,
                      length-drop last_id stream' h',
                    ) in
                    rw (last, ← kept)
                      (pump_lem task_id (last_id + length (y ∷ ys)) stream' turns fits)))
      ])

  -- Whatever happens over the turns, the browser gets the frames of the stream's entries in the
  -- order in which they were appended, none twice and none left out in between, and nothing behind
  -- the first end marker; all of them up to the marker, if the pump ends because it has sent it.
  pub pump-IsInOrder :
      (task_id : String) (turns : List (Turn Q))
      → IsInOrder (grown turns) (pump_log_stream q task_id 0 [] turns)
  pump-IsInOrder task_id turns = pump_lem task_id 0 [] turns (omega arith)
