-- ===== src/Server/Logs/Shown.antt =====
-- From kbplacer's output to the frames in the browser.
use kle_ng_api.Prelude.{
  ◌^◌, ◌<◌, ◌≤◌, ◌≡◌, refl, sym, ap, subst, ◌∙◌, String, List, [], ◌∷◌, ◌++◌, All, length, ℤ, pos,
  pos_part, neg_part, arith,
}
use kle_ng_api.Logstream.LineWriter.{Bytes}
use kle_ng_api.Logstream.LineWriter.Chunks.{lines_of, flatten}
use kle_ng_api.Logstream.Publisher.{
  Values, Redis, source_kbplacer, source_worker, max_len, stream_key, end_values, added_to,
  trimmed_off, held,
}
use kle_ng_api.Logstream.Publisher.Trimming.{held-all}
use kle_ng_api.Logstream.Writer.{now_of, times_left}
use kle_ng_api.Logstream.Writer.Lines.{Answers, commands, stamped}
use kle_ng_api.Logstream.Writer.TaskLog.{
  said, publish_log, log_values, publish_log-IsTrimmed, added_to-publish_log,
}
use kle_ng_api.Server.Logs.{Frame, log_frame, end_frame}
use kle_ng_api.Server.Logs.Line.{encode_published}
use kle_ng_api.Server.Logs.Order.{up_to_end}

-- the range of int64
abbrev pub IsInt64 : ℤ → Type 0
IsInt64 t = (pos_part t < 2 ^ 63) × (neg_part t ≤ 2 ^ 63)

-- the frame of each line, with the time of the clock
unfoldable pub line_frames : (Bytes → String) → List ℤ → List Bytes → List Frame
line_frames string_of times [] = []
line_frames string_of times (line ∷ lines) =
    log_frame (now_of times) source_kbplacer (string_of line)
    ∷ line_frames string_of (times_left times) lines

now_in_range : (times : List ℤ) → All IsInt64 times → IsInt64 (now_of times)
unfolding now_of
now_in_range [] h = (omega arith, omega arith)
now_in_range (t ∷ times) h = h.0

left_in_range : (times : List ℤ) → All IsInt64 times → All IsInt64 (times_left times)
unfolding times_left
left_in_range [] h = tt
left_in_range (t ∷ times) h = h.1

shown_lines :
    (string_of : Bytes → String) (times : List ℤ) (lines : List Bytes) (rest : List Values)
    → All IsInt64 times
    → up_to_end (stamped string_of source_kbplacer times lines ++ rest)
      ≡ line_frames string_of times lines ++ up_to_end rest
unfolding up_to_end stamped line_frames
shown_lines string_of times [] rest h = refl
shown_lines string_of times (line ∷ lines) rest h =
    let (low, high) = now_in_range times h in
    let (shown, _) = encode_published (now_of times) source_kbplacer (string_of line) "" low high in
    rw shown (
      ap (λ fs. log_frame (now_of times) source_kbplacer (string_of line) ∷ fs)
        (shown_lines string_of (times_left times) lines rest (left_in_range times h)))

abbrev pub said_frames : List (ℤ × String) → List Frame
said_frames [] = []
said_frames ((t, line) ∷ lines) = log_frame t source_worker line ∷ said_frames lines

shown_said :
    (lines : List (ℤ × String)) (rest : List Values)
    → All (λ l. IsInt64 l.0) lines
    → up_to_end (said lines ++ rest) ≡ said_frames lines ++ up_to_end rest
unfolding up_to_end
shown_said [] rest h = refl
shown_said ((t, line) ∷ lines) rest h =
    let (shown, _) = encode_published t source_worker line "" h.0.0 h.0.1 in
    rw shown (ap (λ fs. log_frame t source_worker line ∷ fs) (shown_said lines rest h.1))

shown_end : (status : String) → up_to_end (end_values status ∷ []) ≡ end_frame status ∷ []
unfolding up_to_end
shown_end status =
    let (_, ended) = encode_published (pos 0) "" "" status (omega arith) (omega arith) in
    rw ended refl

module _ (string_of : Bytes → String) (task_id : String) (before : List (ℤ × String))
    (chunks : List Bytes) (times : List ℤ) (after : List (ℤ × String)) (status : String)
    (r : Redis) where
  -- A task's whole log, from the worker's lines and kbplacer's output to the frames. If nothing was
  -- ever in the task's stream, Redis answers every command, and there are at most 2000 entries,
  -- then the stream holds at the end, untrimmed, entries whose frames are: one for each line that
  -- the worker says before; one for each line of the whole output, however it is cut into chunks,
  -- with the time at which it was complete, the source "kbplacer" and its text; one for each line
  -- that the worker says after; and last the end frame with the status.
  pub log_shown :
      All IsInt64 times
      → All (λ l. IsInt64 l.0) before
      → All (λ l. IsInt64 l.0) after
      → Answers
          (commands (commands (commands 2 (said after)) (lines_of (flatten chunks))) (said before))
          r.answers
      → added_to (stream_key task_id) r.entries ≡ []
      → trimmed_off (stream_key task_id) r.trimmed ≡ 0
      → length (log_values string_of before chunks times after status) ≤ max_len
      → up_to_end (
          held
            (stream_key task_id)
            (publish_log string_of task_id before chunks times after status r))
        ≡ said_frames before
          ++ (line_frames string_of times (lines_of (flatten chunks))
              ++ (said_frames after ++ end_frame status ∷ []))
  log_shown h before_h after_h ready new untrimmed short =
      let lines = lines_of (flatten chunks) in
      let stamps = stamped string_of source_kbplacer times lines in
      let values = log_values string_of before chunks times after status in
      let r' = publish_log string_of task_id before chunks times after status r in
      let added : added_to (stream_key task_id) r'.entries ≡ values =
        added_to-publish_log string_of task_id before chunks times after status r ready
        ∙ ap (λ l. l ++ values) new in
      let all : held (stream_key task_id) r' ≡ values =
        held-all (stream_key task_id) r'
          (publish_log-IsTrimmed string_of task_id before chunks times after status r
            (omega (arith, untrimmed)))
          (subst (λ l. length l ≤ max_len) (sym added) short)
        ∙ added in
      ap up_to_end all
      ∙ shown_said before (stamps ++ (said after ++ end_values status ∷ [])) before_h
      ∙ ap (λ fs. said_frames before ++ fs)
          (shown_lines string_of times lines (said after ++ end_values status ∷ []) h
            ∙ ap (λ fs. line_frames string_of times lines ++ fs)
                (shown_said after (end_values status ∷ []) after_h
                  ∙ ap (λ fs. said_frames after ++ fs) (shown_end status)))
