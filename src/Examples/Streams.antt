-- ===== src/Examples/Streams.antt =====
-- A build log: its bytes, its stream and its frames.
use kle_ng_api.Prelude.{ℕ, ◌≡◌, String, ◌++◌, refl, true, none, List, [], ◌∷◌, arith, ℤ, pos}
use kle_ng_api.Logstream.LineWriter.{Bytes, write_all}
use kle_ng_api.Logstream.LineWriter.Chunks.{split_lines, lines_of, flatten, write_all-lines_of}
use kle_ng_api.Logstream.Publisher.{
  Values, Redis, stream_key, line_values, end_values, added_to, trimmed_off, held,
}
use kle_ng_api.Server.Logs.{end_frame, encode_frame, at_end, Turn, cancelled, read, pump_log_stream}
use kle_ng_api.Logstream.Writer.Lines.{stamped}
use kle_ng_api.Server.Logs.Shown.{line_frames, said_frames, log_shown}
use kle_ng_api.Logstream.Writer.TaskLog.{publish_log}
use kle_ng_api.Server.Logs.Order.{up_to_end, grown, IsInOrder, pump-IsInOrder}
use kle_ng_api.Server.Logs.Backfill.{quiet, has_end, pump_backfills}
use kle_ng_api.Examples.Queues.{empty_queue}

-- "ab\r\nc" in two chunks, cut inside the line end
abbrev chunks : List Bytes
chunks = (97 ∷ 98 ∷ 13 ∷ []) ∷ (10 ∷ 99 ∷ []) ∷ []

write_all-lines_of_example : (write_all (record { buf = [] }) chunks).0 ≡ lines_of (flatten chunks)
write_all-lines_of_example = write_all-lines_of chunks

-- The pump reads a line, then another with the end marker, and would go on.
abbrev three_turns : List (Turn ℕ)
three_turns =
    read (line_values (pos 5) "worker" "start" ∷ []) none 0
    ∷ read (line_values (pos 6) "worker" "stop" ∷ end_values "success" ∷ []) none 1
    ∷ cancelled
    ∷ []

pump-IsInOrder_example :
    IsInOrder (grown three_turns) (pump_log_stream empty_queue "t1" 0 [] three_turns)
pump-IsInOrder_example = pump-IsInOrder empty_queue "t1" three_turns

abbrev whole_log : List Values
whole_log = line_values (pos 5) "worker" "start" ∷ end_values "failure" ∷ []

pump_backfills_example :
    pump_log_stream empty_queue "t1" 0 [] (read whole_log none 0 ∷ quiet {Q = ℕ} empty_queue [])
    ≡ (up_to_end whole_log, at_end)
unfolding has_end encode_frame line_values end_values
pump_backfills_example = pump_backfills empty_queue "t1" whole_log 0 [] (omega arith) refl

-- a text of one byte for every output; every command is answered
abbrev some_text : Bytes → String
some_text b = "x"

abbrev willing : Redis
willing = record {
  answers = true ∷ true ∷ true ∷ true ∷ true ∷ true ∷ true ∷ true ∷ [];
  entries = [];
  wishes = [];
  trimmed = [];
  armed = [];
  expire_calls = 0;
}

abbrev start_line : List (ℤ × String)
start_line = (pos 4, "start") ∷ []

log_shown_example :
    up_to_end (
      held
        (stream_key "t1")
        (publish_log some_text "t1" start_line chunks (pos 5 ∷ pos 6 ∷ []) [] "success" willing))
    ≡ said_frames start_line
      ++ (line_frames some_text (pos 5 ∷ pos 6 ∷ []) (lines_of (flatten chunks))
          ++ (said_frames [] ++ end_frame "success" ∷ []))
unfolding lines_of flatten split_lines stamped added_to trimmed_off
log_shown_example =
    log_shown some_text "t1" start_line chunks (pos 5 ∷ pos 6 ∷ []) [] "success" willing
      (omega arith) (omega arith) tt
      (refl, (refl, (refl, (refl, (refl, (refl, (refl, (refl, tt)))))))) refl refl (omega arith)
