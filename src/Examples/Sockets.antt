-- ===== src/Examples/Sockets.antt =====
-- A viewer's connection over a log of one line.
use kle_ng_api.Prelude.{ℕ, ◌≤◌, ◌≡◌, refl, inl, true, false, some, List, [], ◌∷◌, ◌++◌, length, pos}
use kle_ng_api.Go.Decimal.{parse_int, show_int, show_nat, parse_unsigned, read_digits}
use kle_ng_api.Logstream.Publisher.{Values, line_values, end_values}
use kle_ng_api.Server.Logs.{
  at_end, finished, log_frame, end_frame, encode_frame, xread, task_stream_finished,
}
use kle_ng_api.Server.Logs.Socket.{
  appended, channel_capacity, pumping, closed, text, close_normal, Conn, Event, context_ends,
  pump_reads, pump_sends, pump_asks, handler_takes, step, open_conn,
}
use kle_ng_api.Server.Logs.Socket.Wire.{texts, says_close}
use kle_ng_api.Server.Logs.Socket.Moves.{Farewell}
use kle_ng_api.Server.Logs.Socket.Reach.{Reach, opens, later, run, run-Reach}
use kle_ng_api.Server.Logs.Socket.Refine.{Change, view, step_refines}
use kle_ng_api.Server.Logs.Socket.Ending.{IsOver, wind_down, winds_down, farewell_lem}
use kle_ng_api.Server.Logs.Socket.Race.{tail_may_be_lost}
use kle_ng_api.Examples.Queues.{empty_queue, one_task}

abbrev build_log : List Values
build_log = line_values (pos 5) "worker" "start" ∷ end_values "success" ∷ []

-- the pump has read the log and sent its first frame
abbrev one_sent : Conn
one_sent = record {
  stream = build_log;
  pump = pumping ((2, end_values "success") ∷ []) 1;
  channel = log_frame (pos 5) "worker" "start" ∷ [];
  cancelled = false;
  returned = false;
  wire = [];
}

one_sent-Reach : Reach empty_queue "t1" build_log one_sent
unfolding run step open_conn xread encode_frame line_values end_values parse_int show_int show_nat
    parse_unsigned read_digits
one_sent-Reach =
    run-Reach empty_queue "t1" (pump_reads ∷ pump_sends ∷ []) (open_conn build_log) one_sent opens
      refl

-- and the handler has written it
abbrev one_written : Conn
one_written = record one_sent {
  channel = [];
  wire = text (log_frame (pos 5) "worker" "start") ∷ [];
}

step_refines_example : Change (view one_sent) (view one_written)
unfolding step
step_refines_example =
    step_refines empty_queue "t1" {c = one_sent} {d = one_written} (handler_takes true)
      one_sent-Reach refl

-- Everything is written, and the close message.
abbrev three_more : List (Event ℕ)
three_more = handler_takes true ∷ pump_sends ∷ handler_takes true ∷ handler_takes true ∷ []

abbrev all_written : Conn
all_written = record {
  stream = build_log;
  pump = closed at_end;
  channel = [];
  cancelled = true;
  returned = true;
  wire = text (log_frame (pos 5) "worker" "start") ∷ text (end_frame "success") ∷ close_normal ∷ [];
}

farewell_lem_example :
    (length all_written.channel ≤ channel_capacity)
    × (says_close all_written.wire ≡ true → Farewell all_written)
unfolding run step encode_frame end_values
farewell_lem_example =
    farewell_lem empty_queue "t1" all_written
      (run-Reach empty_queue "t1" three_more one_sent all_written one_sent-Reach refl)

-- The client goes while a frame waits.
abbrev gone : Conn
gone = record one_sent { cancelled = true }

winds_down_example :
    (length (wind_down empty_queue "t1" 0 gone) ≤ 3)
    × ((d : Conn) × (run empty_queue "t1" (wind_down empty_queue "t1" 0 gone) gone ≡ some d)
        × IsOver d)
unfolding step
winds_down_example =
    winds_down empty_queue "t1" gone 0 (later {c = one_sent} context_ends one_sent-Reach refl)
      (inl refl)

tail_may_be_lost_example :
    (d : Conn) × (run one_task "t1"
        (pump_reads ∷ appended build_log ∷ pump_asks false ∷ handler_takes true ∷ [])
        (open_conn [])
      ≡ some d)
    × (d.pump ≡ closed finished)
    × (d.stream ≡ (open_conn []).stream ++ build_log)
    × (says_close d.wire ≡ true)
    × (texts d.wire ≡ texts (open_conn []).wire)
unfolding open_conn xread task_stream_finished
tail_may_be_lost_example =
    tail_may_be_lost one_task "t1" (open_conn []) 0 build_log false refl refl refl refl refl
