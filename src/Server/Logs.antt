-- ===== src/Server/Logs.antt =====
-- backend/cmd/server/logs.go, less the WebSocket loop that writes the frames out. The ID of a
-- stream entry is its position, from 1, and 0 stands in front of the stream; redis never trims it
-- here. A pump runs against a list of turns: what happens from one XREAD to the next.
pub mod Order
pub mod Line
pub mod Backfill
pub mod Shown
pub mod Socket
use kle_ng_api.Prelude.{
  ℕ, zero, suc, ◌-◌, Bool, true, false, String, Option, none, some, List, [], ◌∷◌, ◌++◌, take, drop,
  str_eq, if◌then◌else◌, ℤ, pos,
}
use kle_ng_api.Go.Decimal.{parse_int}
use kle_ng_api.Logstream.Publisher.{Values}
use kle_ng_api.Server.Http.{Request, Response, Headers, Body}
use kle_ng_api.Server.Queue.{TaskState, completed, archived, TaskInfo, Queue}

-- `wsReadCount`
abbrev pub ws_read_count : ℕ
ws_read_count = 500

-- `wsLogFrame` and `wsEndFrame`
pub data Frame : Type 0 where
  log_frame : ℤ → String → String → Frame
  end_frame : String → Frame

-- `checkWSOrigin`
unfoldable pub check_ws_origin : Bool → String → Request → Bool
check_ws_origin production allowed r = if production then str_eq r.origin allowed else true

-- a field of an entry, if it is there
unfoldable pub value_of : String → Values → Option String
value_of k [] = none
value_of k ((j, v) ∷ vs) = let rest = value_of k vs in if str_eq j k then some v else rest

unfoldable pub text_of : Option String → String
text_of none = ""
text_of (some s) = s

unfoldable pub ts_of : Option String → ℤ
ts_of none = pos 0
ts_of (some s) = (parse_int s).0

-- The frame and `isEnd`. Encoding either frame as JSON does not fail.
unfoldable pub encode_frame : Values → Frame × Bool
unfolding value_of text_of ts_of
encode_frame values =
    if str_eq (text_of (value_of "event" values)) "end"
    then (end_frame (text_of (value_of "status" values)), true)
    else (
      log_frame (ts_of (value_of "ts" values)) (text_of (value_of "source" values))
          (text_of (value_of "line" values)),
      false,
    )

-- the entries behind the first `n`, with their IDs
unfoldable pub number : ℕ → List Values → List (ℕ × Values)
number n [] = []
number n (v ∷ vs) = (suc n, v) ∷ number (suc n) vs

-- XREAD from `last_id`, at most `wsReadCount` entries
unfoldable pub xread : ℕ → List Values → List (ℕ × Values)
unfolding number
xread last_id stream = number last_id (take ws_read_count (drop last_id stream))

-- Why the pump has closed its channel, or that it still runs: the end marker was sent, the task
-- was found finished, the context was cancelled or redis failed.
pub data Ended : Type 0 where
  running at_end finished stopped : Ended

-- The entries of one XREAD. The context is cancelled once `sends` frames are taken, if at all.
unfoldable pub forward : List (ℕ × Values) → Option ℕ → ℕ → List Frame × ℕ × Ended
unfolding encode_frame
forward [] sends last_id = ([], last_id, running)
forward ((id, values) ∷ es) none last_id =
    let (frame, is_end) = encode_frame values in
    let (frames, last', ended) = forward es none id in
    if is_end then (frame ∷ [], id, at_end) else (frame ∷ frames, last', ended)
forward ((id, values) ∷ es) (some zero) last_id = ([], id, stopped)
forward ((id, values) ∷ es) (some (suc n)) last_id =
    let (frame, is_end) = encode_frame values in
    let (frames, last', ended) = forward es (some n) id in
    if is_end then (frame ∷ [], id, at_end) else (frame ∷ frames, last', ended)

-- What happens up to the next XREAD, and how that goes: the context is done, the command fails, or
-- it reads after the worker has appended entries; `state` is what the queue tells then.
pub data Turn (Q : Type 0) : Type 0 where
  cancelled : Turn Q
  failed : Turn Q
  read : List Values → Option ℕ → Q → Turn Q

module _ {Q : Type 0} (q : Queue Q) where
  unfoldable pub task_stream_finished : String → Q → Bool
  task_stream_finished task_id s = elim (q.get_task_info "kicad" task_id s) [
    | none ↦ true
    | some info ↦ elim info.state [ completed ↦ true | archived ↦ true | _ ↦ false ]
  ]

  -- the frames sent, and why no more are
  unfoldable pub pump_log_stream : String → ℕ → List Values → List (Turn Q) → List Frame × Ended
  unfolding xread forward task_stream_finished
  pump_log_stream task_id last_id stream [] = ([], running)
  pump_log_stream task_id last_id stream (cancelled ∷ turns) = ([], stopped)
  pump_log_stream task_id last_id stream (failed ∷ turns) = ([], stopped)
  pump_log_stream task_id last_id stream (read more sends s ∷ turns) =
      let stream' = stream ++ more in
      elim (xread last_id stream') [
        | [] ↦
            let rest = pump_log_stream task_id last_id stream' turns in
            if task_stream_finished task_id s then ([], finished) else rest
        | entry ∷ es ↦
            let (frames, last', ended) = forward (entry ∷ es) sends last_id in
            let (later, why) = pump_log_stream task_id last' stream' turns in
            elim ended [ running ↦ (frames ++ later, why) | closed ↦ (frames, closed) ]
      ]
