-- ===== src/Server/Logs/Socket.antt =====
-- `KicadGetTaskLogs` of backend/cmd/server/logs.go with its three goroutines: the pump, the loop
-- that writes to the socket, and the reader that watches for the client's end. Each event is one
-- step of one of them, or of the world around them, and the order of events is open.
pub mod Wire
pub mod Invariant
pub mod Moves
pub mod Reach
pub mod Steps
pub mod Refine
pub mod Ending
pub mod Measure
pub mod Liveness
pub mod Race
use kle_ng_api.Prelude.{
  ℕ, ◌≡◌, Bool, true, false, String, Option, none, some, List, [], ◌∷◌, ◌++◌, length, ltb,
  if◌then◌else◌,
}
use kle_ng_api.Logstream.Publisher.{Values}
use kle_ng_api.Server.Http.{Request}
use kle_ng_api.Server.Tracker.{update_access}
use kle_ng_api.Server.Queue.{Queue}
use kle_ng_api.Server.Tasks.{World}
use kle_ng_api.Server.Logs.{
  Frame, Ended, at_end, finished, stopped, check_ws_origin, encode_frame, xread,
  task_stream_finished,
}

-- the buffer of `frames`
abbrev pub channel_capacity : ℕ
channel_capacity = 64

-- Where the pump stands: it has the entries of an XREAD still to send, and is at the head of its
-- loop if there are none; an XREAD has found nothing and it asks for the task's state; or it has
-- closed its channel. The number is `lastID`.
pub data Pump : Type 0 where
  pumping : List (ℕ × Values) → ℕ → Pump
  asking : ℕ → Pump
  closed : Ended → Pump

-- what the server writes to the socket
pub data Message : Type 0 where
  ping : Message
  text : Frame → Message
  close_normal : Message

-- A connection. `returned` says whether the handler has returned, `cancelled` whether its context
-- is done, `wire` what has been written; `stream` is the task's log in redis.
pub record Conn : Type 0 where
  pub stream : List Values
  pub pump : Pump
  pub channel : List Frame
  pub cancelled : Bool
  pub returned : Bool
  pub wire : List Message

-- The worker appends to the log. The context ends: the client is gone or the time is over. The pump
-- sees that, reads, fails to, gets an answer on the task's state, sends. The handler sees the end
-- of the context, pings, or takes from the channel; a write may fail.
pub data Event (Q : Type 0) : Type 0 where
  appended : List Values → Event Q
  context_ends : Event Q
  pump_stops pump_reads pump_fails pump_sends : Event Q
  pump_asks : Q → Event Q
  handler_leaves : Event Q
  handler_pings handler_takes : Bool → Event Q

-- The pump's closing of the channel, or its next entry.
unfoldable pub after_entry : Bool → List (ℕ × Values) → ℕ → Pump
after_entry is_end es id = if is_end then closed at_end else pumping es id

-- The handler returns; the deferred `cancel` ends the context.
unfoldable pub leave : Conn → Conn
leave c = record c { cancelled = true; returned = true }

-- one WriteMessage: an error ends the handler
unfoldable pub write_message : Bool → Message → Conn → Conn
unfolding leave
write_message written m c = if written then record c { wire = c.wire ++ m ∷ [] } else leave c

-- the case of a closed and empty channel: the result of the write is not looked at
unfoldable pub close_socket : Bool → Conn → Conn
unfolding write_message leave
close_socket written c = leave (write_message written close_normal c)

-- a receive from `frames`; it waits while the channel is empty and open
unfoldable pub take_frame : Bool → List Frame → Pump → Conn → Option Conn
unfolding write_message close_socket
take_frame written (f ∷ rest) p c =
    some (write_message written (text f) (record c { channel = rest }))
take_frame written [] (closed why) c = some (close_socket written c)
take_frame written [] (pumping es id) c = none
take_frame written [] (asking id) c = none

-- `out <- frame`, which waits while the channel is full
unfoldable pub send_frame : Pump → Conn → Option Conn
unfolding after_entry
send_frame (pumping ((id, values) ∷ es) last_id) c =
    let (frame, is_end) = encode_frame values in
    if ltb (length c.channel) channel_capacity
    then some (record c { channel = c.channel ++ frame ∷ []; pump = after_entry is_end es id })
    else none
send_frame _ c = none

-- XREAD: the entries behind `last_id`, or none in time
unfoldable pub read_batch : Pump → Conn → Option Conn
read_batch (pumping [] last_id) c = elim (xread last_id c.stream) [
  | [] ↦ some (record c { pump = asking last_id })
  | entry ∷ es ↦ some (record c { pump = pumping (entry ∷ es) last_id })
]
read_batch _ c = none

-- XREAD fails
unfoldable pub fail_read : Pump → Conn → Option Conn
fail_read (pumping [] last_id) c = some (record c { pump = closed stopped })
fail_read _ c = none

-- The end of the context is seen where the pump reads or sends, and not where it asks.
unfoldable pub stop_pump : Pump → Conn → Option Conn
stop_pump (pumping es last_id) c =
    if c.cancelled then some (record c { pump = closed stopped }) else none
stop_pump _ c = none

module _ {Q : Type 0} (q : Queue Q) (task_id : String) where
  -- the answer of `taskStreamFinished`
  unfoldable pub ask_state : Q → Pump → Conn → Option Conn
  ask_state s (asking last_id) c = some (record c {
    pump = if task_stream_finished q task_id s then closed finished else pumping [] last_id;
  })
  ask_state s _ c = none

  -- What the handler does waits until it has returned no more; `none` where the event cannot be.
  unfoldable pub step : Event Q → Conn → Option Conn
  unfolding ask_state stop_pump fail_read read_batch send_frame take_frame write_message leave
  step (appended more) c = some (record c { stream = c.stream ++ more })
  step context_ends c = some (record c { cancelled = true })
  step pump_stops c = stop_pump c.pump c
  step pump_reads c = read_batch c.pump c
  step pump_fails c = fail_read c.pump c
  step pump_sends c = send_frame c.pump c
  step (pump_asks s) c = ask_state s c.pump c
  step handler_leaves c = if c.returned then none else if c.cancelled then some (leave c) else none
  step (handler_pings written) c = if c.returned then none else some (write_message written ping c)
  step (handler_takes written) c =
      if c.returned then none else take_frame written c.channel c.pump c

-- The connection after the upgrade, over the log as it is then.
unfoldable pub open_conn : List Values → Conn
open_conn stream = record {
  stream = stream;
  pump = pumping [] 0;
  channel = [];
  cancelled = false;
  returned = false;
  wire = [];
}

-- The handler up to the loop: the access is recorded first, and an upgrade that is refused, for
-- the origin or for a handshake that is `valid` no more, ends it.
unfoldable pub get_task_logs :
    {Q : Type 0}
    → Bool
    → String
    → Bool
    → ℕ
    → String
    → Request
    → List Values
    → World Q
    → Option Conn × World Q
unfolding open_conn
get_task_logs production allowed valid now task_id r stream w =
    let w' = record w { tracker = update_access task_id now w.tracker } in
    if check_ws_origin production allowed r
    then (if valid then some (open_conn stream) else none, w')
    else (none, w')
