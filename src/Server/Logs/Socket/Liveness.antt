-- ===== src/Server/Logs/Socket/Liveness.antt =====
-- A viewer who stays is never stuck.
use kle_ng_api.Prelude.{◌<◌, ◌≡◌, true, false, String, some, List, All, []}
use kle_ng_api.Logstream.Publisher.{Values}
use kle_ng_api.Server.Queue.{Queue}
use kle_ng_api.Server.Logs.{at_end, task_stream_finished}
use kle_ng_api.Server.Logs.Order.{up_to_end}
use kle_ng_api.Server.Logs.Socket.{
  closed, Conn, Event, pump_reads, pump_sends, pump_asks, handler_takes, step,
}
use kle_ng_api.Server.Logs.Socket.Wire.{texts, says_close}
use kle_ng_api.Server.Logs.Socket.Reach.{Reach, run}
use kle_ng_api.Server.Logs.Socket.Measure.{measure, IsLive}

-- the whole log and the farewell
pub record SawAll (log : List Values) (c : Conn) : Type 0 where
  pub same : c.stream ≡ log
  pub closed_well : says_close c.wire ≡ true
  pub all : texts c.wire ≡ up_to_end log

module _ {Q : Type 0} (q : Queue Q) (task_id : String) (s : Q)
    (goes_on : task_stream_finished q task_id s ≡ false) where
  -- a step of the pump, or of the handler with a write that succeeds
  abbrev pub IsOwn : Event Q → Type 0
  IsOwn pump_reads = Unit
  IsOwn pump_sends = Unit
  IsOwn (pump_asks s') = s' ≡ s
  IsOwn (handler_takes written) = written ≡ true
  IsOwn _ = ⊥

  -- One step nearer to the end.
  Nearer : Conn → Type 0
  Nearer c =
      (e : Event Q) × IsOwn e
      × (d : Conn) × (step q task_id e c ≡ some d)
      × IsLive d
      × (d.stream ≡ c.stream)
      × (measure d < measure c)

  IsDone : Conn → Type 0
  IsDone c = (c.channel ≡ []) × (c.pump ≡ closed at_end)

  -- own steps lead from a state to one in which everything was seen
  abbrev pub Finishes : Conn → Type 0
  Finishes c =
      (es : List (Event Q)) × All IsOwn es
      × (d : Conn) × (run q task_id es c ≡ some d)
      × SawAll c.stream d
