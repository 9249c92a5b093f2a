-- ===== src/Server/Logs/Socket/Race.antt =====
-- The end of a log can be lost between a read that finds nothing and the answer on the task.
use kle_ng_api.Prelude.{
  ℕ, ◌≡◌, refl, ◌∙◌, true, false, String, some, List, [], ◌∷◌, ◌++◌, append-nil,
}
use kle_ng_api.Logstream.Publisher.{Values}
use kle_ng_api.Server.Queue.{Queue}
use kle_ng_api.Server.Logs.{finished, xread, task_stream_finished}
use kle_ng_api.Server.Logs.Socket.{
  pumping, asking, closed, close_normal, Conn, appended, pump_reads, pump_asks, handler_takes,
  leave,
}
use kle_ng_api.Server.Logs.Socket.Wire.{texts, says_close, texts-append, says_close-append, or_true}
use kle_ng_api.Server.Logs.Socket.Reach.{run, run-cons}
use kle_ng_api.Server.Logs.Socket.Steps.{step_appends, step_asks, step_reads_none, step_closes}

module _ {Q : Type 0} (q : Queue Q) (task_id : String) where
  -- A viewer that has seen everything so far can lose the rest: the pump's read finds nothing, the
  -- worker then appends `tail`, its end marker among it if it likes, the task is finished when the
  -- pump asks only after that, and the handler takes what the pump left. From every such state these
  -- four steps, in which nothing fails, can be made; then the pump has ended because the task is
  -- finished, and the browser is told that the log is over and is shown nothing of `tail`.
  pub tail_may_be_lost :
      (c : Conn) (last_id : ℕ) (tail : List Values) (s : Q)
      → c.pump ≡ pumping [] last_id
      → xread last_id c.stream ≡ []
      → c.channel ≡ []
      → c.returned ≡ false
      → task_stream_finished q task_id s ≡ true
      → (d : Conn) × (run q task_id
            (pump_reads ∷ appended tail ∷ pump_asks s ∷ handler_takes true ∷ [])
            c
          ≡ some d)
        × (d.pump ≡ closed finished)
        × (d.stream ≡ c.stream ++ tail)
        × (says_close d.wire ≡ true)
        × (texts d.wire ≡ texts c.wire)
  unfolding leave texts says_close run
  tail_may_be_lost c last_id tail s at nothing empty serving over =
      let c1 = record c { pump = asking last_id } in
      let c2 = record c1 { stream = c.stream ++ tail } in
      let c3 = record c2 { pump = closed finished } in
      let c4 = leave (record c3 { wire = c.wire ++ close_normal ∷ [] }) in
      let stops = handler_takes true ∷ [] in
      let asks = pump_asks s ∷ stops in
      (
        c4,
        run-cons q task_id pump_reads (appended tail ∷ asks) c c1
              (step_reads_none q task_id last_id c at nothing)
            ∙ run-cons q task_id (appended tail) asks c1 c2 (step_appends q task_id c1 tail)
            ∙ run-cons q task_id (pump_asks s) stops c2 c3
                (step_asks q task_id s last_id c2 (closed finished) refl (rw over refl))
            ∙ run-cons q task_id (handler_takes true) [] c3 c4
                (step_closes q task_id finished c3 empty refl serving),
        refl,
        refl,
        says_close-append c.wire (close_normal ∷ []) ∙ or_true (says_close c.wire),
        texts-append c.wire (close_normal ∷ []) ∙ append-nil _,
      )
