-- ===== src/Server/Logs/Socket/Ending.antt =====
-- How a connection ends.
use kle_ng_api.Prelude.{
  ◌≤◌, ◌≡◌, refl, ◌∙◌, ◌⊎◌, inl, inr, Bool, true, false, String, some, List, [], ◌∷◌, ◌++◌, length,
  Bool-cases, if◌then◌else◌, arith,
}
use kle_ng_api.Logstream.Publisher.{Values}
use kle_ng_api.Server.Queue.{Queue}
use kle_ng_api.Server.Logs.{Ended, finished, stopped, task_stream_finished}
use kle_ng_api.Server.Logs.Socket.{
  channel_capacity, Pump, pumping, asking, closed, Conn, Event, pump_stops, pump_asks,
  handler_leaves, leave,
}
use kle_ng_api.Server.Logs.Socket.Wire.{says_close}
use kle_ng_api.Server.Logs.Socket.Moves.{Farewell}
use kle_ng_api.Server.Logs.Socket.Reach.{Reach, Reach-Inv, run, run-cons}
use kle_ng_api.Server.Logs.Socket.Steps.{step_stops, step_asks, step_leaves}

-- Both goroutines have ended.
pub record IsOver (c : Conn) : Type 0 where
  pub left : c.returned ≡ true
  pub why : Ended
  pub ended : c.pump ≡ closed why

module _ {Q : Type 0} (q : Queue Q) (task_id : String) where
  -- what is left for the pump to do once the context is done; `s` is the queue when it asks
  pump_ends : Q → Pump → List (Event Q)
  pump_ends s (pumping es id) = pump_stops ∷ []
  pump_ends s (asking id) =
      pump_asks s ∷ (if task_stream_finished q task_id s then [] else pump_stops ∷ [])
  pump_ends s (closed why) = []

  pub wind_down : Q → Conn → List (Event Q)
  unfolding pump_ends
  wind_down s c = (if c.returned then [] else handler_leaves ∷ []) ++ pump_ends s c.pump

  pump_ends_lem :
      (s : Q) (p : Pump) (c : Conn)
      → c.pump ≡ p
      → c.cancelled ≡ true
      → c.returned ≡ true
      → (d : Conn) × (run q task_id (pump_ends s p) c ≡ some d) × IsOver d
  unfolding pump_ends run
  pump_ends_lem s (closed why) c e over r = (c, refl, record { left = r; why = why; ended = e })
  pump_ends_lem s (pumping es id) c e over r = (
    record c { pump = closed stopped },
    run-cons q task_id pump_stops [] c _ (step_stops q task_id es id c e over),
    record { left = r; why = stopped; ended = refl },
  )
  pump_ends_lem s (asking id) c e over r = elim (Bool-cases (task_stream_finished q task_id s)) [
    | inl f ↦ (
      record c { pump = closed finished },
      rw f (
          run-cons q task_id (pump_asks s) [] c _
            (step_asks q task_id s id c (closed finished) e (rw f refl))),
      record { left = r; why = finished; ended = refl },
    )
    | inr g ↦
        let c' = record c { pump = pumping [] id } in
        (
          record c { pump = closed stopped },
          rw g (
              run-cons q task_id (pump_asks s) (pump_stops ∷ []) c c'
                (step_asks q task_id s id c (pumping [] id) e (rw g refl))
              ∙ run-cons q task_id pump_stops [] c' _ (step_stops q task_id [] id c' refl over)),
          record { left = r; why = stopped; ended = refl },
        )
  ]

  pump_ends_few : (s : Q) (p : Pump) → length (pump_ends s p) ≤ 2
  unfolding pump_ends
  pump_ends_few s (pumping es id) = omega arith
  pump_ends_few s (asking id) = ground arith
  pump_ends_few s (closed why) = omega arith

  winds_from :
      (returned : Bool) (c : Conn) (s : Q)
      → c.returned ≡ returned
      → c.cancelled ≡ true
      → let es = (if returned then [] else handler_leaves ∷ []) ++ pump_ends s c.pump in
        (length es ≤ 3) × ((d : Conn) × (run q task_id es c ≡ some d) × IsOver d)
  unfolding leave
  winds_from true c s left over =
      (omega (arith, pump_ends_few s c.pump), pump_ends_lem s c.pump c refl over left)
  winds_from false c s stays over =
      let (d, runs, is_over) = pump_ends_lem s c.pump (leave c) refl refl refl in
      (
        omega (arith, pump_ends_few s c.pump),
        (
          d,
          run-cons q task_id handler_leaves (pump_ends s c.pump) c (leave c)
                (step_leaves q task_id c stays over)
              ∙ runs,
          is_over,
        ),
      )

  -- Nothing is left running: once the client is gone, the time is over or the handler has returned
  -- for whatever reason, at most three steps of the handler and the pump end both, whether or not
  -- the channel is full and whatever redis and the client do.
  pub winds_down :
      {stream : List Values} (c : Conn) (s : Q)
      → Reach q task_id stream c
      → (c.cancelled ≡ true) ⊎ (c.returned ≡ true)
      → (length (wind_down s c) ≤ 3)
        × ((d : Conn) × (run q task_id (wind_down s c) c ≡ some d) × IsOver d)
  unfolding wind_down
  winds_down c s r h =
      winds_from c.returned c s refl
        (elim h [ inl over ↦ over | inr left ↦ (Reach-Inv q task_id r).cancels left ])

  -- What the close message tells the browser: the handler has returned, the pump had closed its
  -- channel and, if it had because of the end marker, every frame of the log up to that has been
  -- written. At no time do more than 64 frames wait in the channel.
  pub farewell_lem :
      {stream : List Values} (c : Conn)
      → Reach q task_id stream c
      → (length c.channel ≤ channel_capacity) × (says_close c.wire ≡ true → Farewell c)
  farewell_lem c r = let v = Reach-Inv q task_id r in (v.room, v.farewell)
