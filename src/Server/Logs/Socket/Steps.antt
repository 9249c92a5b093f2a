-- ===== src/Server/Logs/Socket/Steps.antt =====
-- Single steps, at the states where they can be.
use kle_ng_api.Prelude.{
  ℕ, ◌<◌, ◌≡◌, refl, ap, ◌∙◌, Bool, true, false, String, Option, none, some, List, [], ◌∷◌, ◌++◌,
  length, lt→ltb, if◌then◌else◌,
}
use kle_ng_api.Logstream.Publisher.{Values}
use kle_ng_api.Server.Queue.{Queue}
use kle_ng_api.Server.Logs.{
  Frame, Ended, finished, stopped, encode_frame, xread, task_stream_finished,
}
use kle_ng_api.Server.Logs.Socket.{
  channel_capacity, Pump, pumping, asking, closed, text, close_normal, Conn, pump_stops, pump_reads,
  pump_sends, pump_asks, appended, handler_leaves, handler_takes, after_entry, leave, write_message,
  close_socket, take_frame, send_frame, read_batch, stop_pump, ask_state, step,
}

if_true : (b : Bool) (c : Conn) → b ≡ true → (if b then some c else none) ≡ some c
if_true true c h = refl
if_true false c h = cc h

if_false : (b : Bool) (o : Option Conn) → b ≡ false → (if b then none else o) ≡ o
if_false true o h = cc h
if_false false o h = refl

module _ {Q : Type 0} (q : Queue Q) (task_id : String) where
  pub step_stops :
      (es : List (ℕ × Values)) (id : ℕ) (c : Conn)
      → c.pump ≡ pumping es id
      → c.cancelled ≡ true
      → step q task_id pump_stops c ≡ some (record c { pump = closed stopped })
  unfolding step stop_pump
  step_stops es id c e over = ap (λ p. stop_pump p c) e ∙ if_true c.cancelled _ over

  pub step_asks :
      (s : Q) (id : ℕ) (c : Conn) (p : Pump)
      → c.pump ≡ asking id
      → (if task_stream_finished q task_id s then closed finished else pumping [] id) ≡ p
      → step q task_id (pump_asks s) c ≡ some (record c { pump = p })
  unfolding step ask_state
  step_asks s id c p e h =
      ap (λ t. ask_state q task_id s t c) e ∙ ap (λ t. some (record c { pump = t })) h

  pub step_leaves :
      (c : Conn)
      → c.returned ≡ false
      → c.cancelled ≡ true
      → step q task_id handler_leaves c ≡ some (leave c)
  unfolding step
  step_leaves c r over = rw (r, over) refl

  pub step_reads_none :
      (id : ℕ) (c : Conn)
      → c.pump ≡ pumping [] id
      → xread id c.stream ≡ []
      → step q task_id pump_reads c ≡ some (record c { pump = asking id })
  unfolding step
  step_reads_none id c e found = ap (λ p. read_batch p c) e ∙ rw (found, read_batch) refl

  pub step_reads :
      (id : ℕ) (c : Conn) (y : ℕ × Values) (ys : List (ℕ × Values))
      → c.pump ≡ pumping [] id
      → xread id c.stream ≡ y ∷ ys
      → step q task_id pump_reads c ≡ some (record c { pump = pumping (y ∷ ys) id })
  unfolding step
  step_reads id c y ys e found = ap (λ p. read_batch p c) e ∙ rw (found, read_batch) refl

  pub step_sends :
      (last_id id : ℕ) (v : Values) (es : List (ℕ × Values)) (c : Conn)
      → c.pump ≡ pumping ((id, v) ∷ es) last_id
      → length c.channel < channel_capacity
      → step q task_id pump_sends c
        ≡ some (record c {
          channel = c.channel ++ (encode_frame v).0 ∷ [];
          pump = after_entry (encode_frame v).1 es id;
        })
  unfolding step send_frame
  step_sends last_id id v es c e room = ap (λ p. send_frame p c) e ∙ if_true _ _ (lt→ltb _ _ room)

  pub step_takes :
      (f : Frame) (rest : List Frame) (c : Conn)
      → c.channel ≡ f ∷ rest
      → c.returned ≡ false
      → step q task_id (handler_takes true) c
        ≡ some (record c { channel = rest; wire = c.wire ++ text f ∷ [] })
  unfolding step take_frame write_message
  step_takes f rest c e r = if_false c.returned _ r ∙ ap (λ l. take_frame true l c.pump c) e

  pub step_closes :
      (why : Ended) (c : Conn)
      → c.channel ≡ []
      → c.pump ≡ closed why
      → c.returned ≡ false
      → step q task_id (handler_takes true) c
        ≡ some (leave (record c { wire = c.wire ++ close_normal ∷ [] }))
  unfolding step take_frame close_socket write_message
  step_closes why c e p r =
      if_false c.returned _ r
      ∙ ap (λ l. take_frame true l c.pump c) e
      ∙ ap (λ t. take_frame true [] t c) p

  pub step_appends :
      (c : Conn) (more : List Values)
      → step q task_id (appended more) c ≡ some (record c { stream = c.stream ++ more })
  unfolding step
  step_appends c more = refl
