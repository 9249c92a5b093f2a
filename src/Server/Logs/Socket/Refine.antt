-- ===== src/Server/Logs/Socket/Refine.antt =====
-- The connection as its viewer knows it, and that the goroutines implement that.
use kle_ng_api.Prelude.{
  ◌≡◌, refl, sym, ap, ◌∙◌, subst, Bool, true, false, String, Option, none, some, List, [], ◌∷◌,
  ◌++◌, append_assoc, append-nil, List-cases, inl, inr, if◌then◌else◌,
}
use kle_ng_api.Logstream.Publisher.{Values}
use kle_ng_api.Server.Queue.{Queue}
use kle_ng_api.Server.Logs.{Frame, xread}
use kle_ng_api.Server.Logs.Order.{up_to_end}
use kle_ng_api.Server.Logs.Socket.{
  Pump, pumping, asking, closed, ping, close_normal, Conn, Event, appended, context_ends,
  pump_stops, pump_reads, pump_fails, pump_sends, pump_asks, handler_leaves, handler_pings,
  handler_takes, leave, write_message, close_socket, take_frame, send_frame, read_batch, fail_read,
  stop_pump, ask_state, step,
}
use kle_ng_api.Server.Logs.Socket.Wire.{texts, texts-append, Begins, log_grows}
use kle_ng_api.Server.Logs.Socket.Invariant.{Handed-Begins}
use kle_ng_api.Server.Logs.Socket.Moves.{Inv, texts-text}
use kle_ng_api.Server.Logs.Socket.Reach.{Reach, Reach-Inv}

-- A viewer's session: the frames of the log as far as it is written, those shown, and whether the
-- session is over.
pub record Session : Type 0 where
  pub log : List Frame
  pub shown : List Frame
  pub over : Bool

-- All that may happen to a session: nothing, the log grows, its next frame is shown, the end.
pub data Change (s t : Session) : Type 0 where
  stays : t ≡ s → Change s t
  grows : (log' : List Frame) → Begins s.log log' → t ≡ record s { log = log' } → Change s t
  shows :
      (f : Frame)
      → s.over ≡ false
      → Begins (s.shown ++ f ∷ []) s.log
      → t ≡ record s { shown = s.shown ++ f ∷ [] }
      → Change s t
  ends : s.over ≡ false → t ≡ record s { over = true } → Change s t

unfoldable pub view : Conn → Session
view c = record { log = up_to_end c.stream; shown = texts c.wire; over = c.returned }

-- `o` is a state that the session of `c` can change to, if it is one at all.
abbrev Follows : Conn → Option Conn → Type 0
Follows c none = Unit
Follows c (some d) = Change (view c) (view d)

module _ (c : Conn) where
  guarded :
      (b : Bool) (d : Conn) → Change (view c) (view d) → Follows c (if b then some d else none)
  guarded true d h = h
  guarded false d h = tt

  unless :
      (b : Bool) (o : Option Conn) → (b ≡ false → Follows c o) → Follows c (if b then none else o)
  unless true o h = tt
  unless false o h = h refl

  quiet_send : (p : Pump) → Follows c (send_frame p c)
  unfolding send_frame view
  quiet_send (pumping [] id) = tt
  quiet_send (asking id) = tt
  quiet_send (closed why) = tt
  quiet_send (pumping ((id, v) ∷ es) last_id) = guarded _ _ (stays refl)

  quiet_read : (p : Pump) → Follows c (read_batch p c)
  unfolding read_batch view
  quiet_read (pumping (e ∷ es) id) = tt
  quiet_read (asking id) = tt
  quiet_read (closed why) = tt
  quiet_read (pumping [] id) = elim (List-cases (xread id c.stream)) [
    | inl e ↦ rw (e, read_batch) (stays refl)
    | inr (y, ys, e) ↦ rw (e, read_batch) (stays refl)
  ]

  quiet_fail : (p : Pump) → Follows c (fail_read p c)
  unfolding fail_read view
  quiet_fail (pumping [] id) = stays refl
  quiet_fail (pumping (e ∷ es) id) = tt
  quiet_fail (asking id) = tt
  quiet_fail (closed why) = tt

  quiet_stop : (p : Pump) → Follows c (stop_pump p c)
  unfolding stop_pump view
  quiet_stop (pumping es id) = guarded _ _ (stays refl)
  quiet_stop (asking id) = tt
  quiet_stop (closed why) = tt

  module _ (v : Inv c) where
    -- The frame that is taken next is the next frame of the log.
    takes :
        (written : Bool) (channel : List Frame) (p : Pump)
        → c.channel ≡ channel
        → c.returned ≡ false
        → Follows c (take_frame written channel p c)
    unfolding take_frame write_message close_socket leave view texts
    takes written [] (pumping es id) e r = tt
    takes written [] (asking id) e r = tt
    takes false [] (closed why) e r = ends r refl
    takes true [] (closed why) e r =
        let same : texts (c.wire ++ close_normal ∷ []) ≡ texts c.wire =
          texts-append c.wire (close_normal ∷ []) ∙ append-nil _ in
        ends r (rw same refl)
    takes false (f ∷ rest) p e r = ends r refl
    takes true (f ∷ rest) p e r =
        let (later, all) = Handed-Begins c.pump c.stream _ (v.handed r) in
        let next : (texts c.wire ++ f ∷ []) ++ (rest ++ later) ≡ up_to_end c.stream =
          sym (append_assoc (texts c.wire ++ f ∷ []) rest later)
          ∙ ap (λ t. t ++ later)
              (append_assoc (texts c.wire) (f ∷ []) rest ∙ ap (λ t. texts c.wire ++ t) (sym e))
          ∙ all in
        shows f r (rest ++ later, next) (rw (texts-text c.wire f) refl)

    pings : (written : Bool) → c.returned ≡ false → Follows c (some (write_message written ping c))
    unfolding write_message leave view texts
    pings false r = ends r refl
    pings true r =
        let same : texts (c.wire ++ ping ∷ []) ≡ texts c.wire =
          texts-append c.wire (ping ∷ []) ∙ append-nil _ in
        stays (rw same refl)

module _ {Q : Type 0} (q : Queue Q) (task_id : String) where
  quiet_ask : (c : Conn) (s : Q) (p : Pump) → Follows c (ask_state q task_id s p c)
  unfolding ask_state view
  quiet_ask c s (pumping es id) = tt
  quiet_ask c s (asking id) = stays refl
  quiet_ask c s (closed why) = tt

  follows : (e : Event Q) (c : Conn) → Inv c → Follows c (step q task_id e c)
  unfolding step view leave
  follows (appended more) c v = grows _ (log_grows c.stream more) refl
  follows context_ends c v = stays refl
  follows pump_stops c v = quiet_stop c c.pump
  follows pump_reads c v = quiet_read c c.pump
  follows pump_fails c v = quiet_fail c c.pump
  follows pump_sends c v = quiet_send c c.pump
  follows (pump_asks s) c v = quiet_ask c s c.pump
  follows handler_leaves c v = unless c c.returned _ λ r. guarded c c.cancelled _ (ends r refl)
  follows (handler_pings written) c v = unless c c.returned _ (pings c v written)
  follows (handler_takes written) c v =
      unless c c.returned _ (takes c v written c.channel c.pump refl)

  -- The three goroutines implement a viewer's session, whatever order they run in and whatever
  -- fails: each step from a state that can be reached either changes nothing that the viewer
  -- sees, or lets the log grow, or shows the next frame of the log up to its end marker, or ends
  -- the session; nothing is shown once it is over.
  pub step_refines :
      {stream : List Values} {c d : Conn} (e : Event Q)
      → Reach q task_id stream c
      → step q task_id e c ≡ some d
      → Change (view c) (view d)
  step_refines {c} e r s = subst (Follows c) s (follows e c (Reach-Inv q task_id r))
