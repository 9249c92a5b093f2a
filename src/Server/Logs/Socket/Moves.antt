-- ===== src/Server/Logs/Socket/Moves.antt =====
-- What holds of a connection, and that the moves of the pump and of the world around keep it.
use kle_ng_api.Prelude.{
  ℕ, ◌≤◌, ◌≡◌, refl, sym, ◌∙◌, subst, inl, inr, true, false, String, Option, none, some, List, [],
  ◌∷◌, ◌++◌, append_assoc, length, length-append, Bool-cases, List-cases, ltb, ltb→lt,
  if◌then◌else◌, arith,
}
use kle_ng_api.Logstream.Publisher.{Values}
use kle_ng_api.Server.Queue.{Queue}
use kle_ng_api.Server.Logs.{
  Frame, Ended, at_end, finished, stopped, encode_frame, number, xread, task_stream_finished,
}
use kle_ng_api.Server.Logs.Order.{up_to_end}
use kle_ng_api.Server.Logs.Backfill.{has_end}
use kle_ng_api.Server.Logs.Socket.{
  channel_capacity, Pump, pumping, asking, closed, Message, text, Conn, after_entry, leave,
  send_frame, read_batch, fail_read, stop_pump, ask_state,
}
use kle_ng_api.Server.Logs.Socket.Wire.{
  texts, says_close, texts-append, Begins, Begins-trans, log_grows, up_to_end_ended, has_end-append,
}
use kle_ng_api.Server.Logs.Socket.Invariant.{
  Handed, Handed-Begins, Handed-append, Handed-read, Handed-send,
}

-- What the close message tells: the pump has ended before, and if it has by the end marker, the
-- log has been written up to that.
pub record Farewell (c : Conn) : Type 0 where
  pub left : c.returned ≡ true
  pub why : Ended
  pub ended : c.pump ≡ closed why
  pub whole : why ≡ at_end → (texts c.wire ≡ up_to_end c.stream) × (has_end c.stream ≡ true)

pub record Inv (c : Conn) : Type 0 where
  pub room : length c.channel ≤ channel_capacity
  pub handed : c.returned ≡ false → Handed c.pump c.stream (texts c.wire ++ c.channel)
  pub seen : Begins (texts c.wire) (up_to_end c.stream)
  pub cancels : c.returned ≡ true → c.cancelled ≡ true
  pub farewell : says_close c.wire ≡ true → Farewell c

abbrev IsOpen : Pump → Type 0
IsOpen p = (why : Ended) → p ≡ closed why → ⊥

-- The pump moves and fills the channel.
pump-Inv :
    (c : Conn) (p : Pump) (channel' : List Frame)
    → Inv c
    → IsOpen c.pump
    → length channel' ≤ channel_capacity
    → (c.returned ≡ false → Handed p c.stream (texts c.wire ++ channel'))
    → Inv (record c { pump = p; channel = channel' })
pump-Inv c p channel' v o fits h = record {
  room = fits;
  handed = h;
  seen = v.seen;
  cancels = v.cancels;
  farewell = λ e. let f = v.farewell e in absurd (o f.why f.ended);
}

pumping-IsOpen : (es : List (ℕ × Values)) (id : ℕ) → IsOpen (pumping es id)
pumping-IsOpen es id why e = cc e

asking-IsOpen : (id : ℕ) → IsOpen (asking id)
asking-IsOpen id why e = cc e

abbrev pub Holds : Option Conn → Type 0
Holds none = Unit
Holds (some c) = Inv c

-- The text frames of a message more.
pub texts-text :
    (wire : List Message) (f : Frame) → texts (wire ++ text f ∷ []) ≡ texts wire ++ f ∷ []
unfolding texts
texts-text wire f = texts-append wire (text f ∷ [])

pub append-Inv :
    (c : Conn) (more : List Values) → Inv c → Inv (record c { stream = c.stream ++ more })
append-Inv c more v = record {
  room = v.room;
  handed = λ r. Handed-append c.pump c.stream more _ (v.handed r);
  seen = Begins-trans _ _ _ v.seen (log_grows c.stream more);
  cancels = v.cancels;
  farewell = λ e.
      let f = v.farewell e in
      record {
        left = f.left;
        why = f.why;
        ended = f.ended;
        whole = λ a.
            let (all, last) = f.whole a in
            (
              all ∙ sym (up_to_end_ended c.stream more last),
              has_end-append c.stream more ∙ rw last,
            );
      };
}

pub cancel-Inv : (c : Conn) → Inv c → Inv (record c { cancelled = true })
cancel-Inv c v = record {
  room = v.room;
  handed = v.handed;
  seen = v.seen;
  cancels = λ _. refl;
  farewell = λ e.
      let f = v.farewell e in
      record { left = f.left; why = f.why; ended = f.ended; whole = f.whole };
}

pub leave-Inv : (c : Conn) → Inv c → Inv (leave c)
unfolding leave
leave-Inv c v = record {
  room = v.room;
  handed = λ r. cc r;
  seen = v.seen;
  cancels = λ _. refl;
  farewell = λ e.
      let f = v.farewell e in record { left = refl; why = f.why; ended = f.ended; whole = f.whole };
}

pub send-Inv : (p : Pump) (c : Conn) → c.pump ≡ p → Inv c → Holds (send_frame p c)
unfolding send_frame
send-Inv (pumping [] last_id) c e v = tt
send-Inv (asking last_id) c e v = tt
send-Inv (closed why) c e v = tt
send-Inv (pumping ((id, values) ∷ es) last_id) c e v =
    let frame = (encode_frame values).0 in
    elim (Bool-cases (ltb (length c.channel) channel_capacity)) [
      | inl fits ↦ rw fits (
          pump-Inv c _ (c.channel ++ frame ∷ []) v (rw e (pumping-IsOpen _ last_id))
            (omega (arith, ltb→lt _ _ fits, length-append c.channel (frame ∷ [])))
            λ r.
              subst (λ t. Handed (after_entry (encode_frame values).1 es id) c.stream t)
                (append_assoc (texts c.wire) c.channel (frame ∷ []))
                (Handed-send c.stream _ last_id id values es
                  (subst (λ t. Handed t c.stream (texts c.wire ++ c.channel)) e (v.handed r))))
      | inr full ↦ rw full tt
    ]

-- A pump whose read finds nothing stands where it stood.
pub ask-Handed :
    (stream : List Values) (got : List Frame) (id : ℕ)
    → Handed (pumping [] id) stream got
    → Handed (asking id) stream got
unfolding Handed number
ask-Handed stream got id ([], e, a) = a
ask-Handed stream got id (y ∷ now, e, a) = absurd (nothing e)
  where
    nothing : ¬ ([] ≡ number id (y ∷ now))
    nothing h = cc h

pub read-Inv : (p : Pump) (c : Conn) → c.pump ≡ p → Inv c → Holds (read_batch p c)
unfolding read_batch
read-Inv (pumping (x ∷ es) last_id) c e v = tt
read-Inv (asking last_id) c e v = tt
read-Inv (closed why) c e v = tt
read-Inv (pumping [] last_id) c e v =
    let o : IsOpen c.pump = rw e (pumping-IsOpen [] last_id) in
    let at = λ (r : c.returned ≡ false).
      subst (λ t. Handed t c.stream (texts c.wire ++ c.channel)) e (v.handed r) in
    elim (List-cases (xread last_id c.stream)) [
      | inl found ↦
          rw (found, read_batch)
            (pump-Inv c (asking last_id) c.channel v o v.room λ r. ask-Handed _ _ _ (at r))
      | inr (y, ys, found) ↦
          rw (found, read_batch)
            (pump-Inv c (pumping (y ∷ ys) last_id) c.channel v o v.room
              λ r. Handed-read c.stream _ last_id (y ∷ ys) (at r) found)
    ]

pub fail-Inv : (p : Pump) (c : Conn) → c.pump ≡ p → Inv c → Holds (fail_read p c)
unfolding fail_read Handed
fail-Inv (pumping [] last_id) c e v =
    pump-Inv c (closed stopped) c.channel v (rw e (pumping-IsOpen [] last_id)) v.room
      λ r. Handed-Begins c.pump c.stream _ (v.handed r)
fail-Inv (pumping (x ∷ es) last_id) c e v = tt
fail-Inv (asking last_id) c e v = tt
fail-Inv (closed why) c e v = tt

pub stop-Inv : (p : Pump) (c : Conn) → c.pump ≡ p → Inv c → Holds (stop_pump p c)
unfolding stop_pump Handed
stop-Inv (pumping es last_id) c e v =
    let moved =
      pump-Inv c (closed stopped) c.channel v (rw e (pumping-IsOpen es last_id)) v.room
        λ r. Handed-Begins c.pump c.stream _ (v.handed r) in
    elim (c.cancelled)
      as (λ b. Holds (if b then some (record c { pump = closed stopped }) else none)) [
        | true ↦ moved
        | false ↦ tt
      ]
stop-Inv (asking last_id) c e v = tt
stop-Inv (closed why) c e v = tt

module _ {Q : Type 0} (q : Queue Q) (task_id : String) where
  pub ask-Inv :
      (s : Q) (p : Pump) (c : Conn) → c.pump ≡ p → Inv c → Holds (ask_state q task_id s p c)
  unfolding ask_state Handed number
  ask-Inv s (pumping es last_id) c e v = tt
  ask-Inv s (closed why) c e v = tt
  ask-Inv s (asking last_id) c e v =
      let o : IsOpen c.pump = rw e (asking-IsOpen last_id) in
      elim (Bool-cases (task_stream_finished q task_id s)) [
        | inl over ↦ rw over (
            pump-Inv c (closed finished) c.channel v o v.room
              λ r. Handed-Begins c.pump c.stream _ (v.handed r))
        | inr going ↦ rw going (
            pump-Inv c (pumping [] last_id) c.channel v o v.room λ r.
              ([], refl, subst (λ t. Handed t c.stream (texts c.wire ++ c.channel)) e (v.handed r)))
      ]
