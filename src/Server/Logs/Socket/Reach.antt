-- ===== src/Server/Logs/Socket/Reach.antt =====
-- The states of a connection that the events lead to, and that each is as `Inv` says.
use kle_ng_api.Prelude.{
  ◌≡◌, refl, sym, ap, ◌∙◌, subst, inl, inr, Bool, true, false, String, Option, none, some, List, [],
  ◌∷◌, ◌++◌, append_assoc, append-nil, length, Bool-cases, Option-cases, if◌then◌else◌, arith,
}
use kle_ng_api.Logstream.Publisher.{Values}
use kle_ng_api.Server.Queue.{Queue}
use kle_ng_api.Server.Logs.{Frame, Ended, number}
use kle_ng_api.Server.Logs.Order.{up_to_end}
use kle_ng_api.Server.Logs.Backfill.{has_end}
use kle_ng_api.Server.Logs.Socket.{
  Pump, pumping, asking, closed, ping, text, close_normal, Conn, Event, appended, context_ends,
  pump_stops, pump_reads, pump_fails, pump_sends, pump_asks, handler_leaves, handler_pings,
  handler_takes, leave, write_message, close_socket, take_frame, step, open_conn,
}
use kle_ng_api.Server.Logs.Socket.Wire.{texts, says_close, texts-append, says_close-append}
use kle_ng_api.Server.Logs.Socket.Invariant.{Handed, Handed-Begins}
use kle_ng_api.Server.Logs.Socket.Moves.{
  Inv, Holds, texts-text, append-Inv, cancel-Inv, leave-Inv, send-Inv, read-Inv, fail-Inv, stop-Inv,
  ask-Inv,
}

-- A handler that still runs has not said goodbye.
serving : (c : Conn) → Inv c → c.returned ≡ false → says_close c.wire ≡ false
serving c v r = elim (Bool-cases (says_close c.wire)) [
  | inl e ↦ absurd (cc (r, (v.farewell e).left))
  | inr e ↦ e
]

ping-Inv :
    (c : Conn) (written : Bool) → Inv c → c.returned ≡ false → Inv (write_message written ping c)
unfolding write_message texts says_close
ping-Inv c false v r = leave-Inv c v
ping-Inv c true v r =
    let same : texts (c.wire ++ ping ∷ []) ≡ texts c.wire =
      texts-append c.wire (ping ∷ []) ∙ append-nil _ in
    let silent : says_close (c.wire ++ ping ∷ []) ≡ false =
      says_close-append c.wire (ping ∷ []) ∙ rw (serving c v r) refl in
    record {
      room = v.room;
      handed = λ r. rw same (v.handed r);
      seen = rw same v.seen;
      cancels = v.cancels;
      farewell = λ e. absurd (cc (e, silent));
    }

-- A frame is taken, and the write of it succeeds.
text-Inv :
    (c : Conn) (f : Frame) (rest : List Frame)
    → c.channel ≡ f ∷ rest
    → Inv c
    → c.returned ≡ false
    → Inv (record c { channel = rest; wire = c.wire ++ text f ∷ [] })
unfolding says_close
text-Inv c f rest ec v r =
    let shape : texts (c.wire ++ text f ∷ []) ++ rest ≡ texts c.wire ++ c.channel =
      ap (λ t. t ++ rest) (texts-text c.wire f)
      ∙ append_assoc (texts c.wire) (f ∷ []) rest
      ∙ ap (λ t. texts c.wire ++ t) (sym ec) in
    let silent : says_close (c.wire ++ text f ∷ []) ≡ false =
      says_close-append c.wire (text f ∷ []) ∙ rw (serving c v r) refl in
    let (later, all) = Handed-Begins c.pump c.stream _ (v.handed r) in
    record {
      room = omega (arith, v.room, ap length ec);
      handed = λ r. subst (λ t. Handed c.pump c.stream t) (sym shape) (v.handed r);
      seen = (rest ++ later, sym (append_assoc _ rest later) ∙ ap (λ t. t ++ later) shape ∙ all);
      cancels = v.cancels;
      farewell = λ e. absurd (cc (e, silent));
    }

-- The channel is closed and everything in it is written: the handler says goodbye.
close-Inv :
    (c : Conn) (why : Ended)
    → c.channel ≡ []
    → c.pump ≡ closed why
    → Inv c
    → c.returned ≡ false
    → Inv (leave (record c { wire = c.wire ++ close_normal ∷ [] }))
unfolding leave texts Handed
close-Inv c why ec ep v r =
    let same : texts (c.wire ++ close_normal ∷ []) ≡ texts c.wire =
      texts-append c.wire (close_normal ∷ []) ∙ append-nil _ in
    let all : texts c.wire ++ c.channel ≡ texts c.wire =
      ap (λ t. texts c.wire ++ t) ec ∙ append-nil _ in
    let got : Handed (closed why) c.stream (texts c.wire) =
      subst (λ t. Handed t c.stream (texts c.wire)) ep
        (subst (λ t. Handed c.pump c.stream t) all (v.handed r)) in
    record {
      room = v.room;
      handed = λ r. cc r;
      seen = rw same v.seen;
      cancels = λ _. refl;
      farewell = λ _. record {
        left = refl;
        why = why;
        ended = ep;
        whole = λ a.
            let (whole_log, last) = subst (λ t. Handed (closed t) c.stream (texts c.wire)) a got in
            (same ∙ whole_log, last);
      };
    }

-- A frame is taken, and lost since the write of it fails.
lost-Inv :
    (c : Conn) (f : Frame) (rest : List Frame)
    → c.channel ≡ f ∷ rest
    → Inv c
    → c.returned ≡ false
    → Inv (leave (record c { channel = rest }))
unfolding leave
lost-Inv c f rest ec v r = record {
  room = omega (arith, v.room, ap length ec);
  handed = λ r. cc r;
  seen = v.seen;
  cancels = λ _. refl;
  farewell = λ e. absurd (cc (e, serving c v r));
}

-- The handler takes a frame or, from a channel that is closed and empty, the end.
take-Inv :
    (written : Bool) (channel : List Frame) (p : Pump) (c : Conn)
    → c.channel ≡ channel
    → c.pump ≡ p
    → Inv c
    → c.returned ≡ false
    → Holds (take_frame written channel p c)
unfolding take_frame write_message close_socket
take-Inv written [] (pumping es id) c ec ep v r = tt
take-Inv written [] (asking id) c ec ep v r = tt
take-Inv false [] (closed why) c ec ep v r = leave-Inv _ (leave-Inv c v)
take-Inv true [] (closed why) c ec ep v r = close-Inv c why ec ep v r
take-Inv false (f ∷ rest) p c ec ep v r = lost-Inv c f rest ec v r
take-Inv true (f ∷ rest) p c ec ep v r = text-Inv c f rest ec v r

-- what the handler does while it runs
if_serving :
    (returned : Bool) (o : Option Conn)
    → (returned ≡ false → Holds o)
    → Holds (if returned then none else o)
if_serving true o h = tt
if_serving false o h = h refl

module _ {Q : Type 0} (q : Queue Q) (task_id : String) where
  -- Whatever happens, the connection stays as `Inv` says.
  pub step-Inv : (e : Event Q) (c : Conn) → Inv c → Holds (step q task_id e c)
  unfolding step
  step-Inv (appended more) c v = append-Inv c more v
  step-Inv context_ends c v = cancel-Inv c v
  step-Inv pump_stops c v = stop-Inv c.pump c refl v
  step-Inv pump_reads c v = read-Inv c.pump c refl v
  step-Inv pump_fails c v = fail-Inv c.pump c refl v
  step-Inv pump_sends c v = send-Inv c.pump c refl v
  step-Inv (pump_asks s) c v = ask-Inv q task_id s c.pump c refl v
  step-Inv handler_leaves c v = if_serving c.returned _ λ _.
      elim (c.cancelled) as (λ b. Holds (if b then some (leave c) else none)) [
        | true ↦ leave-Inv c v
        | false ↦ tt
      ]
  step-Inv (handler_pings written) c v = if_serving c.returned _ (ping-Inv c written v)
  step-Inv (handler_takes written) c v =
      if_serving c.returned _ (take-Inv written c.channel c.pump c refl refl v)

  -- the states that the events lead to from a log as it is when the client comes
  pub data Reach (stream : List Values) : Conn → Type 0 where
    opens : Reach stream (open_conn stream)
    later :
        {c d : Conn} (e : Event Q) → Reach stream c → step q task_id e c ≡ some d → Reach stream d

  open-Inv : (stream : List Values) → Inv (open_conn stream)
  unfolding open_conn Handed texts says_close up_to_end number has_end
  open-Inv stream = record {
    room = omega arith;
    handed = λ _. (
      [],
      refl,
      record {
        past = [];
        later = stream;
        splits = refl;
        counts = refl;
        goes_on = refl;
        hands = refl;
      },
    );
    seen = (up_to_end stream, refl);
    cancels = λ e. cc e;
    farewell = λ e. cc e;
  }

  pub Reach-Inv : {stream : List Values} {c : Conn} → Reach stream c → Inv c
  Reach-Inv {stream} opens = open-Inv stream
  Reach-Inv (later {c} e r s) = subst Holds s (step-Inv e c (Reach-Inv r))

  -- A schedule, while each of its events can be.
  unfoldable pub run : List (Event Q) → Conn → Option Conn
  run [] c = some c
  run (e ∷ es) c = elim (step q task_id e c) [ none ↦ none | some d ↦ run es d ]

  pub run-cons :
      (e : Event Q) (es : List (Event Q)) (c d : Conn)
      → step q task_id e c ≡ some d
      → run (e ∷ es) c ≡ run es d
  unfolding run
  run-cons e es c d h = rw (h, run) refl

  pub run-Reach :
      {stream : List Values} (es : List (Event Q)) (c d : Conn)
      → Reach stream c
      → run es c ≡ some d
      → Reach stream d
  unfolding run
  run-Reach [] c d r h = let e : c ≡ d = cc h in subst (Reach _) e r
  run-Reach (e ∷ es) c d r h = elim (Option-cases (step q task_id e c)) [
    | inl stuck ↦
        let none_left : run (e ∷ es) c ≡ none = rw (stuck, run) refl in absurd (cc (h, none_left))
    | inr (c', s) ↦ run-Reach es c' d (later e r s) (sym (run-cons e es c c' s) ∙ h)
  ]
