-- ===== src/Server/Logs/Socket/Invariant.antt =====
-- What holds of a connection in every state that the events lead to.
use kle_ng_api.Prelude.{
  ℕ, suc, ◌≡◌, refl, sym, ap, ◌∙◌, subst, inl, inr, Bool, true, false, List, [], ◌∷◌, ◌++◌,
  append_assoc, append-nil, length, length-append, take, drop, take-append-drop, Bool-cases, arith,
}
use kle_ng_api.Logstream.Publisher.{Values}
use kle_ng_api.Server.Logs.{
  Frame, running, at_end, finished, stopped, encode_frame, number, xread, ws_read_count,
}
use kle_ng_api.Server.Logs.Order.{up_to_end}
use kle_ng_api.Server.Logs.Backfill.{has_end}
use kle_ng_api.Server.Logs.Socket.{Pump, pumping, asking, closed, after_entry}
use kle_ng_api.Server.Logs.Socket.Wire.{
  Begins, up_to_end-append, has_end-append, up_to_end_ended, log_grows, Begins-trans,
}

-- The pump stands behind the `id` entries that it has handed over, and `now` is next.
pub record IsAt (stream : List Values) (got : List Frame) (id : ℕ) (now : List Values)
    : Type 0 where
  pub past : List Values
  pub later : List Values
  pub splits : stream ≡ past ++ (now ++ later)
  pub counts : id ≡ length past
  pub goes_on : has_end past ≡ false
  pub hands : got ≡ up_to_end past

-- what the pump has handed over when it stands at `p`
unfoldable pub Handed : Pump → List Values → List Frame → Type 0
Handed (pumping es id) stream got =
    (now : List Values) × (es ≡ number id now) × IsAt stream got id now
Handed (asking id) stream got = IsAt stream got id []
Handed (closed at_end) stream got = (got ≡ up_to_end stream) × (has_end stream ≡ true)
Handed (closed _) stream got = Begins got (up_to_end stream)

IsAt-Begins :
    (stream : List Values) (got : List Frame) (id : ℕ) (now : List Values)
    → IsAt stream got id now
    → Begins got (up_to_end stream)
IsAt-Begins stream got id now a =
    (up_to_end (now ++ a.later), rw (a.hands, a.splits) (sym (up_to_end-append a.past _ a.goes_on)))

pub Handed-Begins :
    (p : Pump) (stream : List Values) (got : List Frame)
    → Handed p stream got
    → Begins got (up_to_end stream)
unfolding Handed
Handed-Begins (pumping es id) stream got (now, e, a) = IsAt-Begins stream got id now a
Handed-Begins (asking id) stream got a = IsAt-Begins stream got id [] a
Handed-Begins (closed at_end) stream got (e, h) = ([], append-nil got ∙ e)
Handed-Begins (closed running) stream got h = h
Handed-Begins (closed finished) stream got h = h
Handed-Begins (closed stopped) stream got h = h

IsAt-append :
    (stream more : List Values) (got : List Frame) (id : ℕ) (now : List Values)
    → IsAt stream got id now
    → IsAt (stream ++ more) got id now
IsAt-append stream more got id now a = record {
  past = a.past;
  later = a.later ++ more;
  splits =
      ap (λ t. t ++ more) a.splits
      ∙ append_assoc a.past (now ++ a.later) more
      ∙ ap (λ t. a.past ++ t) (append_assoc now a.later more);
  counts = a.counts;
  goes_on = a.goes_on;
  hands = a.hands;
}

pub Handed-append :
    (p : Pump) (stream more : List Values) (got : List Frame)
    → Handed p stream got
    → Handed p (stream ++ more) got
unfolding Handed
Handed-append (pumping es id) stream more got (now, e, a) =
    (now, e, IsAt-append stream more got id now a)
Handed-append (asking id) stream more got a = IsAt-append stream more got id [] a
Handed-append (closed at_end) stream more got (e, h) =
    (e ∙ sym (up_to_end_ended stream more h), has_end-append stream more ∙ rw h)
Handed-append (closed running) stream more got h = Begins-trans got _ _ h (log_grows stream more)
Handed-append (closed finished) stream more got h = Begins-trans got _ _ h (log_grows stream more)
Handed-append (closed stopped) stream more got h = Begins-trans got _ _ h (log_grows stream more)

one_entry : (v : Values) → up_to_end (v ∷ []) ≡ (encode_frame v).0 ∷ []
unfolding up_to_end
one_entry v = ground arith

last_entry : (v : Values) (b : Bool) → (encode_frame v).1 ≡ b → has_end (v ∷ []) ≡ b
unfolding has_end
last_entry v true e = rw e
last_entry v false e = rw e

-- One entry is handed over.
pub Handed-entry :
    (stream : List Values) (got : List Frame) (id : ℕ) (v : Values) (now : List Values)
    → IsAt stream got id (v ∷ now)
    → Handed
        (after_entry (encode_frame v).1 (number (suc id) now) (suc id))
        stream
        (got ++ (encode_frame v).0 ∷ [])
unfolding Handed after_entry
Handed-entry stream got id v now a =
    let handed : got ++ (encode_frame v).0 ∷ [] ≡ up_to_end (a.past ++ v ∷ []) = rw a.hands (
      sym (
        up_to_end-append a.past (v ∷ []) a.goes_on
        ∙ ap (λ t. up_to_end a.past ++ t) (one_entry v))) in
    let splits : stream ≡ (a.past ++ v ∷ []) ++ (now ++ a.later) =
      a.splits ∙ sym (append_assoc a.past (v ∷ []) (now ++ a.later)) in
    elim (Bool-cases (encode_frame v).1) [
      | inl e ↦
          let ended : has_end (a.past ++ v ∷ []) ≡ true =
            has_end-append a.past (v ∷ []) ∙ rw a.goes_on (last_entry v true e) in
          rw e (
            handed ∙ sym (up_to_end_ended _ (now ++ a.later) ended) ∙ ap up_to_end (sym splits),
            ap has_end splits ∙ has_end-append _ (now ++ a.later) ∙ rw ended refl,
          )
      | inr e ↦ rw e (
        now,
        refl,
        record {
          past = a.past ++ v ∷ [];
          later = a.later;
          splits = splits;
          counts = omega (arith, a.counts, length-append a.past (v ∷ []));
          goes_on = has_end-append a.past (v ∷ []) ∙ rw a.goes_on (last_entry v false e);
          hands = handed;
        },
      )
    ]

pub drop_past : (past xs : List Values) → drop (length past) (past ++ xs) ≡ xs
drop_past [] xs = refl
drop_past (v ∷ past) xs = drop_past past xs

-- An XREAD that finds entries, or none.
pub Handed-read :
    (stream : List Values) (got : List Frame) (id : ℕ) (es : List (ℕ × Values))
    → Handed (pumping [] id) stream got
    → xread id stream ≡ es
    → Handed (pumping es id) stream got
unfolding Handed xread number
Handed-read stream got id es (y ∷ now, none_left, a) e = absurd (nothing none_left)
  where
    nothing : ¬ ([] ≡ number id (y ∷ now))
    nothing h = cc h
Handed-read stream got id es ([], none_left, a) e =
    let found : drop id stream ≡ a.later =
      ap (λ t. drop id t) a.splits
      ∙ ap (λ n. drop n (a.past ++ a.later)) a.counts
      ∙ drop_past a.past a.later in
    let now = take ws_read_count (drop id stream) in
    (
      now,
      sym e,
      record {
        past = a.past;
        later = drop ws_read_count (drop id stream);
        splits =
            a.splits
            ∙ ap (λ t. a.past ++ t)
                (sym found ∙ sym (take-append-drop ws_read_count (drop id stream)));
        counts = a.counts;
        goes_on = a.goes_on;
        hands = a.hands;
      },
    )

-- The entry that is next is handed over.
pub Handed-send :
    (stream : List Values) (got : List Frame) (last_id id : ℕ) (v : Values) (es : List (ℕ × Values))
    → Handed (pumping ((id, v) ∷ es) last_id) stream got
    → Handed (after_entry (encode_frame v).1 es id) stream (got ++ (encode_frame v).0 ∷ [])
unfolding Handed number
Handed-send stream got last_id id v es ([], next, a) = absurd (nothing next)
  where
    nothing : ¬ ((id, v) ∷ es ≡ number last_id [])
    nothing h = cc h
Handed-send stream got last_id id v es (v' ∷ now, next, a) =
    let e_id : id ≡ suc last_id = cc next in
    let e_v : v' ≡ v = cc next in
    let e_es : es ≡ number (suc last_id) now = cc next in
    let a' : IsAt stream got last_id (v ∷ now) =
      subst (λ x. IsAt stream got last_id (x ∷ now)) e_v a in
    rw (e_id, e_es) (Handed-entry stream got last_id v now a')
