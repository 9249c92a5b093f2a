-- ===== src/Server/Logs/Socket/Measure.antt =====
-- How far the pump and the handler are from the end of a log.
use kle_ng_api.Prelude.{
  ℕ, suc, ◌+◌, ◌-◌, ◌*◌, ◌≤◌, ◌<◌, ◌≡◌, refl, sym, ap, ◌∙◌, ◌⊎◌, inl, inr, Bool, true, false, List,
  [], ◌∷◌, ◌++◌, length, length-append, append-nil, List-cases, take, drop, arith,
}
use kle_ng_api.Logstream.Publisher.{Values}
use kle_ng_api.Server.Logs.{Frame, Ended, at_end, number, xread, ws_read_count}
use kle_ng_api.Server.Logs.Backfill.{has_end}
use kle_ng_api.Server.Logs.Socket.{Pump, pumping, asking, closed, Conn, after_entry}
use kle_ng_api.Server.Logs.Socket.Invariant.{Handed, IsAt, drop_past}
use kle_ng_api.Server.Logs.Socket.Moves.{Farewell}

-- how many steps the pump still has to make, when the log holds `n` entries
unfoldable pub to_do : ℕ → Pump → ℕ
to_do n (pumping [] id) = 4 * (n - id) + 1
to_do n (pumping (e ∷ es) id) = 4 * (n - id)
to_do n (asking id) = 4 * (n - id) + 2
to_do n (closed why) = 0

pub to_do-after_entry :
    (n id : ℕ) (is_end : Bool) (es : List (ℕ × Values))
    → to_do n (after_entry is_end es id) ≤ 4 * (n - id) + 1
unfolding to_do after_entry
to_do-after_entry n id true es = omega arith
to_do-after_entry n id false [] = omega arith
to_do-after_entry n id false (e ∷ es) = omega arith

unfoldable pub measure : Conn → ℕ
measure c = 2 * length c.channel + to_do (length c.stream) c.pump

-- The pump has not given up, and the handler has not returned.
pub record IsLive (c : Conn) : Type 0 where
  pub serving : c.returned ≡ false
  pub ends : has_end c.stream ≡ true
  pub keeps : (why : Ended) → c.pump ≡ closed why → why ≡ at_end

pub after_entry-keeps :
    (is_end : Bool) (es : List (ℕ × Values)) (id : ℕ) (why : Ended)
    → after_entry is_end es id ≡ closed why
    → why ≡ at_end
unfolding after_entry
after_entry-keeps true es id why e = cc e
after_entry-keeps false es id why e = cc e

-- A log that ends has an entry behind one that goes on.
pub IsAt-more :
    (stream : List Values) (got : List Frame) (id : ℕ)
    → has_end stream ≡ true
    → IsAt stream got id []
    → (y : ℕ × Values) × (ys : List (ℕ × Values)) × (xread id stream ≡ y ∷ ys)
unfolding xread number
IsAt-more stream got id h a =
    let found : drop id stream ≡ a.later =
      ap (λ t. drop id t) a.splits
      ∙ ap (λ n. drop n (a.past ++ a.later)) a.counts
      ∙ drop_past a.past a.later in
    elim (List-cases a.later) [
      | inl e ↦ absurd (
          cc (
            sym h
            ∙ ap has_end (a.splits ∙ ap (λ t. a.past ++ t) e)
            ∙ ap has_end (append-nil a.past)
            ∙ a.goes_on))
      | inr (y, ys, e) ↦ (
        (suc id, y),
        number (suc id) (take 499 ys),
        ap (λ t. number id (take ws_read_count t)) (found ∙ e),
      )
    ]

pub Handed-counts :
    (stream : List Values) (got : List Frame) (last_id id : ℕ) (v : Values) (es : List (ℕ × Values))
    → Handed (pumping ((id, v) ∷ es) last_id) stream got
    → (id ≡ suc last_id) × (last_id < length stream)
unfolding Handed number
Handed-counts stream got last_id id v es ([], next, a) = absurd (nothing next)
  where
    nothing : ¬ ((id, v) ∷ es ≡ number last_id [])
    nothing h = cc h
Handed-counts stream got last_id id v es (v' ∷ now, next, a) = (
  cc next,
  omega (arith, a.counts, ap length a.splits, length-append a.past (v' ∷ now ++ a.later)),
)

pub measure_at :
    (c : Conn) (p : Pump)
    → c.pump ≡ p
    → measure c ≡ 2 * length c.channel + to_do (length c.stream) p
unfolding measure
measure_at c p e = ap (λ t. 2 * length c.channel + to_do (length c.stream) t) e

pub Pump-cases :
    (p : Pump) → ((why : Ended) × (p ≡ closed why)) ⊎ ((why : Ended) → p ≡ closed why → ⊥)
Pump-cases (closed why) = inl (why, refl)
Pump-cases (pumping es id) = inr (λ why e. cc e)
Pump-cases (asking id) = inr (λ why e. cc e)

pub ended_at_end : (c : Conn) (f : Farewell c) → c.pump ≡ closed at_end → f.why ≡ at_end
ended_at_end c f e = cc (f.ended, e)
