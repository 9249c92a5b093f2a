-- ===== src/Logstream/LineWriter/Chunks.antt =====
-- Splitting into lines does not depend on how the output is cut into chunks.
use mathlib.Core.List.{map-append}
use kle_ng_api.Prelude.{
  ℕ, zero, suc, ◌-◌, ◌≤◌, ◌<◌, ◌≡◌, refl, ap, fun_ext, ◌∙◌, none, some, List, [], ◌∷◌, ◌++◌, map,
  append_assoc, append-nil, length, take, drop, arith, ltb, ◌==◌, if◌then◌else◌, inl, inr,
  Option-cases,
}
use kle_ng_api.Logstream.LineWriter.{
  Bytes, newline, index_byte, trim_cr, LineWriter, drain, write, close, write_all,
}

-- A line and the bytes behind it, byte by byte: `finished` holds the complete lines.
pub record Split : Type 0 where
  pub finished : List Bytes
  pub open_line : Bytes

-- one byte in front of a split text
push_byte : ℕ → List Bytes → Bytes → Split
push_byte c [] r = record { finished = []; open_line = c ∷ r }
push_byte c (l ∷ ls) r = record { finished = (c ∷ l) ∷ ls; open_line = r }

unfoldable pub split_lines : Bytes → Split
unfolding push_byte
split_lines [] = record { finished = []; open_line = [] }
split_lines (c ∷ s) =
    let t = split_lines s in
    if c == newline
    then record { finished = [] ∷ t.finished; open_line = t.open_line }
    else push_byte c t.finished t.open_line

-- a line without a last byte that is a carriage return
unfoldable pub without_cr : Bytes → Bytes
without_cr [] = []
without_cr (c ∷ []) = if c == 13 then [] else c ∷ []
without_cr (c ∷ d ∷ s) = c ∷ without_cr (d ∷ s)

-- What a text split at once gives: its lines, then what is left unless that is empty, each of them
-- cut by `cut`.
lines_by : (Bytes → Bytes) → Bytes → List Bytes
lines_by cut s =
    let t = split_lines s in
    map cut t.finished ++ (if ltb 0 (length t.open_line) then cut t.open_line ∷ [] else [])

unfoldable pub lines_of : Bytes → List Bytes
unfolding lines_by without_cr
lines_of s = lines_by without_cr s

trim_cr-without_cr : (s : Bytes) → trim_cr s ≡ without_cr s
unfolding trim_cr without_cr
trim_cr-without_cr [] = refl
trim_cr-without_cr (c ∷ []) = ground arith
trim_cr-without_cr (c ∷ d ∷ s) = ground (arith, trim_cr-without_cr (d ∷ s))

-- the first newline, seen by both
split_none :
    (s : Bytes)
    → index_byte s newline ≡ none
    → split_lines s ≡ record { finished = []; open_line = s }
unfolding split_lines index_byte
split_none [] h = refl
split_none (c ∷ s) h = ground (arith, split_none s)

split_some :
    (s : Bytes) (i : ℕ)
    → index_byte s newline ≡ some i
    → (split_lines s ≡ record {
      finished = take i s ∷ (split_lines (drop (suc i) s)).finished;
      open_line = (split_lines (drop (suc i) s)).open_line;
    })
      × (i < length s)
unfolding split_lines index_byte
split_some [] i h = cc
split_some (c ∷ s) zero h = ground arith
split_some (c ∷ s) (suc i) h = ground (arith, split_some s i)

length-drop-le : (n : ℕ) (xs : Bytes) → length (drop (suc n) xs) ≤ length xs - 1
length-drop-le n [] = omega arith
length-drop-le zero (x ∷ xs) = omega arith
length-drop-le (suc n) (x ∷ xs) = omega (arith, length-drop-le n xs)

-- With as much fuel as there are bytes, the loop of `Write` splits the whole buffer.
drain_lem :
    (fuel : ℕ) (s : Bytes)
    → length s ≤ fuel
    → drain fuel s ≡ (map trim_cr (split_lines s).finished, (split_lines s).open_line)
unfolding drain
drain_lem zero [] h = unfold split_lines in refl
drain_lem zero (c ∷ s) h = absurd (omega arith)
drain_lem (suc fuel) s h = elim (Option-cases (index_byte s newline)) [
  | inl e ↦ rw (e, drain) (rw (split_none s e))
  | inr (i, e) ↦
      let (shape, lt) = split_some s i e in
      rw (e, drain)
        (rw (shape, drain_lem fuel (drop (suc i) s) (omega (arith, length-drop-le i s))))
]

-- the open line of a text is continued by what follows
split_lines-append :
    (s t : Bytes)
    → split_lines (s ++ t) ≡ record {
      finished =
          (split_lines s).finished ++ (split_lines ((split_lines s).open_line ++ t)).finished;
      open_line = (split_lines ((split_lines s).open_line ++ t)).open_line;
    }
unfolding split_lines
split_lines-append [] t = refl
split_lines-append (c ∷ s) t = ground (arith, split_lines-append s t)

-- the open line holds no newline
split_lines-open :
    (s : Bytes)
    → split_lines (split_lines s).open_line
      ≡ record { finished = []; open_line = (split_lines s).open_line }
unfolding split_lines
split_lines-open [] = refl
split_lines-open (c ∷ s) = ground (arith, split_lines-open s)

open_line-no_newline : (s : Bytes) → index_byte (split_lines s).open_line newline ≡ none
unfolding split_lines index_byte
open_line-no_newline [] = refl
open_line-no_newline (c ∷ s) = ground (arith, open_line-no_newline s)

unfoldable pub flatten : List Bytes → Bytes
flatten [] = []
flatten (b ∷ bs) = b ++ flatten bs

tail_lines : Bytes → List Bytes
tail_lines r = if ltb 0 (length r) then trim_cr r ∷ [] else []

close_lem : (r : Bytes) → (close (record { buf = r })).0 ≡ tail_lines r
unfolding close tail_lines
close_lem r = ground arith

write_lem :
    (r b : Bytes)
    → write (record { buf = r }) b ≡ (
      map trim_cr (split_lines (r ++ b)).finished,
      record { buf = (split_lines (r ++ b)).open_line },
      length b,
    )
unfolding write
write_lem r b = rw (drain_lem (length (r ++ b)) (r ++ b) (omega arith))

write_all_lem :
    (bs : List Bytes) (r : Bytes)
    → split_lines r ≡ record { finished = []; open_line = r }
    → (write_all (record { buf = r }) bs).0 ≡ lines_by trim_cr (r ++ flatten bs)
unfolding write_all flatten lines_by
write_all_lem [] r open_r = rw (append-nil, open_r) (close_lem r ∙ (unfold tail_lines in refl))
write_all_lem (b ∷ bs) r open_r =
    let rest = (split_lines (r ++ b)).open_line in
    rw (write_lem, write_all_lem bs rest (split_lines-open (r ++ b)))
      (unfold lines_by in
        rw (← append_assoc r b (flatten bs), split_lines-append (r ++ b) (flatten bs))
          (simp (map-append, append_assoc)))

-- However a subprocess's output is cut into chunks, writing the chunks to a new writer and
-- closing it emits the lines of the whole output, each without its newline and without one
-- carriage return before it, and last what follows the last newline unless that is empty.
pub write_all-lines_of :
    (bs : List Bytes) → (write_all (record { buf = [] }) bs).0 ≡ lines_of (flatten bs)
unfolding lines_of
write_all-lines_of bs =
    write_all_lem bs [] (unfold split_lines in refl)
    ∙ ap (λ cut. lines_by cut (flatten bs)) (fun_ext trim_cr-without_cr)

-- One `Write` reports every byte as consumed; it keeps exactly what follows the last newline of
-- the bytes buffered so far.
pub write_keeps_open_line :
    (w : LineWriter) (b : Bytes)
    → let r = write w b in
      (r.1.buf ≡ (split_lines (w.buf ++ b)).open_line)
      × (r.2 ≡ length b)
      × (index_byte r.1.buf newline ≡ none)
write_keeps_open_line w b = rw (write_lem w.buf b) (refl, refl, open_line-no_newline (w.buf ++ b))
