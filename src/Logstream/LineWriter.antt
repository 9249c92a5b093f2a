-- ===== src/Logstream/LineWriter.antt =====
-- `LineWriter` of backend/internal/logstream/logstream.go. A byte is a number; the calls of the
-- `emit` callback are the list of the lines that it is given.
pub mod Chunks
use kle_ng_api.Prelude.{
  ℕ, zero, suc, ◌+◌, ◌-◌, ◌≡◌, refl, Bool, true, false, ◌&&◌, Option, none, some, List, [], ◌∷◌,
  ◌++◌, length, take, drop, ltb, ◌==◌, if◌then◌else◌,
}

abbrev pub Bytes : Type 0
Bytes = List ℕ

abbrev pub newline : ℕ
newline = 10

abbrev pub carriage_return : ℕ
carriage_return = 13

-- `b[i]`, or `d` out of range
unfoldable pub get_or : Bytes → ℕ → ℕ → ℕ
get_or [] i d = d
get_or (x ∷ xs) zero d = x
get_or (x ∷ xs) (suc i) d = get_or xs i d

later : Option ℕ → Option ℕ
later none = none
later (some i) = some (suc i)

-- `bytes.IndexByte`, `none` for -1
unfoldable pub index_byte : Bytes → ℕ → Option ℕ
unfolding later
index_byte [] b = none
index_byte (x ∷ xs) b = let rest = later (index_byte xs b) in if x == b then some 0 else rest

-- `trimCR`
unfoldable pub trim_cr : Bytes → Bytes
unfolding get_or
trim_cr b =
    let n = length b in
    if ltb 0 n && get_or b (n - 1) 0 == carriage_return then take (n - 1) b else b

pub record LineWriter : Type 0 where
  pub buf : Bytes

-- The loop of `Write` on the buffered bytes: the lines emitted and the bytes that stay. Each round
-- discards at least one byte.
unfoldable pub drain : ℕ → Bytes → List Bytes × Bytes
drain zero buffered = ([], buffered)
drain (suc fuel) buffered = elim (index_byte buffered newline) [
  | none ↦ ([], buffered)
  | some i ↦
      let (lines, rest) = drain fuel (drop (suc i) buffered) in
      (trim_cr (take i buffered) ∷ lines, rest)
]

-- The lines emitted, the writer afterwards, and the number of bytes reported.
unfoldable pub write : LineWriter → Bytes → List Bytes × LineWriter × ℕ
unfolding drain
write w b =
    let buffered = w.buf ++ b in
    let (lines, rest) = drain (length buffered) buffered in (lines, record { buf = rest }, length b)

unfoldable pub close : LineWriter → List Bytes × LineWriter
close w = if ltb 0 (length w.buf) then (trim_cr w.buf ∷ [], record { buf = [] }) else ([], w)

-- the chunks of a subprocess's output, written in turn, then `Close`
unfoldable pub write_all : LineWriter → List Bytes → List Bytes × LineWriter
write_all w [] = close w
write_all w (b ∷ bs) =
    let (lines, w', n) = write w b in let (more, w'') = write_all w' bs in (lines ++ more, w'')
