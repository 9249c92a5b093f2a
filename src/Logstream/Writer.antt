-- ===== src/Logstream/Writer.antt =====
-- `Publisher.Writer` of backend/internal/logstream/logstream.go: a LineWriter whose lines are
-- published, as `RunKBPlacer` of backend/internal/kicad/kicad.go uses it for kbplacer's output.
-- `string_of` is the conversion of bytes to a string.
pub mod Lines
pub mod Trimmed
pub mod TaskLog
use kle_ng_api.Prelude.{String, List, [], ◌∷◌, ℤ, pos}
use kle_ng_api.Logstream.LineWriter.{Bytes, LineWriter, write, close}
use kle_ng_api.Logstream.Publisher.{Publisher, Redis, publish_line, source_kbplacer}

-- A writer to a log stream: the line buffer, the publisher that `emit` closes over, Redis, and the
-- times that the clock will give.
pub record StreamWriter : Type 0 where
  pub line_writer : LineWriter
  pub publisher : Publisher
  pub redis : Redis
  pub times : List ℤ

-- the time that the clock gives next, and those behind it
unfoldable pub now_of : List ℤ → ℤ
now_of [] = pos 0
now_of (t ∷ ts) = t

unfoldable pub times_left : List ℤ → List ℤ
times_left [] = []
times_left (t ∷ ts) = ts

-- `p.Writer(ctx, source)`
unfoldable pub new_writer : Publisher → Redis → List ℤ → StreamWriter
new_writer p r times = record {
  line_writer = record { buf = [] };
  publisher = p;
  redis = r;
  times = times;
}

module _ (string_of : Bytes → String) (source : String) where
  -- the callback: an error of the publish is ignored
  unfoldable pub emit : Bytes → StreamWriter → StreamWriter
  unfolding now_of times_left
  emit line s =
      let (ok, p, r) = publish_line (now_of s.times) source (string_of line) s.publisher s.redis in
      record s { publisher = p; redis = r; times = times_left s.times }

  unfoldable pub emit_lines : List Bytes → StreamWriter → StreamWriter
  emit_lines [] s = s
  emit_lines (line ∷ lines) s = emit_lines lines (emit line s)

  -- `Write` with its callbacks
  unfoldable pub write_stream : Bytes → StreamWriter → StreamWriter
  unfolding emit_lines
  write_stream chunk s =
      let (lines, w, n) = write s.line_writer chunk in
      emit_lines lines (record s { line_writer = w })

  -- `Close` with its callback
  unfoldable pub close_stream : StreamWriter → StreamWriter
  unfolding emit_lines
  close_stream s =
      let (lines, w) = close s.line_writer in emit_lines lines (record s { line_writer = w })

  -- the chunks of a program's output, and the deferred `Close`
  unfoldable pub stream_chunks : List Bytes → StreamWriter → StreamWriter
  unfolding write_stream close_stream
  stream_chunks [] s = close_stream s
  stream_chunks (chunk ∷ chunks) s = stream_chunks chunks (write_stream chunk s)

-- what `RunKBPlacer` does for the log stream while the program runs
unfoldable pub stream_kbplacer :
    (Bytes → String) → List Bytes → Publisher → Redis → List ℤ → StreamWriter
unfolding stream_chunks new_writer
stream_kbplacer string_of chunks p r times =
    stream_chunks string_of source_kbplacer chunks (new_writer p r times)
