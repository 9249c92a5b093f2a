-- ===== src/Logstream/Writer/Lines.antt =====
-- The entries that a program's output becomes.
use kle_ng_api.Prelude.{
  ℕ, zero, suc, ◌≡◌, refl, sym, ap, ◌∙◌, subst, Bool, true, String, List, [], ◌∷◌, ◌++◌,
  append_assoc, append-nil, ℤ, arith,
}
use kle_ng_api.Logstream.LineWriter.{Bytes, LineWriter, write, close, write_all}
use kle_ng_api.Logstream.LineWriter.Chunks.{lines_of, flatten, write_all-lines_of}
use kle_ng_api.Logstream.Publisher.{
  Values, Publisher, Redis, publish, publish_line, line_values, source_kbplacer, next_answer,
  answers_left, xadd, expire, ensure_expire,
}
use kle_ng_api.Logstream.Writer.{
  StreamWriter, now_of, times_left, new_writer, emit, emit_lines, write_stream, close_stream,
  stream_chunks, stream_kbplacer,
}

module _ (string_of : Bytes → String) (source : String) where
  -- the callbacks do not touch the line buffer
  emit_lines-buffer :
      (lines : List Bytes) (s : StreamWriter) (w : LineWriter)
      → emit_lines string_of source lines (record s { line_writer = w })
        ≡ record (emit_lines string_of source lines s) { line_writer = w }
  unfolding emit_lines emit
  emit_lines-buffer [] s w = refl
  emit_lines-buffer (line ∷ lines) s w = emit_lines-buffer lines (emit string_of source line s) w

  emit_lines-append :
      (xs ys : List Bytes) (s : StreamWriter)
      → emit_lines string_of source (xs ++ ys) s
        ≡ emit_lines string_of source ys (emit_lines string_of source xs s)
  unfolding emit_lines
  emit_lines-append [] ys s = refl
  emit_lines-append (x ∷ xs) ys s = emit_lines-append xs ys (emit string_of source x s)

  -- Chunk by chunk, or all lines at the end: the same entries.
  pub stream_chunks-emit_lines :
      (chunks : List Bytes) (s : StreamWriter)
      → let (lines, w) = write_all s.line_writer chunks in
        stream_chunks string_of source chunks s
        ≡ record (emit_lines string_of source lines s) { line_writer = w }
  unfolding stream_chunks write_all write_stream close_stream
  stream_chunks-emit_lines [] s =
      emit_lines-buffer (close s.line_writer).0 s (close s.line_writer).1
  stream_chunks-emit_lines (chunk ∷ chunks) s =
      let (lines, w, n) = write s.line_writer chunk in
      let (rest, w') = write_all w chunks in
      let said = emit_lines string_of source lines s in
      let s' : StreamWriter = record said { line_writer = w } in
      ap (stream_chunks string_of source chunks) (emit_lines-buffer lines s w)
      ∙ stream_chunks-emit_lines chunks s'
      ∙ ap (λ (t : StreamWriter). record t { line_writer = w' }) (emit_lines-buffer rest said w)
      ∙ ap (λ (t : StreamWriter). record t { line_writer = w' })
          (sym (emit_lines-append lines rest s))

-- The next `n` commands succeed.
abbrev pub Answers : ℕ → List Bool → Type 0
Answers zero bs = Unit
Answers (suc n) [] = ⊥
Answers (suc n) (b ∷ bs) = (b ≡ true) × Answers n bs

-- the entries of lines at the times of a clock
unfoldable pub stamped : (Bytes → String) → String → List ℤ → List Bytes → List Values
stamped string_of source times [] = []
stamped string_of source times (line ∷ lines) =
    line_values (now_of times) source (string_of line)
    ∷ stamped string_of source (times_left times) lines

-- entries of one stream
abbrev pub under : String → List Values → List (String × Values)
under key [] = []
under key (v ∷ vs) = (key, v) ∷ under key vs

fewer : (n : ℕ) (bs : List Bool) → Answers (suc n) bs → Answers n bs
fewer zero bs h = tt
fewer (suc n) [] h = absurd h
fewer (suc n) (b ∷ bs) (e, h) = (e, fewer n bs h)

unfoldable pub Published :
    ℕ → Values → Publisher → List (String × Values) → Bool × Publisher × Redis → Type 0
Published n v p entries (ok, p', r') =
    (p'.key ≡ p.key) × (r'.entries ≡ entries ++ (p.key, v) ∷ []) × Answers n r'.answers

publish_answered :
    (n : ℕ) (v : Values) (p : Publisher) (r : Redis) (bs : List Bool)
    → r.answers ≡ bs
    → Answers (suc (suc n)) bs
    → Published n v p r.entries (publish v p r)
unfolding Published publish ensure_expire expire xadd next_answer answers_left
publish_answered n v p r [] e h = absurd h
publish_answered n v p r (b ∷ []) e h = absurd h.1
publish_answered n v p r (b ∷ c ∷ bs) e (eb, (ec, h)) = ground (arith, fewer n (c ∷ bs) (ec, h))

-- One publish takes at most two of the answers.
pub publish_ready :
    (n : ℕ) (v : Values) (p : Publisher) (r : Redis)
    → Answers (suc (suc n)) r.answers
    → Published n v p r.entries (publish v p r)
publish_ready n v p r h = publish_answered n v p r r.answers refl h

-- the commands for some lines, at most, and `k` more
abbrev pub commands : {A : Type 0} → ℕ → List A → ℕ
commands k [] = k
commands k (line ∷ lines) = suc (suc (commands k lines))

module _ (string_of : Bytes → String) (source : String) where
  one :
      (line : Bytes) (s : StreamWriter) (n : ℕ)
      → Answers (suc (suc n)) s.redis.answers
      → Published n
          (line_values (now_of s.times) source (string_of line))
          s.publisher
          s.redis.entries
          (publish_line (now_of s.times) source (string_of line) s.publisher s.redis)
  unfolding publish_line
  one line s n h = publish_ready n _ s.publisher s.redis h

  emit_lines_published :
      (k : ℕ) (lines : List Bytes) (s : StreamWriter)
      → Answers (commands k lines) s.redis.answers
      → let s' = emit_lines string_of source lines s in
        (s'.publisher.key ≡ s.publisher.key)
        × (s'.redis.entries
            ≡ s.redis.entries ++ under s.publisher.key (stamped string_of source s.times lines))
        × Answers k s'.redis.answers
  unfolding emit_lines stamped emit Published
  emit_lines_published k [] s h = (refl, sym (append-nil _), h)
  emit_lines_published k (line ∷ lines) s h =
      let (key, entries, ready) = one line s (commands k lines) h in
      let (key', entries', ready') =
        emit_lines_published k lines (emit string_of source line s) ready in
      let v = line_values (now_of s.times) source (string_of line) in
      let rest = stamped string_of source (times_left s.times) lines in
      (
        key' ∙ key,
        entries'
            ∙ ap (λ k. (emit string_of source line s).redis.entries ++ under k rest) key
            ∙ ap (λ t. t ++ under s.publisher.key rest) entries
            ∙ append_assoc s.redis.entries ((s.publisher.key, v) ∷ []) (under s.publisher.key rest),
        ready',
      )

-- kbplacer's output in the log stream: while Redis answers every command, each line of the whole
-- output is published once and in order, however the output is cut into chunks, with the time at
-- which the line was complete; the last line too, if it has no newline.
pub stream_kbplacer_lines :
    (string_of : Bytes → String) (k : ℕ) (chunks : List Bytes) (p : Publisher) (r : Redis)
    (times : List ℤ)
    → Answers (commands k (lines_of (flatten chunks))) r.answers
    → let s = stream_kbplacer string_of chunks p r times in
      (s.publisher.key ≡ p.key)
      × (s.redis.entries
          ≡ r.entries
            ++ under p.key (stamped string_of source_kbplacer times (lines_of (flatten chunks))))
      × Answers k s.redis.answers
unfolding stream_kbplacer new_writer
stream_kbplacer_lines string_of k chunks p r times h =
    let s : StreamWriter = new_writer p r times in
    let lines = (write_all s.line_writer chunks).0 in
    let same : lines ≡ lines_of (flatten chunks) = write_all-lines_of chunks in
    let all = emit_lines_published string_of source_kbplacer k (lines_of (flatten chunks)) s h in
    let e = stream_chunks-emit_lines string_of source_kbplacer chunks s in
    subst Good (sym e) (subst (λ l. Good (emit_lines string_of source_kbplacer l s)) (sym same) all)
  where
    Good : StreamWriter → Type 0
    Good t =
        (t.publisher.key ≡ p.key)
        × (t.redis.entries
            ≡ r.entries
              ++ under p.key (stamped string_of source_kbplacer times (lines_of (flatten chunks))))
        × Answers k t.redis.answers
