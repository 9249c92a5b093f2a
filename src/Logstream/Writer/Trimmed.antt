-- ===== src/Logstream/Writer/Trimmed.antt =====
-- A task's stream while its worker publishes: what is added to it, and what is trimmed off.
use kle_ng_api.Prelude.{
  ◌≡◌, refl, sym, ap, ◌∙◌, subst, String, List, [], ◌∷◌, ◌++◌, append_assoc, append-nil, ℕ, ℤ,
}
use kle_ng_api.Logstream.LineWriter.{Bytes, write_all}
use kle_ng_api.Logstream.Publisher.{
  Values, Redis, Publisher, source_kbplacer, publish, publish_line, line_values,
}
use kle_ng_api.Logstream.Publisher.Expiry.{publish_all}
use kle_ng_api.Logstream.Publisher.Trimming.{IsTrimmed, publish-IsTrimmed}
use kle_ng_api.Logstream.Writer.{
  StreamWriter, now_of, new_writer, emit, emit_lines, stream_kbplacer,
}
use kle_ng_api.Logstream.Writer.Lines.{
  Answers, commands, under, Published, publish_ready, stream_chunks-emit_lines,
}

emit_lines-IsTrimmed :
    (string_of : Bytes → String) (source key : String) (lines : List Bytes) (s : StreamWriter)
    → IsTrimmed key s.redis
    → IsTrimmed key (emit_lines string_of source lines s).redis
unfolding emit_lines emit publish_line
emit_lines-IsTrimmed string_of source key [] s h = h
emit_lines-IsTrimmed string_of source key (line ∷ lines) s h =
    emit_lines-IsTrimmed string_of source key lines (emit string_of source line s) (
      publish-IsTrimmed key (line_values (now_of s.times) source (string_of line)) s.publisher
        s.redis h)

pub stream_kbplacer-IsTrimmed :
    (string_of : Bytes → String) (key : String) (chunks : List Bytes) (p : Publisher) (r : Redis)
    (times : List ℤ)
    → IsTrimmed key r
    → IsTrimmed key (stream_kbplacer string_of chunks p r times).redis
unfolding stream_kbplacer new_writer
stream_kbplacer-IsTrimmed string_of key chunks p r times h =
    let s : StreamWriter = new_writer p r times in
    subst (λ (t : StreamWriter). IsTrimmed key t.redis)
      (sym (stream_chunks-emit_lines string_of source_kbplacer chunks s))
      (emit_lines-IsTrimmed string_of source_kbplacer key (write_all s.line_writer chunks).0 s h)

-- while Redis answers every command, each of some entries is added, in order
pub publish_all_added :
    (k : ℕ) (vs : List Values) (p : Publisher) (r : Redis)
    → Answers (commands k vs) r.answers
    → let s = publish_all vs p r in
      (s.0.key ≡ p.key) × (s.1.entries ≡ r.entries ++ under p.key vs) × Answers k s.1.answers
unfolding publish_all Published
publish_all_added k [] p r h = (refl, sym (append-nil r.entries), h)
publish_all_added k (v ∷ vs) p r h =
    let (key, entries, ready) = publish_ready (commands k vs) v p r h in
    let (ok, p', r') = publish v p r in
    let (key', entries', ready') = publish_all_added k vs p' r' ready in
    (
      key' ∙ key,
      entries'
          ∙ ap (λ i. r'.entries ++ under i vs) key
          ∙ ap (λ t. t ++ under p.key vs) entries
          ∙ append_assoc r.entries ((p.key, v) ∷ []) (under p.key vs),
      ready',
    )
