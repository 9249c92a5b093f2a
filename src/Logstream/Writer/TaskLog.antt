-- ===== src/Logstream/Writer/TaskLog.antt =====
-- The log of a whole task: what `HandleGenerateKicadProject` and `NewPCB` publish of it, in order.
use kle_ng_api.Prelude.{◌≡◌, refl, ap, ◌∙◌, String, List, [], ◌∷◌, ◌++◌, append_assoc, eq_refl, ℤ}
use kle_ng_api.Logstream.LineWriter.{Bytes}
use kle_ng_api.Logstream.LineWriter.Chunks.{lines_of, flatten}
use kle_ng_api.Logstream.Publisher.{
  Values, Redis, source_kbplacer, source_worker, stream_key, new_publisher, line_values, end_values,
  publish_end, added_to,
}
use kle_ng_api.Logstream.Publisher.Expiry.{publish_all}
use kle_ng_api.Logstream.Publisher.Trimming.{
  IsTrimmed, added_to-append, publish-IsTrimmed, publish_all-IsTrimmed,
}
use kle_ng_api.Logstream.Writer.{stream_kbplacer}
use kle_ng_api.Logstream.Writer.Lines.{
  Answers, commands, stamped, under, Published, publish_ready, stream_kbplacer_lines,
}
use kle_ng_api.Logstream.Writer.Trimmed.{stream_kbplacer-IsTrimmed, publish_all_added}

-- what the worker says itself, with the times
abbrev pub said : List (ℤ × String) → List Values
said [] = []
said ((t, line) ∷ lines) = line_values t source_worker line ∷ said lines

added_to-under : (key : String) (vs : List Values) → added_to key (under key vs) ≡ vs
unfolding added_to
added_to-under key [] = refl
added_to-under key (v ∷ vs) = rw (eq_refl key) (ap (λ l. v ∷ l) (added_to-under key vs))

-- what is published under a key is added to its stream
grows :
    (key k : String) (vs : List Values) (old now : List (String × Values))
    → k ≡ key
    → now ≡ old ++ under k vs
    → added_to key now ≡ added_to key old ++ vs
grows key k vs old now same e =
    ap (added_to key) (e ∙ ap (λ i. old ++ under i vs) same)
    ∙ added_to-append key old (under key vs)
    ∙ ap (λ l. added_to key old ++ l) (added_to-under key vs)

-- A whole task's log: what the worker says, kbplacer's output in chunks, what the worker says
-- then, and the end marker, all by one publisher.
unfoldable pub publish_log :
    (Bytes → String)
    → String
    → List (ℤ × String)
    → List Bytes
    → List ℤ
    → List (ℤ × String)
    → String
    → Redis
    → Redis
publish_log string_of task_id before chunks times after status r =
    let (p1, r1) = publish_all (said before) (new_publisher task_id) r in
    let s = stream_kbplacer string_of chunks p1 r1 times in
    let (p2, r2) = publish_all (said after) s.publisher s.redis in (publish_end status p2 r2).2

-- the entries of that log
abbrev pub log_values :
    (Bytes → String)
    → List (ℤ × String)
    → List Bytes
    → List ℤ
    → List (ℤ × String)
    → String
    → List Values
log_values string_of before chunks times after status =
    said before
    ++ (stamped string_of source_kbplacer times (lines_of (flatten chunks))
        ++ (said after ++ end_values status ∷ []))

module _ (string_of : Bytes → String) (task_id : String) (before : List (ℤ × String))
    (chunks : List Bytes) (times : List ℤ) (after : List (ℤ × String)) (status : String)
    (r : Redis) where
  abbrev log_key : String
  log_key = stream_key task_id

  pub publish_log-IsTrimmed :
      IsTrimmed log_key r
      → IsTrimmed log_key (publish_log string_of task_id before chunks times after status r)
  unfolding publish_log publish_end
  publish_log-IsTrimmed h =
      let first = publish_all (said before) (new_publisher task_id) r in
      let s = stream_kbplacer string_of chunks first.0 first.1 times in
      let next = publish_all (said after) s.publisher s.redis in
      publish-IsTrimmed log_key (end_values status) next.0 next.1 (
        publish_all-IsTrimmed log_key (said after) s.publisher s.redis (
          stream_kbplacer-IsTrimmed string_of log_key chunks first.0 first.1 times
            (publish_all-IsTrimmed log_key (said before) (new_publisher task_id) r h)))

  pub added_to-publish_log :
      Answers
        (commands (commands (commands 2 (said after)) (lines_of (flatten chunks))) (said before))
        r.answers
      → added_to log_key (publish_log string_of task_id before chunks times after status r).entries
        ≡ added_to log_key r.entries ++ log_values string_of before chunks times after status
  unfolding publish_log new_publisher publish_end Published
  added_to-publish_log ready =
      let lines = lines_of (flatten chunks) in
      let stamps = stamped string_of source_kbplacer times lines in
      let first = publish_all (said before) (new_publisher task_id) r in
      let (key1, entries1, ready1) =
        publish_all_added (commands (commands 2 (said after)) lines) (said before)
          (new_publisher task_id) r ready in
      let s = stream_kbplacer string_of chunks first.0 first.1 times in
      let (key2, entries2, ready2) =
        stream_kbplacer_lines string_of (commands 2 (said after)) chunks first.0 first.1 times
          ready1 in
      let next = publish_all (said after) s.publisher s.redis in
      let (key3, entries3, ready3) = publish_all_added 2 (said after) s.publisher s.redis ready2 in
      let (_, last, _) = publish_ready 0 (end_values status) next.0 next.1 ready3 in
      let a1 = grows log_key log_key (said before) _ _ refl entries1 in
      let a2 = grows log_key first.0.key stamps _ _ key1 entries2 in
      let a3 = grows log_key s.publisher.key (said after) _ _ (key2 ∙ key1) entries3 in
      let a4 = grows log_key next.0.key (end_values status ∷ []) _ _ (key3 ∙ key2 ∙ key1) last in
      let said_all = added_to log_key r.entries in
      a4
      ∙ ap (λ l. l ++ end_values status ∷ [])
          (a3 ∙ ap (λ l. l ++ said after) (a2 ∙ ap (λ l. l ++ stamps) a1))
      ∙ append_assoc ((said_all ++ said before) ++ stamps) (said after) (end_values status ∷ [])
      ∙ append_assoc (said_all ++ said before) stamps (said after ++ end_values status ∷ [])
      ∙ append_assoc said_all (said before) (stamps ++ (said after ++ end_values status ∷ []))
