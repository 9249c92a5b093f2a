-- ===== src/Worker/TaskHandler/EndMarker.antt =====
-- The end marker of a task's stream, and what the server reports of the task afterwards.
use kle_ng_api.Prelude.{
  ℕ, suc, ◌≡◌, refl, ◌∙◌, Bool, ◌&&◌, ◌||◌, false, String, Option, none, some, List, [], ◌∷◌, ◌++◌,
  arith, str_eq, if◌then◌else◌,
}
use kle_ng_api.Common.{ProjectFiles, RenderFile}
use kle_ng_api.Logstream.Publisher.{
  Values, Redis, Publisher, source_worker, new_publisher, publish_line, publish_end, publish,
  line_values, end_values,
}
use kle_ng_api.Worker.TaskHandler.{
  TaskWorld, Outcome, returned, failed, panicked, report_progress, report_result, say, next_time,
  finish_task, upload_task, run_task, handle_generate_kicad_project,
}

-- the number of end markers in a stream
abbrev pub is_end : Values → Bool
is_end [] = false
is_end ((k, v) ∷ vs) = str_eq k "event" || is_end vs

unfoldable pub count_ends : List (String × Values) → ℕ
count_ends [] = 0
count_ends ((k, v) ∷ es) = let rest = count_ends es in if is_end v then suc rest else rest

count_ends-append :
    (xs : List (String × Values)) (k : String) (v : Values)
    → count_ends (xs ++ (k, v) ∷ []) ≡ (if is_end v then suc (count_ends xs) else count_ends xs)
unfolding count_ends
count_ends-append [] k v = ground arith
count_ends-append ((j, u) ∷ xs) k v = ground (arith, count_ends-append xs k v)

abbrev pub ends : TaskWorld → ℕ
ends w = count_ends w.redis.entries

publish-ends :
    (v : Values) (p : Publisher) (r : Redis)
    → count_ends (publish v p r).2.entries
      ≡ (if (publish v p r).0 && is_end v then suc (count_ends r.entries) else count_ends r.entries)
unfolding publish
publish-ends v p r = ground (arith, count_ends-append r.entries p.key v)

publish_plain-ends :
    (v : Values) (p : Publisher) (r : Redis)
    → is_end v ≡ false
    → count_ends (publish v p r).2.entries ≡ count_ends r.entries
publish_plain-ends v p r plain = ground (arith, publish-ends v p r)

say-ends : (line : String) (w : TaskWorld) → ends (say line w) ≡ ends w
unfolding say publish_line line_values
say-ends line w =
    publish_plain-ends (line_values (next_time w.times) source_worker line) w.publisher w.redis refl

-- The generator and the upload publish no end marker.
module _ (generate : TaskWorld → Outcome (String × ProjectFiles) × TaskWorld)
    (upload : String → List RenderFile → TaskWorld → Outcome (Unit {0}) × TaskWorld)
    (generate_keeps : (w : TaskWorld) → ends (generate w).1 ≡ ends w)
    (upload_keeps : (dir : String) (rs : List RenderFile) (w : TaskWorld)
      → ends (upload dir rs w).1 ≡ ends w) where
  finish_task-ends :
      (f : ProjectFiles) (o : Outcome (Unit {0})) (w : TaskWorld)
      → ends (finish_task f (o, w)).2 ≡ ends w
  unfolding finish_task
  finish_task-ends f (returned ok) w = say-ends "Task completed successfully" (report_result f w)
  finish_task-ends f (failed e) w = refl
  finish_task-ends f (panicked e) w = refl

  upload_task-ends :
      (o : Outcome (String × ProjectFiles)) (w : TaskWorld)
      → ends (upload_task generate upload (o, w)).2 ≡ ends w
  unfolding upload_task
  upload_task-ends (panicked e) w = refl
  upload_task-ends (failed e) w = refl
  upload_task-ends (returned (dir, f)) w =
      let w' = report_progress "Uploading files to storage" w in
      let w'' = say "Uploading files to storage" w' in
      let r = upload dir f.renders w'' in
      finish_task-ends f r.0 r.1
      ∙ upload_keeps dir f.renders w''
      ∙ say-ends "Uploading files to storage" w'

  run_task-ends :
      (parse_error : Option String) (w : TaskWorld)
      → ends (run_task generate upload parse_error w).2 ≡ ends w
  unfolding run_task
  run_task-ends (some e) w = refl
  run_task-ends none w =
      let w' =
        report_progress "Generating KiCad PCB files" (report_progress "Initializing task" w) in
      let w'' = say "Generating KiCad PCB files" w' in
      let r = generate w'' in
      upload_task-ends r.0 r.1 ∙ generate_keeps w'' ∙ say-ends "Generating KiCad PCB files" w'

  -- Whatever the payload is and however the generator and the upload end (result, error or panic),
  -- the handler publishes one end marker, at the end: the streams hold one more than before if
  -- Redis takes that last entry, and as many otherwise.
  pub handler_ends_once :
      (task_id : String) (parse_error : Option String) (w : TaskWorld)
      → let w' = (handle_generate_kicad_project generate upload task_id parse_error w).1 in
        let run =
          run_task generate upload parse_error (record w { publisher = new_publisher task_id }) in
        ends w'
        ≡ (if (publish_end run.1 run.2.publisher run.2.redis).0 then suc (ends w) else ends w)
  unfolding handle_generate_kicad_project publish_end end_values
  handler_ends_once task_id parse_error w =
      let s =
        run_task generate upload parse_error (record w { publisher = new_publisher task_id }) in
      ground (
        arith,
        publish-ends (end_values s.1) s.2.publisher s.2.redis,
        run_task-ends parse_error (record w { publisher = new_publisher task_id }),
      )
