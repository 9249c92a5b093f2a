-- ===== src/Worker/TaskHandler.antt =====
-- `HandleGenerateKicadProject`, `reportProgress` and `reportResult` of
-- backend/internal/worker/task_handler.go. The generator (`kicad.NewPCB`) and the upload
-- (`UploadToStorage`) are effects that may also panic; a deferred function is the end of the run.
pub mod EndMarker
pub mod Result
pub mod Verdict
pub mod Shown
use kle_ng_api.Prelude.{
  Bool, true, false, String, Option, none, some, List, [], ◌∷◌, ◌++◌, rest_of, if◌then◌else◌, ℤ,
  pos,
}
use kle_ng_api.Go.Strings.{◌<>◌}
use kle_ng_api.Common.{Progress, ProjectFiles, RenderFile}
use kle_ng_api.Logstream.Publisher.{
  Redis, Publisher, source_worker, new_publisher, publish_line, publish_end,
}

-- The world of one task: Redis and the task's publisher, the times that the clock will give, the
-- results written, and whether the writes to come succeed.
pub record TaskWorld : Type 0 where
  pub redis : Redis
  pub publisher : Publisher
  pub times : List ℤ
  pub results : List Progress
  pub write_answers : List Bool

-- How a call ends.
pub data Outcome {ℓ} (A : Type ℓ) : Type ℓ where
  returned : A → Outcome A
  failed : String → Outcome A
  panicked : String → Outcome A

next_time : List ℤ → ℤ
next_time [] = pos 0
next_time (t ∷ ts) = t

unfoldable pub succeeds : List Bool → Bool
succeeds [] = false
succeeds (b ∷ bs) = b

-- a write to the task's result; an error is only logged
unfoldable pub write_result : Progress → TaskWorld → TaskWorld
unfolding succeeds
write_result p w = record w {
  results = if succeeds w.write_answers then w.results ++ p ∷ [] else w.results;
  write_answers = rest_of w.write_answers;
}

unfoldable pub report_progress : String → TaskWorld → TaskWorld
unfolding write_result
report_progress text w = write_result (record { message = text; files = none }) w

unfoldable pub report_result : ProjectFiles → TaskWorld → TaskWorld
unfolding write_result
report_result f w =
    write_result (record { message = "Task completed successfully"; files = some f }) w

-- `_ = pub.PublishLine(ctx, logstream.SourceWorker, line)`
unfoldable pub say : String → TaskWorld → TaskWorld
unfolding next_time
say line w =
    let (ok, p, r) = publish_line (next_time w.times) source_worker line w.publisher w.redis in
    record w { redis = r; publisher = p; times = rest_of w.times }

-- The end of a run: the error returned (`none` is nil), `buildStatus`, and the world before the
-- deferred functions.
abbrev pub Run : Type 0
Run = Option String × String × TaskWorld

-- the deferred recovery from a panic: the error result stays nil
recover_panic : String → TaskWorld → Run
unfolding report_progress
recover_panic reason w = (none, "failure", report_progress ("Panic: " <> reason) w)

-- after the upload
finish_task : ProjectFiles → Outcome (Unit {0}) × TaskWorld → Run
unfolding recover_panic report_progress report_result say
finish_task f (panicked reason, w) = recover_panic reason w
finish_task f (failed e, w) =
    (some ("Filer upload failed: " <> e), "failure", report_progress ("Upload failed: " <> e) w)
finish_task f (returned ok, w) =
    (none, "success", say "Task completed successfully" (report_result f w))

module _ (generate : TaskWorld → Outcome (String × ProjectFiles) × TaskWorld)
    (upload : String → List RenderFile → TaskWorld → Outcome (Unit {0}) × TaskWorld) where
  -- after the generator
  upload_task : Outcome (String × ProjectFiles) × TaskWorld → Run
  unfolding recover_panic finish_task report_progress say
  upload_task (panicked reason, w) = recover_panic reason w
  upload_task (failed e, w) =
      let text = "PCB generation failed: " <> e in (some text, "failure", report_progress text w)
  upload_task (returned (work_dir, f), w) = finish_task f (
      upload work_dir f.renders
        (say "Uploading files to storage" (report_progress "Uploading files to storage" w)))

  -- the body; `parse_error` is what `json.Unmarshal` returns for the payload
  unfoldable pub run_task : Option String → TaskWorld → Run
  unfolding upload_task
  run_task parse_error w =
      let w' = report_progress "Initializing task" w in
      elim parse_error [
        | some e ↦ (
          some ("failed to parse request JSON: " <> e),
          "failure",
          report_progress "Invalid JSON payload" w',
        )
        | none ↦ upload_task (
            generate
              (say "Generating KiCad PCB files" (report_progress "Generating KiCad PCB files" w')))
      ]

  -- the whole handler, with the deferred end marker, for a task given to a new publisher
  unfoldable pub handle_generate_kicad_project :
      String → Option String → TaskWorld → Option String × TaskWorld
  unfolding run_task
  handle_generate_kicad_project task_id parse_error w =
      let (err, status, w') =
        run_task parse_error (record w { publisher = new_publisher task_id }) in
      let (ok, p, r) = publish_end status w'.publisher w'.redis in
      (err, record w' { publisher = p; redis = r })
