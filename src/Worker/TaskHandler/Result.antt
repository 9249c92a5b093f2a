-- ===== src/Worker/TaskHandler/Result.antt =====
-- How the error that the handler returns fits the status of its end marker.
use kle_ng_api.Prelude.{
  ◌≡◌, refl, String, Option, none, some, List, [], ◌∷◌, ◌++◌, if◌then◌else◌, arith,
}
use kle_ng_api.Common.{ProjectFiles, RenderFile}
use kle_ng_api.Logstream.Publisher.{new_publisher, publish, publish_end, end_values, next_answer}
use kle_ng_api.Server.Http.{empty}
use kle_ng_api.Server.Queue.{completed, written}
use kle_ng_api.Server.Tasks.{status_of}
use kle_ng_api.Worker.TaskHandler.{
  TaskWorld, Outcome, returned, failed, panicked, say, report_progress, finish_task, upload_task,
  run_task, handle_generate_kicad_project,
}

abbrev pub IsPanic {ℓ} : {A : Type ℓ} → Outcome A → Type 0
IsPanic (panicked reason) = Unit
IsPanic _ = ⊥

-- the status that fits an error
abbrev pub told : Option String → String
told none = "success"
told (some e) = "failure"

module _ (generate : TaskWorld → Outcome (String × ProjectFiles) × TaskWorld)
    (upload : String → List RenderFile → TaskWorld → Outcome (Unit {0}) × TaskWorld) where
  finish_status :
      (f : ProjectFiles) (o : Outcome (Unit {0})) (w : TaskWorld)
      → ¬ IsPanic o
      → (finish_task f (o, w)).1 ≡ told (finish_task f (o, w)).0
  unfolding finish_task
  finish_status f (panicked reason) w calm = absurd (calm tt)
  finish_status f (failed e) w calm = refl
  finish_status f (returned ok) w calm = refl

  upload_status :
      (o : Outcome (String × ProjectFiles)) (w : TaskWorld)
      → ¬ IsPanic o
      → ((dir : String) (rs : List RenderFile) (v : TaskWorld) → ¬ IsPanic (upload dir rs v).0)
      → (upload_task generate upload (o, w)).1 ≡ told (upload_task generate upload (o, w)).0
  unfolding upload_task
  upload_status (panicked reason) w calm upload_calm = absurd (calm tt)
  upload_status (failed e) w calm upload_calm = refl
  upload_status (returned (dir, f)) w calm upload_calm =
      let w' = say "Uploading files to storage" (report_progress "Uploading files to storage" w) in
      let r = upload dir f.renders w' in finish_status f r.0 r.1 (upload_calm dir f.renders w')

  run_status :
      (parse_error : Option String) (w : TaskWorld)
      → ((v : TaskWorld) → ¬ IsPanic (generate v).0)
      → ((dir : String) (rs : List RenderFile) (v : TaskWorld) → ¬ IsPanic (upload dir rs v).0)
      → (run_task generate upload parse_error w).1 ≡ told (run_task generate upload parse_error w).0
  unfolding run_task
  run_status (some e) w calm upload_calm = refl
  run_status none w calm upload_calm =
      let w' =
        report_progress "Generating KiCad PCB files" (report_progress "Initializing task" w) in
      let w'' = say "Generating KiCad PCB files" w' in
      let r = generate w'' in upload_status r.0 r.1 (calm w'') upload_calm

  -- If neither the generator nor the upload panics: when Redis takes the last entry, the handler
  -- leaves behind the entries of its run one more under the publisher's key, which says "end" and
  -- the status "success" if the handler returns nil and "failure" if it returns an error; else it
  -- leaves the entries of its run. The stream and the queue agree on the outcome.
  pub error_matches_marker :
      (task_id : String) (parse_error : Option String) (w : TaskWorld)
      → ((v : TaskWorld) → ¬ IsPanic (generate v).0)
      → ((dir : String) (rs : List RenderFile) (v : TaskWorld) → ¬ IsPanic (upload dir rs v).0)
      → let (err, w') = handle_generate_kicad_project generate upload task_id parse_error w in
        let run =
          run_task generate upload parse_error (record w { publisher = new_publisher task_id }) in
        w'.redis.entries ≡ (
          if next_answer run.2.redis.answers
          then run.2.redis.entries
            ++ (run.2.publisher.key, ("event", "end") ∷ ("status", told err) ∷ []) ∷ []
          else run.2.redis.entries)
  unfolding handle_generate_kicad_project publish_end end_values publish
  error_matches_marker task_id parse_error w calm upload_calm =
      let v = record w { publisher = new_publisher task_id } in
      ground (arith, run_status parse_error v calm upload_calm)

  panic_run :
      (o : Outcome (String × ProjectFiles)) (w : TaskWorld)
      → IsPanic o
      → ((upload_task generate upload (o, w)).0 ≡ none)
        × ((upload_task generate upload (o, w)).1 ≡ "failure")
  unfolding upload_task
  panic_run o w p = ground arith

  -- A generator that panics makes the handler return nil although the end marker says "failure";
  -- of a completed task whose result has no file manifest the server then reports SUCCESS.
  pub panic_returns_nil :
      (w : TaskWorld) (text : String)
      → ((v : TaskWorld) → IsPanic (generate v).0)
      → ((run_task generate upload none w).0 ≡ none)
        × ((run_task generate upload none w).1 ≡ "failure")
        × (status_of completed (written (record { message = text; files = none })) ""
            ≡ ("SUCCESS", empty))
  unfolding run_task status_of
  panic_returns_nil w text panics =
      let w' =
        report_progress "Generating KiCad PCB files" (report_progress "Initializing task" w) in
      let w'' = say "Generating KiCad PCB files" w' in
      let r = generate w'' in let (a, b) = panic_run r.0 r.1 (panics w'') in (a, b, refl)
