-- ===== src/Worker/TaskHandler/Shown.antt =====
-- What a client is told of a task when its handler has run: the worker's handler, asynq's rule for
-- its error, and the server's `KicadGetTaskStatus`, against a short account of the three.
use text.Mathlib.TextLemmas.{append-eq-nil_iff}
use kle_ng_api.Prelude.{
  ℕ, zero, suc, ◌≡◌, refl, sym, ap, subst, Bool, true, false, String, Option, none, some, List,
  rest_of, str_eq, eq_iff, Bool-cases, inl, inr, arith,
}
use kle_ng_api.Go.Strings.{◌<>◌}
use kle_ng_api.Common.{Progress, ProjectFiles, RenderFile}
use kle_ng_api.Logstream.Publisher.{new_publisher}
use kle_ng_api.Server.Http.{empty, files}
use kle_ng_api.Server.Queue.{ResultBytes, written, TaskInfo}
use kle_ng_api.Server.Tasks.{status_of, success_result}
use kle_ng_api.Worker.TaskHandler.Verdict.{
  Verdict, built, broken, crashed, judge, shown, status_after, last_result, last_result-append,
  Settles,
}
use kle_ng_api.Worker.TaskHandler.{
  TaskWorld, Outcome, returned, failed, panicked, Run, succeeds, write_result, report_progress,
  report_result, say, recover_panic, finish_task, upload_task, run_task,
  handle_generate_kicad_project,
}

-- the next writes to the result succeed
abbrev pub Writes : ℕ → List Bool → Type 0
Writes zero answers = Unit
Writes (suc k) answers = (succeeds answers ≡ true) × Writes k (rest_of answers)

write_result-last :
    (p : Progress) (w : TaskWorld)
    → succeeds w.write_answers ≡ true
    → last_result (write_result p w).results ≡ written p
unfolding write_result
write_result-last p w h = rw h (last_result-append w.results p)

-- a run that ends as the account says, before the deferred functions
abbrev Ends : Verdict → Run → Type 0
Ends (built f) (err, status, w) = (err ≡ none) × (success_result (last_result w.results) ≡ files f)
Ends (broken e) (err, status, w) = (err ≡ some e) × (str_eq e "" ≡ false)
Ends crashed (err, status, w) = (err ≡ none) × (success_result (last_result w.results) ≡ empty)

-- a text with a beginning is not empty
nonempty_start : (s e : String) → str_eq s "" ≡ false → str_eq (s <> e) "" ≡ false
nonempty_start s e h = elim (Bool-cases (str_eq (s <> e) "")) [
  | inr other ↦ other
  | inl same ↦
      let nil : s ≡ "" = (append-eq-nil_iff.0 ((eq_iff (s <> e) "").0 same)).0 in
      absurd (ground (arith, h, (eq_iff s "").1 nil))
]

crash_Ends :
    (reason : String) (w : TaskWorld)
    → succeeds w.write_answers ≡ true
    → Ends crashed (recover_panic reason w)
unfolding recover_panic report_progress success_result
crash_Ends reason w h = (
  refl,
  ap success_result
      (write_result-last (record { message = "Panic: " <> reason; files = none }) w h),
)

finish_Ends :
    (parsed : (String × ProjectFiles)) (o : Outcome (Unit {0})) (w : TaskWorld)
    → Writes 1 w.write_answers
    → Ends (judge none (returned parsed) o) (finish_task parsed.1 (o, w))
unfolding finish_task judge report_result say write_result success_result
finish_Ends (dir, f) (panicked reason) w h = crash_Ends reason w h.0
finish_Ends (dir, f) (failed e) w h = (refl, nonempty_start "Filer upload failed: " e refl)
finish_Ends (dir, f) (returned ok) w h = (
  refl,
  ap success_result (
      write_result-last (record { message = "Task completed successfully"; files = some f }) w h.0),
)

-- the writes of progress, and what is said, leave the writes to come
report_progress-Writes :
    (k : ℕ) (text : String) (w : TaskWorld)
    → Writes (suc k) w.write_answers
    → Writes k (report_progress text w).write_answers
unfolding report_progress write_result
report_progress-Writes k text w h = h.1

stage-Writes :
    (k : ℕ) (text : String) (w : TaskWorld)
    → Writes (suc k) w.write_answers
    → Writes k (say text (report_progress text w)).write_answers
unfolding say
stage-Writes k text w h = report_progress-Writes k text w h

-- The generator and the upload write no results, and end the same way whenever they are called.
module _ (generate : TaskWorld → Outcome (String × ProjectFiles) × TaskWorld)
    (upload : String → List RenderFile → TaskWorld → Outcome (Unit {0}) × TaskWorld)
    (made : Outcome (String × ProjectFiles)) (sent : Outcome (Unit {0}))
    (generate_ends : (w : TaskWorld) → (generate w).0 ≡ made)
    (upload_ends : (dir : String) (renders : List RenderFile) (w : TaskWorld)
      → (upload dir renders w).0 ≡ sent)
    (generate_keeps : (w : TaskWorld) → (generate w).1.write_answers ≡ w.write_answers)
    (upload_keeps : (dir : String) (renders : List RenderFile) (w : TaskWorld)
      → (upload dir renders w).1.write_answers ≡ w.write_answers) where
  upload_Ends :
      (o : Outcome (String × ProjectFiles)) (w : TaskWorld)
      → Writes 2 w.write_answers
      → Ends (judge none o sent) (upload_task generate upload (o, w))
  unfolding upload_task judge
  upload_Ends (panicked reason) w h = crash_Ends reason w h.0
  upload_Ends (failed e) w h = (refl, nonempty_start "PCB generation failed: " e refl)
  upload_Ends (returned (dir, f)) w h =
      let w' = say "Uploading files to storage" (report_progress "Uploading files to storage" w) in
      let r = upload dir f.renders w' in
      let kept : Writes 1 w'.write_answers = stage-Writes 1 "Uploading files to storage" w h in
      subst (λ o. Ends (judge none (returned (dir, f)) o) (finish_task f (r.0, r.1)))
        (upload_ends dir f.renders w')
        (finish_Ends (dir, f) r.0 r.1 (subst (Writes 1) (sym (upload_keeps dir f.renders w')) kept))

  run_Ends :
      (parse_error : Option String) (w : TaskWorld)
      → Writes 4 w.write_answers
      → Ends (judge parse_error made sent) (run_task generate upload parse_error w)
  unfolding run_task judge
  run_Ends (some e) w h = (refl, nonempty_start "failed to parse request JSON: " e refl)
  run_Ends none w h =
      let w' = report_progress "Initializing task" w in
      let w'' =
        say "Generating KiCad PCB files" (report_progress "Generating KiCad PCB files" w') in
      let r = generate w'' in
      let kept : Writes 2 w''.write_answers =
        stage-Writes 2 "Generating KiCad PCB files" w'
          (report_progress-Writes 3 "Initializing task" w h) in
      subst (λ o. Ends (judge none o sent) (upload_task generate upload (r.0, r.1)))
        (generate_ends w'') (upload_Ends r.0 r.1 (subst (Writes 2) (sym (generate_keeps w'')) kept))

  module _ (settle : Option String → ResultBytes → TaskInfo) (settles : Settles settle) where
    settled : (v : Verdict) (run : Run) → Ends v run → status_after settle (run.0, run.2) ≡ shown v
    unfolding shown status_of
    settled (built f) (err, status, w) h =
        let bytes = last_result w.results in
        rw (h.0, settles.on_nil bytes, settles.result_kept none bytes, h.1) refl
    settled (broken e) (err, status, w) h =
        let bytes = last_result w.results in
        rw (h.0, settles.on_error e bytes, settles.last_err_kept e bytes, h.1) refl
    settled crashed (err, status, w) h =
        let bytes = last_result w.results in
        rw (h.0, settles.on_nil bytes, settles.result_kept none bytes, h.1) refl

    -- If the writes to the task's result succeed, and asynq settles a task as documented, then a
    -- client that asks when the handler has run is told what the short account says: SUCCESS and
    -- the manifest of the files if the generator and the upload return; FAILURE and the text of
    -- the error that came first, if one fails or the payload cannot be read; and, for a panic in
    -- either, SUCCESS without files.
    pub handler_shown :
        (task_id : String) (parse_error : Option String) (w : TaskWorld)
        → Writes 4 w.write_answers
        → status_after settle (handle_generate_kicad_project generate upload task_id parse_error w)
          ≡ shown (judge parse_error made sent)
    unfolding handle_generate_kicad_project
    handler_shown task_id parse_error w h =
        let w' = record w { publisher = new_publisher task_id } in
        settled (judge parse_error made sent) (run_task generate upload parse_error w')
          (run_Ends parse_error w' h)
