-- ===== src/Examples/Tasks.antt =====
-- Runs of the worker's handler.
use kle_ng_api.Prelude.{
  suc, ◌≡◌, refl, true, String, Option, none, some, List, [], ◌∷◌, ◌++◌, if◌then◌else◌, pos,
}
use kle_ng_api.Common.{RenderFile, ProjectFiles}
use kle_ng_api.Logstream.Publisher.{new_publisher, next_answer, publish_end}
use kle_ng_api.Server.Queue.{completed, archived, ResultBytes, TaskInfo}
use kle_ng_api.Worker.TaskHandler.{
  TaskWorld, Outcome, returned, failed, succeeds, run_task, handle_generate_kicad_project,
}
use kle_ng_api.Worker.TaskHandler.EndMarker.{ends, handler_ends_once}
use kle_ng_api.Worker.TaskHandler.Result.{told, error_matches_marker}
use kle_ng_api.Worker.TaskHandler.Verdict.{judge, shown, status_after, Settles}
use kle_ng_api.Worker.TaskHandler.Shown.{handler_shown}

abbrev new_world : TaskWorld
new_world = record {
  redis = record {
    answers = true ∷ true ∷ true ∷ true ∷ [];
    entries = [];
    wishes = [];
    trimmed = [];
    armed = [];
    expire_calls = 0;
  };
  publisher = new_publisher "";
  times = pos 5 ∷ pos 6 ∷ [];
  results = [];
  write_answers = true ∷ true ∷ true ∷ [];
}

abbrev a_board : TaskWorld → Outcome (String × ProjectFiles) × TaskWorld
a_board w = (returned ("/tmp/t1", record { renders = []; archive = "t1.zip" }), w)

abbrev no_storage : String → List RenderFile → TaskWorld → Outcome (Unit {0}) × TaskWorld
no_storage dir renders w = (failed "upload failed with status 507", w)

handler_ends_once_example :
    let w' = (handle_generate_kicad_project a_board no_storage "t1" none new_world).1 in
    let run =
      run_task a_board no_storage none (record new_world { publisher = new_publisher "t1" }) in
    ends w' ≡ (
      if (publish_end run.1 run.2.publisher run.2.redis).0
      then suc (ends new_world)
      else ends new_world)
handler_ends_once_example =
    handler_ends_once a_board no_storage (λ w. refl) (λ dir rs w. refl) "t1" none new_world

error_matches_marker_example :
    let (err, w') = handle_generate_kicad_project a_board no_storage "t1" none new_world in
    let run =
      run_task a_board no_storage none (record new_world { publisher = new_publisher "t1" }) in
    w'.redis.entries ≡ (
      if next_answer run.2.redis.answers
      then run.2.redis.entries
        ++ (run.2.publisher.key, ("event", "end") ∷ ("status", told err) ∷ []) ∷ []
      else run.2.redis.entries)
error_matches_marker_example =
    error_matches_marker a_board no_storage "t1" none new_world (λ v p. p) (λ dir rs v p. p)

-- asynq with `MaxRetry(0)`
abbrev settle : Option String → ResultBytes → TaskInfo
settle none bytes = record { id = "t1"; state = completed; result = bytes; last_err = "" }
settle (some e) bytes = record { id = "t1"; state = archived; result = bytes; last_err = e }

settle-Settles : Settles settle
settle-Settles = record {
  on_nil = λ bytes. refl;
  on_error = λ e bytes. refl;
  last_err_kept = λ e bytes. refl;
  result_kept = λ err bytes. go err bytes;
}
  where
    go : (err : Option String) (bytes : ResultBytes) → (settle err bytes).result ≡ bytes
    go none bytes = refl
    go (some e) bytes = refl

abbrev long_world : TaskWorld
long_world = record new_world { write_answers = true ∷ true ∷ true ∷ true ∷ [] }

handler_shown_example :
    status_after settle (handle_generate_kicad_project a_board no_storage "t1" none long_world)
    ≡ shown (judge none (a_board new_world).0 (no_storage "" [] new_world).0)
unfolding succeeds
handler_shown_example =
    handler_shown a_board no_storage (a_board new_world).0 (no_storage "" [] new_world).0
      (λ w. refl) (λ dir rs w. refl) (λ w. refl) (λ dir rs w. refl) settle settle-Settles "t1" none
      long_world (refl, (refl, (refl, (refl, tt))))
