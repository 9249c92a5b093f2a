-- ===== src/Worker/TaskHandler/Verdict.antt =====
-- A short account of a task: how it ends, and what a client is told of it.
use kle_ng_api.Prelude.{◌≡◌, refl, String, Option, none, some, List, [], ◌∷◌, ◌++◌}
use kle_ng_api.Go.Strings.{◌<>◌}
use kle_ng_api.Common.{Progress, ProjectFiles}
use kle_ng_api.Server.Http.{TaskResult, empty, failure, files}
use kle_ng_api.Server.Queue.{completed, archived, ResultBytes, no_bytes, written, TaskInfo}
use kle_ng_api.Server.Tasks.{status_of}
use kle_ng_api.Worker.TaskHandler.{TaskWorld, Outcome, returned, failed, panicked}

-- how a task ends
pub data Verdict : Type 0 where
  built : ProjectFiles → Verdict
  broken : String → Verdict
  crashed : Verdict

-- the account: from what the parser, the generator and the upload do
unfoldable pub judge :
    Option String → Outcome (String × ProjectFiles) → Outcome (Unit {0}) → Verdict
judge (some e) made sent = broken ("failed to parse request JSON: " <> e)
judge none (panicked reason) sent = crashed
judge none (failed e) sent = broken ("PCB generation failed: " <> e)
judge none (returned (dir, f)) (panicked reason) = crashed
judge none (returned (dir, f)) (failed e) = broken ("Filer upload failed: " <> e)
judge none (returned (dir, f)) (returned ok) = built f

-- the status and the result that a client is told
unfoldable pub shown : Verdict → String × TaskResult
shown (built f) = ("SUCCESS", files f)
shown (broken e) = ("FAILURE", failure e)
shown crashed = ("SUCCESS", empty)

-- the result that a task is left with
unfoldable pub last_result : List Progress → ResultBytes
last_result [] = no_bytes
last_result (p ∷ []) = written p
last_result (p ∷ q ∷ results) = last_result (q ∷ results)

-- What asynq makes of a task without retries: one whose handler returns nil is completed, one whose
-- handler returns an error is archived with its text; the result is what was written last.
pub record Settles (settle : Option String → ResultBytes → TaskInfo) : Type 0 where
  pub on_nil : (bytes : ResultBytes) → (settle none bytes).state ≡ completed
  pub on_error : (e : String) (bytes : ResultBytes) → (settle (some e) bytes).state ≡ archived
  pub last_err_kept : (e : String) (bytes : ResultBytes) → (settle (some e) bytes).last_err ≡ e
  pub result_kept : (err : Option String) (bytes : ResultBytes) → (settle err bytes).result ≡ bytes

pub last_result-append :
    (results : List Progress) (p : Progress) → last_result (results ++ p ∷ []) ≡ written p
unfolding last_result
last_result-append [] p = refl
last_result-append (q ∷ []) p = refl
last_result-append (q ∷ r ∷ results) p = last_result-append (r ∷ results) p

-- what the server makes of a task that has run
abbrev pub status_after :
    (Option String → ResultBytes → TaskInfo) → Option String × TaskWorld → String × TaskResult
status_after settle (err, w) =
    let info = settle err (last_result w.results) in status_of info.state info.result info.last_err
