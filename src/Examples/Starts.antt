-- ===== src/Examples/Starts.antt =====
-- Server and worker started, the routes and the detector of a running server.
use kle_ng_api.Prelude.{
  ℕ, arith, ◌+◌, ◌*◌, ◌<◌, ◌≡◌, ◌↔◌, ◌⊎◌, refl, Bool, true, ◌&&◌, String, Option, none, some, List,
  [], ◌∷◌, has_key, if◌then◌else◌, pos,
}
use kle_ng_api.Go.Decimal.{parse_int, parse_unsigned, read_digits, is_digit}
use kle_ng_api.Common.Env.{get_int_or_default}
use kle_ng_api.Server.Http.{Request, Response}
use kle_ng_api.Server.Tracker.{lookup, get_abandoned_tasks}
use kle_ng_api.Server.Tracker.Table.{HasUniqueKeys}
use kle_ng_api.Server.Tasks.{World, kicad_task}
use kle_ng_api.Server.Workers.{get_version}
use kle_ng_api.Server.Filer.{FilerResponse}
use kle_ng_api.Server.Cors.{with_cors, restricted}
use kle_ng_api.Server.Cors.Policy.{Trusts}
use kle_ng_api.Server.Abandonment.{check_abandoned_tasks}
use kle_ng_api.Server.Abandonment.Reaped.{is_pending, check_abandoned_queue}
use kle_ng_api.Server.Startup.{new_app, get_env_int}
use kle_ng_api.Server.Startup.EnvInt.{get_env_int_lem}
use kle_ng_api.Server.Routes.{api, show_version, serve}
use kle_ng_api.Server.Routes.Trust.{Trusted, serve-Trusts}
use kle_ng_api.Server.Detector.{Event, status, tick, logs, run, started}
use kle_ng_api.Server.Detector.Unique.{run_abandoned}
use kle_ng_api.Worker.Startup.{has_queue, ready_worker}
use kle_ng_api.Worker.Startup.Agreement.{ready_worker-new_app}
use kle_ng_api.Examples.Queues.{one_task, one_task-IsInspector}

abbrev unset : String → Option String
unset key = none

ready_worker-new_app_example :
    let a = new_app unset in
    let w = ready_worker unset in
    (a.asynq_client ≡ w.asynq_redis)
    × (a.asynq_inspector ≡ w.asynq_redis)
    × (a.redis_client ≡ w.stream_redis)
    × (a.filer_url ≡ w.filer_url)
    × (has_key (kicad_task "{}").task_type w.handled_types ≡ true)
    × ((has_queue (kicad_task "{}").queue_name w.queues ≡ true)
        ↔ ((unset "QUEUE_NAME" ≡ none) ⊎ (unset "QUEUE_NAME" ≡ some "kicad")))
ready_worker-new_app_example = ready_worker-new_app unset "{}"

-- MAX_QUEUE_SIZE=10 tasks
abbrev ten_tasks : String → Option String
ten_tasks key = some "10 tasks"

get_env_int_lem_example :
    (get_env_int ten_tasks "MAX_QUEUE_SIZE" (pos 2) ≡ pos 10)
    × (◌≡◌ {A = String} " tasks" ""
        → get_int_or_default ten_tasks "MAX_QUEUE_SIZE" (pos 2)
          ≡ get_env_int ten_tasks "MAX_QUEUE_SIZE" (pos 2))
unfolding parse_int parse_unsigned read_digits is_digit
get_env_int_lem_example =
    get_env_int_lem ten_tasks "MAX_QUEUE_SIZE" "10" " tasks" (pos 10) (pos 2) (pos 2) refl refl refl

abbrev editor_origin : String
editor_origin = "https://editor.keyboard-tools.xyz"

abbrev get_version_request : Request
get_version_request = record {
  method = "GET";
  origin = editor_origin;
  body = "";
  body_size = 0;
  body_readable = true;
}

abbrev watched : World Bool
watched = record {
  tracker = record { last_access = ("t1", 100) ∷ []; timeout = pos 500 };
  queue = true;
}

abbrev no_file : String → Option FilerResponse
no_file url = none

abbrev any_body : String → Bool
any_body body = true

abbrev version_answer : Response
version_answer = get_version "dev" (restricted editor_origin [])

serve-Trusts_example :
    Trusts get_version_request version_answer.headers
    ↔ Trusted true editor_origin get_version_request (api show_version)
unfolding serve with_cors restricted get_version
serve-Trusts_example =
    serve-Trusts one_task (pos 2) any_body any_body no_file "http://filer" "dev" 1000 "" ""
      (λ url resp e. cc e) true editor_origin (api show_version) get_version_request watched watched
      version_answer (λ e. cc e) refl

-- A task is asked for, watched and left alone for a long time.
abbrev a_day : List (Event Bool)
a_day = status 5 "t1" ∷ logs 9 "t1" ∷ tick 20 ∷ []

run_abandoned_example :
    let t = (run one_task (pos 2) any_body a_day (started (new_app unset) true)).world.tracker in
    HasUniqueKeys t.last_access
    × ((has_key "t1" (get_abandoned_tasks 1_000_000_000_000 t) ≡ true) ↔ (
        (last : ℕ) × (lookup "t1" t.last_access ≡ some last)
        × (last + 15 * 60_000_000_000 < 1_000_000_000_000)))
unfolding get_int_or_default
run_abandoned_example =
    run_abandoned one_task (pos 2) any_body unset true a_day 15 1_000_000_000_000 "t1" refl
      (omega arith)

check_abandoned_queue_example :
    one_task.get_task_info "kicad" "t1" (check_abandoned_tasks one_task 1000 watched).queue ≡ (
      if has_key "t1" (get_abandoned_tasks 1000 watched.tracker)
        && (is_pending (one_task.get_task_info "kicad" "t1" watched.queue)
            && (one_task.delete_task "kicad" "t1" watched.queue).0)
      then none
      else one_task.get_task_info "kicad" "t1" watched.queue)
check_abandoned_queue_example =
    check_abandoned_queue one_task one_task-IsInspector 1000 watched "t1"
