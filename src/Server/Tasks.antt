-- ===== src/Server/Tasks.antt =====
-- `KicadPostNewTask`, `KicadGetTaskStatus`, `KicadDeleteTask` and `successResult` of
-- backend/cmd/server/main.go. `now` is the time of the request. JSON bodies are data.
pub mod Outcomes
use kle_ng_api.Prelude.{
  ℕ, ◌+◌, ◌*◌, Bool, true, false, not, ◌||◌, String, Option, none, some, [], ◌∷◌, ltb, leb, str_eq,
  if◌then◌else◌, ℤ, pos, ltz,
}
use kle_ng_api.Common.{Progress}
use kle_ng_api.Server.Http.{
  TaskResult, null, empty, message, failure, files, task, cancelled, no_body, Request, Response,
  Headers, send_err, set_header,
}
use kle_ng_api.Server.Tracker.{TaskAccessTracker, update_access, remove_task}
use kle_ng_api.Server.Queue.{
  TaskState, active, pending, retry, archived, completed, ResultBytes, no_bytes, malformed, written,
  TaskInfo, Task, Queue,
}

-- What the handlers share: the tracker and the queue.
pub record World (Q : Type 0) : Type 0 where
  pub tracker : TaskAccessTracker
  pub queue : Q

-- `10*1024*1024`
abbrev pub max_body_size : ℕ
max_body_size = 10 * 1024 * 1024

files_result : Progress → TaskResult
files_result p = elim p.files [ none ↦ empty | some f ↦ files f ]

unfoldable pub success_result : ResultBytes → TaskResult
unfolding files_result
success_result no_bytes = empty
success_result malformed = empty
success_result (written p) = files_result p

-- the progress message of a running task
unfoldable pub progress_result : ResultBytes → TaskResult
progress_result no_bytes = empty
progress_result malformed = empty
progress_result (written p) = message p.message

-- the `switch` of `KicadGetTaskStatus`: `task_status` and `task_result`
unfoldable pub status_of : TaskState → ResultBytes → String → String × TaskResult
unfolding success_result progress_result
status_of pending bytes last_err = ("PENDING", empty)
status_of active bytes last_err = ("PROGRESS", progress_result bytes)
status_of completed bytes last_err = ("SUCCESS", success_result bytes)
status_of archived bytes last_err =
    if str_eq last_err "" then ("SUCCESS", success_result bytes) else ("FAILURE", failure last_err)
status_of _ bytes last_err = ("UNKNOWN", empty)

ok_response : Headers → Response
ok_response h = record { status_code = 200; headers = h; body = no_body }

-- the task that `KicadPostNewTask` makes of a body
unfoldable pub kicad_task : String → Task
kicad_task body = record {
  task_type = "generate_kicad_project";
  payload = body;
  max_retry = 0;
  timeout = 10 * 60 * 1_000_000_000;
  queue_name = "kicad";
  retention = 24 * 60 * 60 * 1_000_000_000;
}

module _ {Q : Type 0} (q : Queue Q) where
  unfoldable pub pending_count : Q → ℕ
  pending_count s = elim (q.get_queue_info "kicad" s) [
    | none ↦ 0
    | some (waiting, running) ↦ waiting + running
  ]

  -- `max_queue_size` is `getEnvInt("MAX_QUEUE_SIZE", 2)`; `is_json_object` says whether
  -- `json.Unmarshal` reads a body into a map.
  unfoldable pub post_new_task :
      ℤ → (String → Bool) → ℕ → Request → Headers → World Q → Response × World Q
  unfolding pending_count ok_response
  post_new_task max_queue_size is_json_object now r h w =
      if str_eq r.method "POST"
      then (if ltz max_queue_size (pos (pending_count w.queue))
          then (send_err h 503 "Server overloaded, try again later", w)
          else if not r.body_readable || ltb max_body_size r.body_size
          then (send_err h 400 "Failed to read request body", w)
          else if not (is_json_object r.body)
          then (send_err h 400 "Invalid JSON in request body", w)
          else (let (enqueued, queue') = q.enqueue (kicad_task r.body) w.queue in
              elim enqueued [
                | none ↦ (send_err h 500 "Failed to enqueue task", record w { queue = queue' })
                | some id ↦ (
                  record {
                    status_code = 202;
                    headers = h;
                    body = task (record { task_id = id; task_status = "pending"; result = null });
                  },
                  record { tracker = update_access id now w.tracker; queue = queue' },
                )
              ]))
      else if str_eq r.method "OPTIONS"
      then (ok_response h, w)
      else (send_err h 405 "Method not allowed", w)

  -- in the queue, or else among the archived tasks
  unfoldable pub find_task : String → Q → Option TaskInfo
  find_task task_id s = elim (q.get_task_info "kicad" task_id s) [
    | some info ↦ some info
    | none ↦ q.get_task_info "kicad:archived" task_id s
  ]

  unfoldable pub get_task_status : ℕ → String → Headers → World Q → Response × World Q
  unfolding find_task status_of
  get_task_status now task_id h w =
      let w' = record w { tracker = update_access task_id now w.tracker } in
      elim (find_task task_id w'.queue) [
        | none ↦ (send_err h 404 "Task not found", w')
        | some info ↦
            let (name, result_value) = status_of info.state info.result info.last_err in
            (
              record {
                status_code = 200;
                headers = h;
                body =
                    task (record { task_id = info.id; task_status = name; result = result_value });
              },
              w',
            )
      ]

  -- the case of a task that may be cancelled
  cancel_task : String → Headers → World Q → Response × World Q
  cancel_task task_id h w =
      let (deleted, queue') = q.delete_task "kicad" task_id w.queue in
      if deleted
      then (
        record {
          status_code = 200;
          headers = set_header "Content-Type" "application/json" h;
          body = cancelled task_id;
        },
        record { tracker = remove_task task_id w.tracker; queue = queue' },
      )
      else (send_err h 500 "Failed to cancel task", record w { queue = queue' })

  -- the `switch` of `KicadDeleteTask`
  delete_in_state : TaskState → String → Headers → World Q → Response × World Q
  unfolding cancel_task
  delete_in_state pending task_id h w = cancel_task task_id h w
  delete_in_state retry task_id h w = cancel_task task_id h w
  delete_in_state active task_id h w =
      (send_err h 409 "Cannot cancel task that is currently running", w)
  delete_in_state completed task_id h w = (send_err h 410 "Task has already completed", w)
  delete_in_state archived task_id h w = (send_err h 410 "Task has already completed", w)
  delete_in_state _ task_id h w = (send_err h 500 "Unknown task state", w)

  unfoldable pub delete_task : String → Headers → World Q → Response × World Q
  unfolding delete_in_state
  delete_task task_id h w = elim (q.get_task_info "kicad" task_id w.queue) [
    | some info ↦ delete_in_state info.state task_id h w
    | none ↦ elim (q.get_task_info "kicad:archived" task_id w.queue) [
      | none ↦ (send_err h 404 "Task not found", w)
      | some info ↦ (send_err h 410 "Task has already completed or failed", w)
    ]
  ]
