-- ===== src/Server/Abandonment.antt =====
-- `checkAbandonedTasks` and `handleAbandonedTask` of backend/cmd/server/main.go.
pub mod Sweep
pub mod Reaped
use kle_ng_api.Prelude.{ℕ, Bool, true, false, String, Option, none, some, List, [], ◌∷◌}
use kle_ng_api.Server.Tracker.{remove_task, get_abandoned_tasks}
use kle_ng_api.Server.Queue.{TaskState, active, pending, archived, completed, TaskInfo, Queue}
use kle_ng_api.Server.Tasks.{World}

untrack : {Q : Type 0} → String → World Q → World Q
untrack task_id w = record w { tracker = remove_task task_id w.tracker }

module _ {Q : Type 0} (q : Queue Q) where
  -- the `switch` on the state of a task of the queue
  handle_in_state : TaskState → String → World Q → World Q
  unfolding untrack
  handle_in_state pending task_id w =
      let (deleted, queue') = q.delete_task "kicad" task_id w.queue in
      untrack task_id (record w { queue = queue' })
  handle_in_state active task_id w = w
  handle_in_state completed task_id w = untrack task_id w
  handle_in_state archived task_id w = untrack task_id w
  handle_in_state _ task_id w = untrack task_id w

  unfoldable pub handle_abandoned_task : String → World Q → World Q
  unfolding handle_in_state
  handle_abandoned_task task_id w = elim (q.get_task_info "kicad" task_id w.queue) [
    | some info ↦ handle_in_state info.state task_id w
    | none ↦ elim (q.get_task_info "kicad:archived" task_id w.queue) [
      | none ↦ untrack task_id w
      | some info ↦ untrack task_id w
    ]
  ]

  -- the loop; with no abandoned task it makes no round
  unfoldable pub handle_all : List String → World Q → World Q
  handle_all [] w = w
  handle_all (task_id ∷ ids) w = handle_all ids (handle_abandoned_task task_id w)

  unfoldable pub check_abandoned_tasks : ℕ → World Q → World Q
  unfolding handle_all
  check_abandoned_tasks now w = handle_all (get_abandoned_tasks now w.tracker) w
