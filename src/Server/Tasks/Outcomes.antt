-- ===== src/Server/Tasks/Outcomes.antt =====
-- What the task handlers answer and change, over every branch.
use kle_ng_api.Prelude.{
  ℕ, ◌≤◌, ◌≡◌, ◌≢◌, ◌↔◌, ◌⊎◌, Bool, true, String, Option, none, some, inl, inr, Option-cases,
  str_eq, if◌then◌else◌, arith, eq_iff, eq_refl, pos,
}
use kle_ng_api.Server.Http.{Request, Headers, send_err}
use kle_ng_api.Server.Tracker.{lookup, update_access, remove_task}
use kle_ng_api.Server.Tracker.Table.{lookup-insert, lookup-without}
use kle_ng_api.Server.Queue.{pending, retry, TaskInfo, Queue}
use kle_ng_api.Server.Tasks.{
  World, kicad_task, max_body_size, pending_count, post_new_task, delete_task,
}

module _ {Q : Type 0} (q : Queue Q) where
  -- `POST /api/pcb` answers 202 exactly when the method is POST, at most `limit` tasks are pending
  -- or active, the body can be read and has at most 10 MiB, it is a JSON object, and the queue
  -- takes the task.
  pub post_new_task_accepts :
      (limit : ℕ) (is_json : String → Bool) (now : ℕ) (r : Request) (h : Headers) (w : World Q)
      → ((post_new_task q (pos limit) is_json now r h w).0.status_code ≡ 202) ↔ (
          (r.method ≡ "POST")
          × (pending_count q w.queue ≤ limit)
          × (r.body_readable ≡ true)
          × (r.body_size ≤ max_body_size)
          × (is_json r.body ≡ true)
          × ((id : String) × ((q.enqueue (kicad_task r.body) w.queue).0 ≡ some id)))
  unfolding post_new_task send_err
  post_new_task_accepts limit is_json now r h w = (
    λ ok. ground (arith, eq_iff r.method "POST"),
    λ (m, n, b, s, j, (id, e)). ground (arith, eq_iff r.method "POST"),
  )

  -- A task that is accepted is in the tracker's table with the time of the request, and every other
  -- task with the time it had; any other answer leaves the tracker alone, and any but 202 and 500
  -- the queue as well.
  pub post_new_task_tracks :
      (limit : ℕ) (is_json : String → Bool) (now : ℕ) (r : Request) (h : Headers) (w : World Q)
      (other : String)
      → let a = post_new_task q (pos limit) is_json now r h w in
        ((id : String) × (a.0.status_code ≡ 202)
          × ((q.enqueue (kicad_task r.body) w.queue).0 ≡ some id)
          × (lookup id a.1.tracker.last_access ≡ some now)
          × (lookup other a.1.tracker.last_access
              ≡ (if str_eq id other then some now else lookup other w.tracker.last_access)))
        ⊎ ((a.0.status_code ≢ 202)
            × (a.1.tracker ≡ w.tracker)
            × (a.0.status_code ≢ 500 → a.1.queue ≡ w.queue))
  unfolding post_new_task send_err update_access
  post_new_task_tracks limit is_json now r h w other =
      elim (Option-cases (q.enqueue (kicad_task r.body) w.queue).0) [
        | inl e ↦ ground arith
        | inr (id, e) ↦ ground (
          arith,
          eq_refl id,
          lookup-insert id id now w.tracker.last_access,
          lookup-insert id other now w.tracker.last_access,
        )
      ]

  abbrev pub IsWaiting : Option TaskInfo → Type 0
  IsWaiting none = ⊥
  IsWaiting (some info) = (info.state ≡ pending) ⊎ (info.state ≡ retry)

  -- `DELETE /api/pcb/{task_id}` answers 200 only for a task that was pending or waiting for a
  -- retry, after the queue has deleted it, and then the task is tracked no longer.
  pub delete_task_cancels :
      (task_id : String) (h : Headers) (w : World Q)
      → (delete_task q task_id h w).0.status_code ≡ 200
      → IsWaiting (q.get_task_info "kicad" task_id w.queue)
        × ((q.delete_task "kicad" task_id w.queue).0 ≡ true)
        × (lookup task_id (delete_task q task_id h w).1.tracker.last_access ≡ none)
  unfolding delete_task send_err
  delete_task_cancels task_id h w ok =
      unfold remove_task in
      ground (arith, lookup-without task_id task_id w.tracker.last_access, eq_refl task_id)

  -- A request to cancel a task that is not waiting changes nothing, whatever it answers.
  pub delete_task_unchanged :
      (task_id : String) (h : Headers) (w : World Q)
      → ¬ IsWaiting (q.get_task_info "kicad" task_id w.queue)
      → (delete_task q task_id h w).1 ≡ w
  unfolding delete_task send_err
  delete_task_unchanged task_id h w idle = ground arith
