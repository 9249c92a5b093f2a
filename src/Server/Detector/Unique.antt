-- ===== src/Server/Detector/Unique.antt =====
-- The tracker of a running server.
use kle_ng_api.Prelude.{
  ℕ, ◌+◌, ◌*◌, ◌<◌, ◌≤◌, ◌≡◌, ◌↔◌, refl, ap, sym, ◌∙◌, subst, Bool, true, false, String, Option,
  some, List, [], ◌∷◌, has_key, ℤ, pos, if◌then◌else◌, Option-cases, inl, inr, arith,
}
use kle_ng_api.Common.Env.{get_int_or_default}
use kle_ng_api.Server.Http.{Request}
use kle_ng_api.Server.Tracker.{
  TaskAccessTracker, lookup, update_access, remove_task, get_abandoned_tasks,
  new_task_access_tracker, minutes,
}
use kle_ng_api.Server.Tracker.Table.{HasUniqueKeys, insert-HasUniqueKeys, without-HasUniqueKeys}
use kle_ng_api.Server.Tracker.Abandoned.{abandoned_iff, minutes-pos}
use kle_ng_api.Server.Queue.{Queue}
use kle_ng_api.Server.Tasks.{World, kicad_task, post_new_task, get_task_status, delete_task}
use kle_ng_api.Server.Abandonment.{handle_abandoned_task, handle_all, check_abandoned_tasks}
use kle_ng_api.Server.Startup.{new_app}
use kle_ng_api.Server.Detector.{
  Server, Event, post, status, cancel, logs, tick, shut_down, queue_moves, handle, run, started,
}

-- What holds of the tracker from the start on.
pub record Kept (timeout : ℤ) (t : TaskAccessTracker) : Type 0 where
  pub keys : HasUniqueKeys t.last_access
  pub same : t.timeout ≡ timeout

module _ {timeout : ℤ} where
  update-Kept :
      (task_id : String) (now : ℕ) (t : TaskAccessTracker)
      → Kept timeout t
      → Kept timeout (update_access task_id now t)
  unfolding update_access
  update-Kept task_id now t k = record {
    keys = insert-HasUniqueKeys task_id now t.last_access k.keys;
    same = k.same;
  }

  remove-Kept :
      (task_id : String) (t : TaskAccessTracker)
      → Kept timeout t
      → Kept timeout (remove_task task_id t)
  unfolding remove_task
  remove-Kept task_id t k = record {
    keys = without-HasUniqueKeys task_id t.last_access k.keys;
    same = k.same;
  }

  module _ {Q : Type 0} (q : Queue Q) where
    handle_abandoned-Kept :
        (task_id : String) (w : World Q)
        → Kept timeout w.tracker
        → Kept timeout (handle_abandoned_task q task_id w).tracker
    unfolding handle_abandoned_task
    handle_abandoned-Kept task_id w k = ground (arith, remove-Kept task_id w.tracker k)

    handle_all-Kept :
        (ids : List String) (w : World Q)
        → Kept timeout w.tracker
        → Kept timeout (handle_all q ids w).tracker
    unfolding handle_all
    handle_all-Kept [] w k = k
    handle_all-Kept (id ∷ ids) w k =
        handle_all-Kept ids (handle_abandoned_task q id w) (handle_abandoned-Kept id w k)

    post-Kept :
        (limit : ℤ) (is_json_object : String → Bool) (now : ℕ) (r : Request) (w : World Q)
        → Kept timeout w.tracker
        → Kept timeout (post_new_task q limit is_json_object now r [] w).1.tracker
    unfolding post_new_task
    post-Kept limit is_json_object now r w k =
        elim (Option-cases (q.enqueue (kicad_task r.body) w.queue).0) [
          | inl e ↦ ground arith
          | inr (id, e) ↦ ground (arith, update-Kept id now w.tracker k)
        ]

    delete-Kept :
        (task_id : String) (w : World Q)
        → Kept timeout w.tracker
        → Kept timeout (delete_task q task_id [] w).1.tracker
    unfolding delete_task
    delete-Kept task_id w k = ground (arith, remove-Kept task_id w.tracker k)

    status-Kept :
        (now : ℕ) (task_id : String) (w : World Q)
        → Kept timeout w.tracker
        → Kept timeout (get_task_status q now task_id [] w).1.tracker
    unfolding get_task_status
    status-Kept now task_id w k = ground (arith, update-Kept task_id now w.tracker k)

    module _ (limit : ℤ) (is_json_object : String → Bool) where
      handle-Kept :
          (e : Event Q) (s : Server Q)
          → Kept timeout s.world.tracker
          → Kept timeout (handle q limit is_json_object e s).world.tracker
      unfolding handle check_abandoned_tasks
      handle-Kept (post now r) s k = post-Kept limit is_json_object now r s.world k
      handle-Kept (status now task_id) s k = status-Kept now task_id s.world k
      handle-Kept (cancel task_id) s k = delete-Kept task_id s.world k
      handle-Kept (logs now task_id) s k = update-Kept task_id now s.world.tracker k
      handle-Kept (tick now) s k =
          elim (s.detecting)
            as (λ b.
              Kept timeout
                (if b
                  then record s { world = check_abandoned_tasks q now s.world }
                  else s).world.tracker) [
                    | true ↦ handle_all-Kept (get_abandoned_tasks now s.world.tracker) s.world k
                    | false ↦ k
                  ]
      handle-Kept shut_down s k = k
      handle-Kept (queue_moves queue') s k = k

      run-Kept :
          (es : List (Event Q)) (s : Server Q)
          → Kept timeout s.world.tracker
          → Kept timeout (run q limit is_json_object es s).world.tracker
      unfolding run
      run-Kept [] s k = k
      run-Kept (e ∷ es) s k = run-Kept es (handle q limit is_json_object e s) (handle-Kept e s k)

started-Kept :
    {Q : Type 0} (lookup_env : String → Option String) (queue : Q)
    → Kept
        (new_app lookup_env).task_access_tracker.timeout
        (started (new_app lookup_env) queue).world.tracker
unfolding started new_app new_task_access_tracker
started-Kept lookup_env queue = record { keys = tt; same = refl }

-- Where TASK_ABANDONMENT_TIMEOUT, or its default, is a number `m` of minutes that fits into an int64
-- of nanoseconds: whatever a server has been asked since its start, and whenever its detector
-- looks, exactly the tasks are reported as abandoned that have an access time in its table which
-- lies more than `m` minutes before; no task stands twice in the table.
pub run_abandoned :
    {Q : Type 0} (q : Queue Q) (limit : ℤ) (is_json_object : String → Bool)
    (lookup_env : String → Option String) (queue : Q) (es : List (Event Q)) (m now : ℕ)
    (task_id : String)
    → get_int_or_default lookup_env "TASK_ABANDONMENT_TIMEOUT" (pos 15) ≡ pos m
    → m ≤ 153_722_867
    → let t = (run q limit is_json_object es (started (new_app lookup_env) queue)).world.tracker in
      HasUniqueKeys t.last_access
      × ((has_key task_id (get_abandoned_tasks now t) ≡ true) ↔ (
          (last : ℕ) × (lookup task_id t.last_access ≡ some last)
          × (last + m * 60_000_000_000 < now)))
unfolding new_app new_task_access_tracker
run_abandoned q limit is_json_object lookup_env queue es m now task_id h fits =
    let n = m * 60_000_000_000 in
    let k = run-Kept q limit is_json_object es _ (started-Kept lookup_env queue) in
    let t = (run q limit is_json_object es (started (new_app lookup_env) queue)).world.tracker in
    let e : t.timeout ≡ pos n = k.same ∙ ap minutes h ∙ minutes-pos m fits in
    (
      k.keys,
      subst
          (λ (z : ℤ).
            (has_key task_id
                (get_abandoned_tasks now (record { last_access = t.last_access; timeout = z }))
              ≡ true)
            ↔ ((last : ℕ) × (lookup task_id t.last_access ≡ some last) × (last + n < now)))
          (sym e) (abandoned_iff now n t.last_access task_id k.keys),
    )
