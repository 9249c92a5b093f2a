-- ===== src/Server/Abandonment/Sweep.antt =====
-- What one round of the abandonment detector does to the tracked tasks.
use kle_ng_api.Prelude.{
  ℕ, ◌≡◌, ◌≢◌, refl, ap, ◌∙◌, Bool, true, false, String, Option, none, some, List, [], ◌∷◌, inl,
  inr, arith, str_eq, eq_iff, has_key, Bool-cases, if◌then◌else◌,
}
use kle_ng_api.Server.Tracker.{lookup, remove_task, get_abandoned_tasks}
use kle_ng_api.Server.Tracker.Table.{lookup-without}
use kle_ng_api.Server.Queue.{active, TaskInfo, Queue}
use kle_ng_api.Server.Tasks.{World}
use kle_ng_api.Server.Abandonment.{handle_abandoned_task, handle_all, check_abandoned_tasks}

abbrev pub is_running : Option TaskInfo → Bool
is_running none = false
is_running (some info) = elim (info.state) [ active ↦ true | _ ↦ false ]

-- `q` is the task queue. Deleting one task leaves what the queue tells of the others alone.
module _ {Q : Type 0} (q : Queue Q)
    (frame : (j k : String) (s : Q)
      → j ≢ k
      → q.get_task_info "kicad" k (q.delete_task "kicad" j s).1 ≡ q.get_task_info "kicad" k s) where
  handle-info :
      (j k : String) (w : World Q)
      → j ≢ k
      → q.get_task_info "kicad" k (handle_abandoned_task q j w).queue
        ≡ q.get_task_info "kicad" k w.queue
  unfolding handle_abandoned_task
  handle-info j k w h = ground (arith, frame j k w.queue h)

  handle-lookup :
      (j k : String) (w : World Q)
      → lookup k (handle_abandoned_task q j w).tracker.last_access ≡ (
          if str_eq j k
          then (if is_running (q.get_task_info "kicad" k w.queue)
              then lookup k w.tracker.last_access
              else none)
          else lookup k w.tracker.last_access)
  unfolding handle_abandoned_task remove_task
  handle-lookup j k w = ground (arith, lookup-without j k w.tracker.last_access, eq_iff j k)

  handle_running :
      (k : String) (w : World Q)
      → is_running (q.get_task_info "kicad" k w.queue) ≡ true
      → handle_abandoned_task q k w ≡ w
  unfolding handle_abandoned_task
  handle_running k w h = ground arith

  handle_all-lookup :
      (ids : List String) (k : String) (w : World Q)
      → lookup k (handle_all q ids w).tracker.last_access ≡ (
          if has_key k ids
          then (if is_running (q.get_task_info "kicad" k w.queue)
              then lookup k w.tracker.last_access
              else none)
          else lookup k w.tracker.last_access)
  unfolding handle_all
  handle_all-lookup [] k w = refl
  handle_all-lookup (j ∷ ids) k w =
      let w' = handle_abandoned_task q j w in
      elim (Bool-cases (str_eq j k)) [
        | inl same ↦
            let e : j ≡ k = (eq_iff j k).0 same in
            elim (Bool-cases (is_running (q.get_task_info "kicad" k w.queue))) [
              | inl run ↦
                  let still : w' ≡ w = rw e (handle_running k w run) in
                  rw (same, run)
                    (ap (λ v. lookup k (handle_all q ids v).tracker.last_access) still
                      ∙ handle_all-lookup ids k w
                      ∙ rw run (ground arith))
              | inr idle ↦
                  let gone : lookup k w'.tracker.last_access ≡ none =
                    handle-lookup j k w ∙ rw (same, idle) in
                  rw (same, idle) (handle_all-lookup ids k w' ∙ rw gone (ground arith))
            ]
        | inr other ↦
            let d : j ≢ k = λ e. cc (other, (eq_iff j k).1 e) in
            let kept : lookup k w'.tracker.last_access ≡ lookup k w.tracker.last_access =
              handle-lookup j k w ∙ rw other in
            rw other (handle_all-lookup ids k w' ∙ rw (kept, handle-info j k w d))
      ]

  -- In one round of the detector, exactly the tasks that are overdue and that the queue does not
  -- report as active lose their entry: a task reported as abandoned keeps its last access if it is
  -- active and has none afterwards otherwise; the entry of every other task is unchanged.
  pub check_abandoned_lookup :
      (now : ℕ) (w : World Q) (k : String)
      → lookup k (check_abandoned_tasks q now w).tracker.last_access ≡ (
          if has_key k (get_abandoned_tasks now w.tracker)
          then (if is_running (q.get_task_info "kicad" k w.queue)
              then lookup k w.tracker.last_access
              else none)
          else lookup k w.tracker.last_access)
  unfolding check_abandoned_tasks
  check_abandoned_lookup now w k = handle_all-lookup (get_abandoned_tasks now w.tracker) k w
