-- ===== src/Server/Abandonment/Reaped.antt =====
-- What one round of the abandonment detector does to the task queue.
use kle_ng_api.Prelude.{
  ℕ, ◌≡◌, ◌≢◌, refl, sym, subst, Bool, true, false, ◌&&◌, String, Option, none, some, List, [], ◌∷◌,
  inl, inr, arith, str_eq, eq_iff, has_key, Bool-cases, if◌then◌else◌,
}
use kle_ng_api.Server.Tracker.{get_abandoned_tasks}
use kle_ng_api.Server.Queue.{pending, TaskInfo, Queue}
use kle_ng_api.Server.Tasks.{World}
use kle_ng_api.Server.Abandonment.{handle_abandoned_task, handle_all, check_abandoned_tasks}

abbrev pub is_pending : Option TaskInfo → Bool
is_pending none = false
is_pending (some info) = elim (info.state) [ pending ↦ true | _ ↦ false ]

-- What is relied on of `DeleteTask`: a deleted task is gone; an error leaves the queue as it was;
-- deleting one task changes neither what is told of another nor whether that can be deleted.
pub record IsInspector {Q : Type 0} (q : Queue Q) : Type 0 where
  pub gone :
      (k : String) (s : Q)
      → (q.delete_task "kicad" k s).0 ≡ true
      → q.get_task_info "kicad" k (q.delete_task "kicad" k s).1 ≡ none
  pub unchanged :
      (k : String) (s : Q)
      → (q.delete_task "kicad" k s).0 ≡ false
      → (q.delete_task "kicad" k s).1 ≡ s
  pub told :
      (j k : String) (s : Q)
      → j ≢ k
      → q.get_task_info "kicad" k (q.delete_task "kicad" j s).1 ≡ q.get_task_info "kicad" k s
  pub deletable :
      (j k : String) (s : Q)
      → j ≢ k
      → (q.delete_task "kicad" k (q.delete_task "kicad" j s).1).0 ≡ (q.delete_task "kicad" k s).0

module _ {Q : Type 0} (q : Queue Q) (laws : IsInspector q) where
  -- the deletion of a task succeeds
  abbrev can_delete : String → Q → Bool
  can_delete k s = (q.delete_task "kicad" k s).0

  -- a task is pending, and its deletion succeeds
  abbrev leaves : String → Q → Bool
  leaves k s = is_pending (q.get_task_info "kicad" k s) && can_delete k s

  -- what is told of a task afterwards
  abbrev After : Bool → String → Q → Q → Type 0
  After reported k s s' =
      (q.get_task_info "kicad" k s'
        ≡ (if reported && leaves k s then none else q.get_task_info "kicad" k s))
      × (is_pending (q.get_task_info "kicad" k s') ≡ true → can_delete k s' ≡ can_delete k s)

  handled_self :
      (k : String) (w : World Q) → After true k w.queue (handle_abandoned_task q k w).queue
  unfolding handle_abandoned_task
  handled_self k w = elim (Bool-cases (can_delete k w.queue)) [
    | inl deleted ↦ ground (arith, laws.gone k w.queue deleted, deleted)
    | inr failed ↦ ground (arith, laws.unchanged k w.queue failed, failed)
  ]

  handled :
      (j k : String) (w : World Q)
      → After (str_eq j k) k w.queue (handle_abandoned_task q j w).queue
  unfolding handle_abandoned_task
  handled j k w = elim (Bool-cases (str_eq j k)) [
    | inl same ↦
        let e : j ≡ k = (eq_iff j k).0 same in
        rw same (
          subst (λ i. After true k w.queue (handle_abandoned_task q i w).queue) (sym e)
            (handled_self k w))
    | inr other ↦
        let d : j ≢ k = λ e. cc (other, (eq_iff j k).1 e) in
        ground (arith, other, laws.told j k w.queue d, laws.deletable j k w.queue d)
  ]

  handled_all :
      (ids : List String) (k : String) (w : World Q)
      → After (has_key k ids) k w.queue (handle_all q ids w).queue
  unfolding handle_all
  handled_all [] k w = (refl, λ p. refl)
  handled_all (j ∷ ids) k w =
      let w' = handle_abandoned_task q j w in ground (arith, handled j k w, handled_all ids k w')

  -- If the queue's inspector behaves as documented, then in one round of the detector exactly the
  -- tasks leave the queue that are overdue and pending and whose deletion succeeds: what the queue
  -- tells of any other task, one that is active, one that is asked for in time or one whose deletion
  -- fails, is as before.
  pub check_abandoned_queue :
      (now : ℕ) (w : World Q) (k : String)
      → q.get_task_info "kicad" k (check_abandoned_tasks q now w).queue ≡ (
          if has_key k (get_abandoned_tasks now w.tracker)
            && (is_pending (q.get_task_info "kicad" k w.queue)
                && (q.delete_task "kicad" k w.queue).0)
          then none
          else q.get_task_info "kicad" k w.queue)
  unfolding check_abandoned_tasks
  check_abandoned_queue now w k = (handled_all (get_abandoned_tasks now w.tracker) k w).0
