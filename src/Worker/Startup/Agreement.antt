-- ===== src/Worker/Startup/Agreement.antt =====
-- Server and worker, started in one environment.
use kle_ng_api.Prelude.{
  ◌≡◌, ◌↔◌, ◌⊎◌, refl, sym, ap, ◌∙◌, Bool, true, false, ◌||◌, String, Option, none, some, str_eq,
  eq_iff, has_key, Option-cases, Bool-cases, inl, inr,
}
use kle_ng_api.Common.Env.{getenv_or_default}
use kle_ng_api.Server.Tasks.{kicad_task}
use kle_ng_api.Server.Startup.{new_app}
use kle_ng_api.Worker.Startup.{load_config, has_queue, set_weight, queues_of, ready_worker}

or_false : (b : Bool) → (b || false) ≡ b
or_false true = refl
or_false false = refl

queues_of_kicad : (name : String) → has_queue "kicad" (queues_of name) ≡ str_eq name "kicad"
unfolding queues_of has_queue set_weight
queues_of_kicad name = elim (Bool-cases (str_eq name "critical")) [
  | inl e ↦ rw ((eq_iff name "critical").0 e) refl
  | inr e ↦ rw e (or_false (str_eq name "kicad"))
]

-- the queue that the worker names is the server's
named :
    (lookup : String → Option String) (name : String)
    → getenv_or_default lookup "QUEUE_NAME" "kicad" ≡ name
    → (has_queue "kicad" (queues_of name) ≡ true)
      ↔ ((lookup "QUEUE_NAME" ≡ none) ⊎ (lookup "QUEUE_NAME" ≡ some "kicad"))
unfolding getenv_or_default
named lookup name e = elim (Option-cases (lookup "QUEUE_NAME")) [
  | inl unset ↦ (
    λ h. inl unset,
    λ h.
        queues_of_kicad name ∙ (eq_iff name "kicad").1 (sym e ∙ rw (unset, getenv_or_default) refl),
  )
  | inr (v, set) ↦
      let v_name : v ≡ name = sym (rw (set, getenv_or_default) refl) ∙ e in
      (
        λ h.
            inr (set ∙ ap some (v_name ∙ (eq_iff name "kicad").0 (sym (queues_of_kicad name) ∙ h))),
        λ h.
            queues_of_kicad name
            ∙ (eq_iff name "kicad").1 (elim h [
              | inl unset ↦ absurd (cc (unset, set))
              | inr kicad ↦ sym v_name ∙ cc kicad
            ]),
      )
]

-- Server and worker that start in one environment agree: they use the same Redis and the same
-- Filer, and the worker has a handler for the type of the task that the server enqueues for a
-- body, whatever the body. It takes tasks from the queue that this task is put into exactly if
-- QUEUE_NAME is not set or is set to "kicad".
pub ready_worker-new_app :
    (lookup : String → Option String) (body : String)
    → let a = new_app lookup in
      let w = ready_worker lookup in
      (a.asynq_client ≡ w.asynq_redis)
      × (a.asynq_inspector ≡ w.asynq_redis)
      × (a.redis_client ≡ w.stream_redis)
      × (a.filer_url ≡ w.filer_url)
      × (has_key (kicad_task body).task_type w.handled_types ≡ true)
      × ((has_queue (kicad_task body).queue_name w.queues ≡ true)
          ↔ ((lookup "QUEUE_NAME" ≡ none) ⊎ (lookup "QUEUE_NAME" ≡ some "kicad")))
unfolding new_app ready_worker load_config kicad_task
ready_worker-new_app lookup body = (
  refl,
  refl,
  refl,
  refl,
  refl,
  named lookup (getenv_or_default lookup "QUEUE_NAME" "kicad") refl,
)
