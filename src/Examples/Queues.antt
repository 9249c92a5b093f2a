-- ===== src/Examples/Queues.antt =====
-- Small task queues.
use kle_ng_api.Prelude.{
  ℕ, arith, ◌≡◌, ◌≢◌, refl, sym, ◌∙◌, inl, inr, Bool, true, false, String, none, some, str_eq,
  eq_iff, Bool-cases, if◌then◌else◌,
}
use kle_ng_api.Server.Queue.{pending, no_bytes, Queue}
use kle_ng_api.Server.Abandonment.Reaped.{IsInspector}

-- It holds no task and refuses every one.
abbrev pub empty_queue : Queue ℕ
empty_queue = record {
  get_queue_info = λ name s. none;
  get_task_info = λ name id s. none;
  delete_task = λ name id s. (false, s);
  enqueue = λ body s. (none, s);
  servers = λ s. none;
}

-- One pending task, "t1", until it is deleted; a new task is taken while it is there.
abbrev pub one_task : Queue Bool
one_task = record {
  get_queue_info = λ name s. some (1, 0);
  get_task_info = λ name id s.
      if s
      then (if str_eq id "t1"
          then some (record { id = "t1"; state = pending; result = no_bytes; last_err = "" })
          else none)
      else none;
  delete_task = λ name id s. if str_eq id "t1" then (s, false) else (false, s);
  enqueue = λ body s. if s then (some "t2", s) else (none, s);
  servers = λ s. none;
}

-- Deleting "t1" does not change what is told of the others.
pub one_task-frame :
    (j k : String) (s : Bool)
    → j ≢ k
    → one_task.get_task_info "kicad" k (one_task.delete_task "kicad" j s).1
      ≡ one_task.get_task_info "kicad" k s
one_task-frame j k true d = elim (Bool-cases (str_eq j "t1")) [
  | inl e ↦
      let ej : j ≡ "t1" = (eq_iff j "t1").0 e in
      elim (Bool-cases (str_eq k "t1")) [
        | inl same ↦ absurd (d (ej ∙ sym ((eq_iff k "t1").0 same)))
        | inr other ↦ rw (e, other) refl
      ]
  | inr e ↦ rw e refl
]
one_task-frame j k false d = elim (Bool-cases (str_eq j "t1")) [
  | inl e ↦ rw e refl
  | inr e ↦ rw e refl
]

pub one_task-IsInspector : IsInspector one_task
one_task-IsInspector = record {
  gone = λ k s h. gone k s h;
  unchanged = λ k s h. unchanged k s h;
  told = one_task-frame;
  deletable = λ j k s d. deletable j k s d;
}
  where
    gone :
        (k : String) (s : Bool)
        → (one_task.delete_task "kicad" k s).0 ≡ true
        → one_task.get_task_info "kicad" k (one_task.delete_task "kicad" k s).1 ≡ none
    gone k s h = elim (Bool-cases (str_eq k "t1")) [
      | inl e ↦ rw e refl
      | inr e ↦ absurd (ground (arith, e, h))
    ]

    unchanged :
        (k : String) (s : Bool)
        → (one_task.delete_task "kicad" k s).0 ≡ false
        → (one_task.delete_task "kicad" k s).1 ≡ s
    unchanged k s h = ground (arith, h)

    deletable :
        (j k : String) (s : Bool)
        → j ≢ k
        → (one_task.delete_task "kicad" k (one_task.delete_task "kicad" j s).1).0
          ≡ (one_task.delete_task "kicad" k s).0
    deletable j k s d = elim (Bool-cases (str_eq j "t1")) [
      | inl e ↦ elim (Bool-cases (str_eq k "t1")) [
        | inl same ↦ absurd (d ((eq_iff j "t1").0 e ∙ sym ((eq_iff k "t1").0 same)))
        | inr other ↦ rw (e, other) refl
      ]
      | inr e ↦ rw e refl
    ]
