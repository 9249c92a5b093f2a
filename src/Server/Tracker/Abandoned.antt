-- ===== src/Server/Tracker/Abandoned.antt =====
-- What `GetAbandonedTasks` returns.
use kle_ng_api.Prelude.{
  ℕ, ◌+◌, ◌*◌, ◌<◌, ◌≤◌, ◌≡◌, ◌↔◌, refl, Bool, true, false, String, Option, none, some, [], ◌∷◌,
  arith, eq_iff, has_key, ℤ, pos, Option-cases, inl, inr,
}
use kle_ng_api.Server.Tracker.{
  Times, lookup, is_overdue, overdue, get_abandoned_tasks, of_bits, minutes,
}
use kle_ng_api.Server.Tracker.Table.{HasUniqueKeys}

abbrev is_late : ℕ → ℤ → Option ℕ → Bool
is_late now timeout none = false
is_late now timeout (some last) = is_overdue now timeout last

has_key-overdue :
    (now : ℕ) (timeout : ℤ) (k : String) (m : Times)
    → HasUniqueKeys m
    → has_key k (overdue now timeout m) ≡ is_late now timeout (lookup k m)
unfolding overdue lookup
has_key-overdue now timeout k [] u = refl
has_key-overdue now timeout k ((j, last) ∷ m) u =
    ground (arith, has_key-overdue now timeout k m, eq_iff j k)

-- In a table without double keys, exactly the tasks are reported whose last access lies more than
-- `timeout` before `now`: a task is reported if and only if the table has an access time for it
-- and that time plus the timeout is still before `now`.
pub abandoned_iff :
    (now n : ℕ) (m : Times) (task_id : String)
    → HasUniqueKeys m
    → (has_key task_id (get_abandoned_tasks now (record { last_access = m; timeout = pos n }))
        ≡ true)
      ↔ ((last : ℕ) × (lookup task_id m ≡ some last) × (last + n < now))
unfolding get_abandoned_tasks is_overdue
abandoned_iff now n m task_id u = elim (Option-cases (lookup task_id m)) [
  | inl e ↦
      (λ h. ground (arith, has_key-overdue now (pos n) task_id m u), λ (last, f, lt). ground arith)
  | inr (last, e) ↦ (
    λ h. (last, e, ground (arith, has_key-overdue now (pos n) task_id m u)),
    λ (last', f, lt). ground (arith, has_key-overdue now (pos n) task_id m u),
  )
]

-- as many minutes as fit into an int64 of nanoseconds
pub minutes-pos : (m : ℕ) → m ≤ 153_722_867 → minutes (pos m) ≡ pos (m * 60_000_000_000)
unfolding minutes of_bits
minutes-pos m h = ground arith
