-- ===== src/Server/Tracker.antt =====
-- `TaskAccessTracker` of backend/cmd/server/main.go. Times are nanoseconds. The map is an
-- association list; the order in which Go iterates over it is left open by the statements.
pub mod Table
pub mod Abandoned
use kle_ng_api.Prelude.{
  ℕ, suc, ◌-◌, ◌*◌, ◌%◌, ◌^◌, Bool, String, Option, none, some, List, [], ◌∷◌, length, str_eq,
  if◌then◌else◌, ℤ, pos, negsuc, sub_ℕ, ltb, ltz,
}

abbrev pub Times : Type 0
Times = List (String × ℕ)

pub record TaskAccessTracker : Type 0 where
  pub last_access : Times
  pub timeout : ℤ

-- `m[task]` with its presence
unfoldable pub lookup : String → Times → Option ℕ
lookup task [] = none
lookup task ((other, last) ∷ times) =
    let rest = lookup task times in if str_eq other task then some last else rest

-- `m[task] = now`
unfoldable pub insert : String → ℕ → Times → Times
insert task now [] = (task, now) ∷ []
insert task now ((other, last) ∷ times) =
    let rest = (other, last) ∷ insert task now times in
    if str_eq other task then (task, now) ∷ times else rest

-- `delete(m, k)`
unfoldable pub without : String → Times → Times
without k [] = []
without k ((j, w) ∷ m) = let rest = without k m in if str_eq j k then rest else (j, w) ∷ rest

-- the int64 with these 64 bits
unfoldable pub of_bits : ℕ → ℤ
of_bits bits = if ltb bits (2 ^ 63) then pos bits else negsuc (2 ^ 64 - 1 - bits)

-- `time.Duration(n) * time.Minute`, which wraps around
unfoldable pub minutes : ℤ → ℤ
unfolding of_bits
minutes (pos n) = of_bits ((n * 60_000_000_000) % 2 ^ 64)
minutes (negsuc n) = of_bits ((2 ^ 64 - (suc n * 60_000_000_000) % 2 ^ 64) % 2 ^ 64)

unfoldable pub new_task_access_tracker : ℤ → TaskAccessTracker
unfolding minutes
new_task_access_tracker timeout_minutes = record {
  last_access = [];
  timeout = minutes timeout_minutes;
}

unfoldable pub update_access : String → ℕ → TaskAccessTracker → TaskAccessTracker
update_access task_id now t = record t { last_access = insert task_id now t.last_access }

-- `now.Sub(lastAccess) > t.timeout`
unfoldable pub is_overdue : ℕ → ℤ → ℕ → Bool
is_overdue now timeout last = ltz timeout (sub_ℕ now last)

overdue : ℕ → ℤ → Times → List String
overdue now timeout [] = []
overdue now timeout ((k, last) ∷ m) =
    let rest = overdue now timeout m in if is_overdue now timeout last then k ∷ rest else rest

unfoldable pub get_abandoned_tasks : ℕ → TaskAccessTracker → List String
unfolding overdue
get_abandoned_tasks now t = overdue now t.timeout t.last_access

unfoldable pub remove_task : String → TaskAccessTracker → TaskAccessTracker
remove_task task_id t = record t { last_access = without task_id t.last_access }

unfoldable pub get_tracked_count : TaskAccessTracker → ℕ
get_tracked_count t = length t.last_access
