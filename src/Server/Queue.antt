-- ===== src/Server/Queue.antt =====
-- The task queue (asynq) as the server uses it: a client and an inspector over a state `Q` that
-- is not the program's. `none` and `false` stand for an error.
use kle_ng_api.Prelude.{ℕ, Bool, String, Option, List}
use kle_ng_api.Common.{Progress}

-- `asynq.TaskState`
pub data TaskState : Type 0 where
  active pending scheduled retry archived completed aggregating : TaskState

-- The bytes that the worker wrote last as the task's result, as `json.Unmarshal` reads them into a
-- `common.Progress`.
pub data ResultBytes : Type 0 where
  no_bytes : ResultBytes
  malformed : ResultBytes
  written : Progress → ResultBytes

pub record TaskInfo : Type 0 where
  pub id : String
  pub state : TaskState
  pub result : ResultBytes
  pub last_err : String

pub record ServerInfo : Type 0 where
  pub id : String
  pub host : String
  pub pid : ℕ
  pub concurrency : ℕ
  pub started : String  -- in RFC 3339
  pub status : String
  pub active_workers : List String
  pub queues : List (String × ℕ)

-- `asynq.Task` with the options that it is made with; durations in nanoseconds
pub record Task : Type 0 where
  pub task_type : String
  pub payload : String
  pub max_retry : ℕ
  pub timeout : ℕ
  pub queue_name : String
  pub retention : ℕ

-- `get_queue_info` gives the numbers of pending and of active tasks, `enqueue` the new task's ID.
pub record Queue (Q : Type 0) : Type 0 where
  pub get_queue_info : String → Q → Option (ℕ × ℕ)
  pub get_task_info : String → String → Q → Option TaskInfo
  pub delete_task : String → String → Q → Bool × Q
  pub enqueue : Task → Q → Option String × Q
  pub servers : Q → Option (List ServerInfo)
