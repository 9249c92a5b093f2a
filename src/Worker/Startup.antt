-- ===== src/Worker/Startup.antt =====
-- The start of the worker: backend/internal/worker/config.go and worker.go, and `RegisterTasks` of
-- task_handler.go. `lookup` is `os.LookupEnv`.
pub mod Agreement
use kle_ng_api.Prelude.{
  ℕ, ◌*◌, Bool, true, false, String, Option, none, some, List, [], ◌∷◌, ◌||◌, str_eq, if◌then◌else◌,
  ℤ, pos,
}
use kle_ng_api.Common.{RedisOpt}
use kle_ng_api.Common.Env.{getenv_or_default, get_int_or_default}

pub record Config : Type 0 where
  pub redis_addr : String
  pub redis_password : String
  pub redis_db : ℤ
  pub concurrency : ℤ
  pub queue_name : String
  pub filer_url : String

unfoldable pub load_config : (String → Option String) → Config
unfolding getenv_or_default get_int_or_default
load_config lookup = record {
  redis_addr = getenv_or_default lookup "REDIS_ADDR" "localhost:6379";
  redis_password = getenv_or_default lookup "REDIS_PASSWORD" "";
  redis_db = get_int_or_default lookup "REDIS_DB" (pos 0);
  concurrency = get_int_or_default lookup "WORKER_CONCURRENCY" (pos 10);
  queue_name = getenv_or_default lookup "QUEUE_NAME" "kicad";
  filer_url = getenv_or_default lookup "FILER_URL" "http://localhost:8888";
}

-- a map from queues to weights: `m[name] = weight`
unfoldable pub set_weight : String → ℕ → List (String × ℕ) → List (String × ℕ)
set_weight name weight [] = (name, weight) ∷ []
set_weight name weight ((other, w) ∷ m) =
    let rest = (other, w) ∷ set_weight name weight m in
    if str_eq other name then (name, weight) ∷ m else rest

unfoldable pub has_queue : String → List (String × ℕ) → Bool
has_queue name [] = false
has_queue name ((other, w) ∷ m) = str_eq other name || has_queue name m

-- `Queues` of `asynq.Config`
unfoldable pub queues_of : String → List (String × ℕ)
unfolding set_weight
queues_of queue_name = set_weight "critical" 20 (set_weight queue_name 10 [])

-- `Worker`: a client or server that is made is the options that it is made with, and the mux is
-- the task types that have a handler.
pub record Worker : Type 0 where
  pub asynq_redis : RedisOpt
  pub stream_redis : RedisOpt
  pub concurrency : ℤ
  pub queues : List (String × ℕ)
  pub handled_types : List String
  pub filer_url : String
  pub config : Config

unfoldable pub new_worker : (String → Option String) → Worker
unfolding queues_of load_config
new_worker lookup =
    let config = load_config lookup in
    let redis : RedisOpt = record {
      addr = config.redis_addr;
      password = config.redis_password;
      db = config.redis_db;
    } in
    record {
      asynq_redis = redis;
      stream_redis = redis;
      concurrency = config.concurrency;
      queues = queues_of config.queue_name;
      handled_types = [];
      filer_url = config.filer_url;
      config = config;
    }

abbrev pub task_type_generate_kicad : String
task_type_generate_kicad = "generate_kicad_project"

unfoldable pub register_tasks : Worker → Worker
register_tasks w = record w { handled_types = task_type_generate_kicad ∷ w.handled_types }

-- How `Start` goes on: the asynq server cannot run, which ends the process, or a signal arrives.
pub data Event : Type 0 where
  run_fails : Event
  signalled : Event

pub data Action : Type 0 where
  exit_fatal : Action
  shut_down : Action
  close_redis : Action

unfoldable pub start : Event → List Action
start run_fails = exit_fatal ∷ []
start signalled = shut_down ∷ close_redis ∷ []

-- `main` up to `Start`
unfoldable pub ready_worker : (String → Option String) → Worker
unfolding new_worker register_tasks
ready_worker lookup = register_tasks (new_worker lookup)
