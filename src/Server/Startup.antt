-- ===== src/Server/Startup.antt =====
-- `NewApp`, `getEnvInt` and the start of `Serve` in backend/cmd/server/main.go. `lookup` is
-- `os.LookupEnv`; a client that is made is the options that it is made with.
pub mod EnvInt
use kle_ng_api.Prelude.{ℕ, ◌*◌, Bool, String, Option, none, some, str_eq, if◌then◌else◌, ℤ, pos}
use kle_ng_api.Common.{RedisOpt}
use kle_ng_api.Common.Env.{getenv_or_default, get_int_or_default}
use kle_ng_api.Go.Scan.{scan_int}
use kle_ng_api.Server.Tracker.{TaskAccessTracker, minutes, new_task_access_tracker}

-- `App`, less the context that its shutdown cancels
pub record App : Type 0 where
  pub production : Bool
  pub cors_allowed_origin : String
  pub asynq_client : RedisOpt
  pub asynq_inspector : RedisOpt
  pub redis_client : RedisOpt
  pub http_timeout : ℕ  -- in nanoseconds
  pub filer_url : String
  pub task_access_tracker : TaskAccessTracker
  pub abandonment_interval : ℤ

-- `os.Getenv`
unfoldable pub getenv : (String → Option String) → String → String
getenv lookup key = elim (lookup key) [ none ↦ "" | some value ↦ value ]

-- the value of a variable that is set to a number, or the default
unfoldable pub scan_or : ℤ → String → ℤ
scan_or default_value value =
    if str_eq value ""
    then default_value
    else elim (scan_int value) [ none ↦ default_value | some n ↦ n ]

unfoldable pub get_env_int : (String → Option String) → String → ℤ → ℤ
unfolding getenv scan_or
get_env_int lookup key default_value = scan_or default_value (getenv lookup key)

-- the limit that `KicadPostNewTask` reads from the environment
unfoldable pub max_queue_size : (String → Option String) → ℤ
unfolding get_env_int
max_queue_size lookup = get_env_int lookup "MAX_QUEUE_SIZE" (pos 2)

unfoldable pub new_app : (String → Option String) → App
unfolding getenv getenv_or_default get_int_or_default
new_app lookup =
    let redis : RedisOpt = record {
      addr = getenv_or_default lookup "REDIS_ADDR" "localhost:6379";
      password = getenv_or_default lookup "REDIS_PASSWORD" "";
      db = get_int_or_default lookup "REDIS_DB" (pos 0);
    } in
    record {
      production = str_eq (getenv lookup "PROFILE") "PRODUCTION";
      cors_allowed_origin =
          getenv_or_default lookup "CORS_ALLOWED_ORIGIN" "https://editor.keyboard-tools.xyz";
      asynq_client = redis;
      asynq_inspector = redis;
      redis_client = redis;
      http_timeout = 30 * 1_000_000_000;
      filer_url = getenv_or_default lookup "FILER_URL" "http://localhost:8888";
      task_access_tracker =
          new_task_access_tracker (get_int_or_default lookup "TASK_ABANDONMENT_TIMEOUT" (pos 15));
      abandonment_interval =
          minutes (get_int_or_default lookup "TASK_ABANDONMENT_CHECK_INTERVAL" (pos 2));
    }
