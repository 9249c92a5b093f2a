-- ===== src/Server/Http.antt =====
-- What backend/cmd/server/main.go uses of `net/http`, and `sendErr`. Headers are the pairs in the
-- order of insertion. A handler is given the headers set so far and a world.
use kle_ng_api.Prelude.{ℕ, Bool, String, List, [], ◌∷◌, ◌++◌, str_eq, if◌then◌else◌, ℤ}
use kle_ng_api.Common.{ProjectFiles}

abbrev pub Headers : Type 0
Headers = List (String × String)

unfoldable pub get_header : String → Headers → String
get_header k [] = ""
get_header k ((j, v) ∷ h) = if str_eq j k then v else get_header k h

-- `Header().Del`
unfoldable pub del_header : String → Headers → Headers
del_header k [] = []
del_header k ((j, v) ∷ h) = let rest = del_header k h in if str_eq j k then rest else (j, v) ∷ rest

-- `Header().Add`
unfoldable pub add_header : String → String → Headers → Headers
add_header k v h = h ++ (k, v) ∷ []

-- `Header().Set`
unfoldable pub set_header : String → String → Headers → Headers
unfolding del_header add_header
set_header k v h = add_header k v (del_header k h)

-- The value of a response field `task_result`.
pub data TaskResult : Type 0 where
  null : TaskResult
  empty : TaskResult
  message : String → TaskResult
  failure : String → TaskResult
  files : ProjectFiles → TaskResult

pub record TaskStatus : Type 0 where
  pub task_id : String
  pub task_status : String
  pub result : TaskResult

pub record WorkerDetail : Type 0 where
  pub id : String
  pub host : String
  pub pid : ℕ
  pub concurrency : ℕ
  pub started : String
  pub status : String
  pub active_tasks : ℕ
  pub idle_capacity : ℤ
  pub queues : List (String × ℕ)

pub record WorkersResponse : Type 0 where
  pub worker_processes : ℕ
  pub total_capacity : ℕ
  pub active_tasks : ℕ
  pub idle_capacity : ℤ
  pub workers : List WorkerDetail

-- The bodies that the server writes, before JSON encoding.
pub data Body : Type 0 where
  no_body : Body
  error_message : String → Body
  task : TaskStatus → Body
  cancelled : String → Body
  workers : WorkersResponse → Body
  version : String → Body
  stream : String → Body

pub record Request : Type 0 where
  pub method : String
  pub origin : String
  pub body : String
  pub body_size : ℕ
  pub body_readable : Bool

pub record Response : Type 0 where
  pub status_code : ℕ
  pub headers : Headers
  pub body : Body

abbrev pub Handler : Type 0 → Type 0
Handler W = Request → Headers → W → Response × W

-- `sendErr`: `http.Error` sets two headers
unfoldable pub send_err : Headers → ℕ → String → Response
unfolding set_header
send_err h code text = record {
  status_code = code;
  headers =
      set_header "X-Content-Type-Options" "nosniff"
        (set_header "Content-Type" "text/plain; charset=utf-8" h);
  body = error_message text;
}
