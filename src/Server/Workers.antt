-- ===== src/Server/Workers.antt =====
-- `KicadGetWorkers` and `GetVersion` of backend/cmd/server/main.go.
pub mod Totals
use kle_ng_api.Prelude.{ℕ, ◌+◌, String, Option, none, some, List, [], ◌∷◌, ◌++◌, length, sub_ℕ}
use kle_ng_api.Server.Http.{
  Headers, Response, WorkerDetail, WorkersResponse, workers, version, send_err, set_header,
}
use kle_ng_api.Server.Queue.{ServerInfo, Queue}

-- the entry of one worker process
unfoldable pub worker_detail : ServerInfo → WorkerDetail
worker_detail s =
    let active = length s.active_workers in
    record {
      id = s.id;
      host = s.host;
      pid = s.pid;
      concurrency = s.concurrency;
      started = s.started;
      status = s.status;
      active_tasks = active;
      idle_capacity = sub_ℕ s.concurrency active;
      queues = s.queues;
    }

-- The loop over the servers: the totals and the details so far.
unfoldable pub sum_workers : List ServerInfo → ℕ → ℕ → List WorkerDetail → ℕ × ℕ × List WorkerDetail
unfolding worker_detail
sum_workers [] capacity active details = (capacity, active, details)
sum_workers (s ∷ servers) capacity active details =
    sum_workers servers (capacity + s.concurrency) (active + length s.active_workers)
      (details ++ worker_detail s ∷ [])

unfoldable pub workers_response : List ServerInfo → WorkersResponse
unfolding sum_workers
workers_response servers =
    let (capacity, active, details) = sum_workers servers 0 0 [] in
    record {
      worker_processes = length servers;
      total_capacity = capacity;
      active_tasks = active;
      idle_capacity = sub_ℕ capacity active;
      workers = details;
    }

unfoldable pub get_workers : {Q : Type 0} → Queue Q → Headers → Q → Response
unfolding workers_response
get_workers q h s = elim (q.servers s) [
  | none ↦ send_err h 500 "Failed to retrieve worker information"
  | some servers ↦ record {
    status_code = 200;
    headers = set_header "Content-Type" "application/json" h;
    body = workers (workers_response servers);
  }
]

-- `version_text` is the variable `Version`, which the build sets
unfoldable pub get_version : String → Headers → Response
get_version version_text h = record {
  status_code = 200;
  headers = set_header "Content-Type" "application/json" h;
  body = version version_text;
}
