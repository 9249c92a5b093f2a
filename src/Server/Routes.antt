-- ===== src/Server/Routes.antt =====
-- What `Serve` of backend/cmd/server/main.go installs: its routes in their order, and the handlers
-- behind them with their CORS wrappers. The router (gorilla/mux) is a parameter.
pub mod Kept
pub mod Trust
pub mod First
use kle_ng_api.Prelude.{
  ℕ, Bool, true, false, ◌&&◌, String, Option, none, some, List, [], ◌∷◌, str_eq, if◌then◌else◌, ℤ,
  pos,
}
use kle_ng_api.Server.Http.{Request, Response, Headers, Handler, no_body, set_header}
use kle_ng_api.Server.Queue.{Queue}
use kle_ng_api.Server.Tasks.{World, post_new_task, get_task_status, delete_task}
use kle_ng_api.Server.Workers.{get_workers, get_version}
use kle_ng_api.Server.Filer.{FilerResponse, get_task_render, get_task_result}
use kle_ng_api.Server.Cors.{with_cors, preflight}

-- the handlers that are wrapped for CORS
pub data Endpoint : Type 0 where
  post_task task_status cancel_task task_render task_result list_workers show_version : Endpoint

-- what a route leads to
pub data Target : Type 0 where
  answer_preflight : Target
  api : Endpoint → Target
  task_logs : Target
  redirect : Target

-- A route: its path, whether that is a prefix, and its method, or any.
pub record Route : Type 0 where
  pub path : String
  pub is_prefix : Bool
  pub method : Option String
  pub target : Target

route : String → String → Target → Route
route path method target = record {
  path = path;
  is_prefix = false;
  method = some method;
  target = target;
}

-- as they are registered
unfoldable pub routes : List Route
unfolding route
routes =
    record { path = "/api/"; is_prefix = true; method = some "OPTIONS"; target = answer_preflight }
    ∷ route "/api/pcb" "POST" (api post_task)
    ∷ route "/api/pcb/{task_id}" "GET" (api task_status)
    ∷ route "/api/pcb/{task_id}/logs" "GET" task_logs
    ∷ route "/api/pcb/{task_id}" "DELETE" (api cancel_task)
    ∷ route "/api/pcb/{task_id}/render/{name}" "GET" (api task_render)
    ∷ route "/api/pcb/{task_id}/result" "GET" (api task_result)
    ∷ route "/api/workers" "GET" (api list_workers)
    ∷ route "/api/version" "GET" (api show_version)
    ∷ record { path = "/"; is_prefix = true; method = none; target = redirect }
    ∷ []

abbrev pub editor_url : String
editor_url = "https://editor.keyboard-tools.xyz/"

-- `http.Redirect`
unfoldable pub redirect_to_editor : Headers → Response
redirect_to_editor h = record {
  status_code = 301;
  headers = set_header "Location" editor_url h;
  body = no_body;
}

-- The parameters of the handlers, as for each of them; `now` is the time of the request and
-- `task_id` and `name` are what the router has found in the path.
module _ {Q : Type 0} (q : Queue Q) (limit : ℤ) (is_json_object : String → Bool)
    (valid_url : String → Bool) (fetch : String → Option FilerResponse) (filer_url : String)
    (version_text : String) (now : ℕ) (task_id name : String) where
  unfoldable pub endpoint : Endpoint → Handler (World Q)
  endpoint post_task r h w = post_new_task q limit is_json_object now r h w
  endpoint task_status r h w = get_task_status q now task_id h w
  endpoint cancel_task r h w = delete_task q task_id h w
  endpoint task_render r h w = (get_task_render valid_url fetch filer_url task_id name h, w)
  endpoint task_result r h w = (get_task_result valid_url fetch filer_url task_id h, w)
  endpoint list_workers r h w = (get_workers q h w.queue, w)
  endpoint show_version r h w = (get_version version_text h, w)

  -- The answer to a request that the router gives to a target; the logs are no plain answer.
  unfoldable pub serve : Bool → String → Target → Request → World Q → Option Response × World Q
  unfolding endpoint redirect_to_editor
  serve production allowed answer_preflight r w = (some (preflight production allowed r []), w)
  serve production allowed (api e) r w =
      let (answer, w') = with_cors production allowed (endpoint e) r [] w in (some answer, w')
  serve production allowed task_logs r w = (none, w)
  serve production allowed redirect r w = (some (redirect_to_editor []), w)
