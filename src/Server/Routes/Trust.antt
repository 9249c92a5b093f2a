-- ===== src/Server/Routes/Trust.antt =====
-- Whichever endpoint answers, a browser is told to trust the configured origin only.
use kle_ng_api.Prelude.{
  ◌≡◌, ◌↔◌, ◌≢◌, ◌⊎◌, sym, subst, ℕ, Bool, true, String, Option, some, [], inl, inr, ℤ,
}
use kle_ng_api.Server.Http.{Headers, Request, Response, get_header, set_header, send_err}
use kle_ng_api.Server.Queue.{Queue}
use kle_ng_api.Server.Tasks.{World}
use kle_ng_api.Server.Workers.{get_version}
use kle_ng_api.Server.Filer.{FilerResponse, get_task_render, get_task_result}
use kle_ng_api.Server.Logs.{check_ws_origin}
use kle_ng_api.Server.Cors.{with_cors, preflight}
use kle_ng_api.Server.Cors.Policy.{Trusts, cors_policy}
use kle_ng_api.Server.Routes.{
  Endpoint, post_task, task_status, cancel_task, task_render, task_result, list_workers,
  show_version, endpoint, Target, answer_preflight, api, task_logs, redirect, redirect_to_editor,
  serve,
}
use kle_ng_api.Server.Routes.Kept.{
  allow, Keeps, IsSilent, json_set, filer_proxy-Keeps, post-Keeps, status-Keeps, delete-Keeps,
  workers-Keeps,
}

abbrev Names : Request → String → Type 0
Names r named = (named ≡ "*") ⊎ ((named ≡ r.origin) × (r.origin ≢ ""))

-- Two answers that name the same origin are trusted alike.
same_trust :
    (r : Request) (h h' : Headers)
    → get_header allow h' ≡ get_header allow h
    → Trusts r h' ↔ Trusts r h
unfolding get_header
same_trust r h h' e = (λ t. subst (Names r) e t, λ t. subst (Names r) (sym e) t)

unnamed : (r : Request) → ¬ Trusts r (redirect_to_editor []).headers
unfolding get_header redirect_to_editor set_header
unnamed r t = elim t [ inl e ↦ absurd (cc e) | inr (e, some_origin) ↦ some_origin (sym e) ]

-- which targets tell a page to trust the server, if its origin is the right one
abbrev pub Trusted : Bool → String → Request → Target → Type 0
Trusted production allowed r redirect = ⊥
Trusted production allowed r target = check_ws_origin production allowed r ≡ true

module _ {Q : Type 0} (q : Queue Q) (limit : ℤ) (is_json_object : String → Bool)
    (valid_url : String → Bool) (fetch : String → Option FilerResponse) (filer_url : String)
    (version_text : String) (now : ℕ) (task_id name : String)
    (silent : (url : String) (resp : FilerResponse)
      → fetch url ≡ some resp
      → IsSilent resp.headers) where
  endpoint-Keeps :
      (e : Endpoint) (r : Request) (h : Headers) (w : World Q)
      → Keeps h
          (endpoint q limit is_json_object valid_url fetch filer_url version_text now task_id name e
            r h w).0
  unfolding Keeps endpoint get_task_render get_task_result get_version
  endpoint-Keeps post_task r h w = post-Keeps q limit is_json_object now r h w
  endpoint-Keeps task_status r h w = status-Keeps q now task_id h w
  endpoint-Keeps cancel_task r h w = delete-Keeps q task_id h w
  endpoint-Keeps task_render r h w = filer_proxy-Keeps valid_url fetch filer_url silent _ _ h
  endpoint-Keeps task_result r h w = filer_proxy-Keeps valid_url fetch filer_url silent _ _ h
  endpoint-Keeps list_workers r h w = workers-Keeps q h w.queue
  endpoint-Keeps show_version r h w = json_set h

  -- Whatever the target of a request is, a browser gives the answer to a page exactly if the page's
  -- origin passes the test of the WebSocket upgrade, and the redirection to no page: as long as the
  -- Filer's own headers do not name an origin.
  pub serve-Trusts :
      (production : Bool) (allowed : String) (t : Target) (r : Request) (w w' : World Q)
      (a : Response)
      → allowed ≢ ""
      → serve q limit is_json_object valid_url fetch filer_url version_text now task_id name
          production allowed t r w
        ≡ (some a, w')
      → Trusts r a.headers ↔ Trusted production allowed r t
  unfolding Keeps serve redirect_to_editor
  serve-Trusts production allowed answer_preflight r w w' a named e =
      let same : preflight production allowed r [] ≡ a = cc e in
      subst (λ b. Trusts r b.headers ↔ (check_ws_origin production allowed r ≡ true)) same
        (cors_policy production allowed (λ r h w. (send_err h 404 "", w)) r w named).0
  serve-Trusts production allowed (api x) r w w' a named e =
      let handler =
        endpoint q limit is_json_object valid_url fetch filer_url version_text now task_id name x in
      let same : (with_cors production allowed handler r [] w).0 ≡ a = cc e in
      subst (λ b. Trusts r b.headers ↔ (check_ws_origin production allowed r ≡ true)) same
        (let (policy, answered) = cors_policy production allowed handler r w named in
          elim answered [
            | inl (prod, options, ans) ↦ rw ans policy
            | inr ans ↦
                let (to, back) =
                  same_trust r _ _
                    (endpoint-Keeps x r (preflight production allowed r []).headers w) in
                rw ans (λ t. policy.0 (to t), λ c. back (policy.1 c))
          ])
  serve-Trusts production allowed task_logs r w w' a named e = absurd (cc e)
  serve-Trusts production allowed redirect r w w' a named e =
      let same : redirect_to_editor [] ≡ a = cc e in
      (λ t. unnamed r (subst (λ b. Trusts r b.headers) (sym same) t), λ never. absurd never)
