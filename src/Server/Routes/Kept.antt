-- ===== src/Server/Routes/Kept.antt =====
-- The handlers leave the header that names a trusted origin as it is.
use kle_ng_api.Prelude.{
  ◌≡◌, ◌≢◌, refl, ◌∙◌, ℕ, Bool, String, Option, some, [], ◌∷◌, All, str_eq, eq_iff, Bool-cases,
  Option-cases, inl, inr, ℤ, pos, arith,
}
use kle_ng_api.Go.Strings.{◌<>◌}
use kle_ng_api.Go.Decimal.{show_int}
use kle_ng_api.Server.Http.{
  Headers, Request, Response, get_header, del_header, add_header, set_header, send_err,
}
use kle_ng_api.Server.Queue.{Queue}
use kle_ng_api.Server.Tasks.{World, post_new_task, get_task_status, delete_task}
use kle_ng_api.Server.Workers.{get_workers}
use kle_ng_api.Server.Filer.{FilerResponse, object_url, copy_headers, pass_on, filer_proxy}

-- the header by which a server names an origin
abbrev pub allow : String
allow = "Access-Control-Allow-Origin"

get-del : (k j : String) (h : Headers) → k ≢ j → get_header j (del_header k h) ≡ get_header j h
unfolding get_header del_header
get-del k j [] d = refl
get-del k j ((i, v) ∷ h) d = ground (arith, get-del k j h d, eq_iff i k, eq_iff i j, eq_iff k j)

get-add : (k v j : String) (h : Headers) → k ≢ j → get_header j (add_header k v h) ≡ get_header j h
unfolding get_header add_header
get-add k v j [] d = ground (arith, eq_iff k j)
get-add k v j ((i, u) ∷ h) d = ground (arith, get-add k v j h d)

get-set : (k v j : String) (h : Headers) → k ≢ j → get_header j (set_header k v h) ≡ get_header j h
unfolding set_header
get-set k v j h d = get-add k v j (del_header k h) d ∙ get-del k j h d

unfoldable pub Keeps : Headers → Response → Type 0
Keeps h a = get_header allow a.headers ≡ get_header allow h

pub json_set :
    (h : Headers)
    → get_header allow (set_header "Content-Type" "application/json" h) ≡ get_header allow h
json_set h = get-set "Content-Type" "application/json" allow h (λ e. cc e)

send_err-Keeps : (h : Headers) (code : ℕ) (text : String) → Keeps h (send_err h code text)
unfolding Keeps send_err
send_err-Keeps h code text =
    get-set "X-Content-Type-Options" "nosniff" allow _ (λ e. cc e)
    ∙ get-set "Content-Type" "text/plain; charset=utf-8" allow h (λ e. cc e)

-- The Filer does not name an origin itself.
abbrev pub IsSilent : Headers → Type 0
IsSilent = All (λ p. p.0 ≢ allow)

copy-get :
    (from h : Headers) → IsSilent from → get_header allow (copy_headers from h) ≡ get_header allow h
unfolding copy_headers
copy-get [] h s = refl
copy-get ((k, v) ∷ from) h (d, s) = copy-get from (add_header k v h) s ∙ get-add k v allow h d

pass_on-Keeps :
    (disposition : String) (resp : FilerResponse) (h : Headers)
    → IsSilent resp.headers
    → Keeps h (pass_on disposition resp h)
unfolding Keeps pass_on
pass_on-Keeps disposition resp h s = elim (Bool-cases (str_eq disposition "")) [
  | inl e ↦ rw e (copy-get resp.headers h s)
  | inr e ↦
      rw e
        (get-set "Content-Disposition" disposition allow _ (λ e. cc e) ∙ copy-get resp.headers h s)
]

module _ (valid_url : String → Bool) (fetch : String → Option FilerResponse) (filer_url : String)
    (silent : (url : String) (resp : FilerResponse)
      → fetch url ≡ some resp
      → IsSilent resp.headers) where
  pub filer_proxy-Keeps :
      (object disposition : String) (h : Headers)
      → Keeps h (filer_proxy valid_url fetch filer_url object disposition h)
  unfolding Keeps filer_proxy object_url
  filer_proxy-Keeps object disposition h =
      elim (Option-cases (fetch (object_url filer_url object))) [
        | inl e ↦ ground (
          arith,
          send_err-Keeps h 500 "Failed to create request",
          send_err-Keeps h 502 "Failed to fetch file",
        )
        | inr (resp, e) ↦ ground (
          arith,
          send_err-Keeps h 500 "Failed to create request",
          send_err-Keeps h 404 "File not found",
          send_err-Keeps h 502 ("Storage error: " <> show_int (pos resp.status_code)),
          pass_on-Keeps disposition resp h (silent _ resp e),
        )
      ]

module _ {Q : Type 0} (q : Queue Q) where
  pub post-Keeps :
      (limit : ℤ) (is_json_object : String → Bool) (now : ℕ) (r : Request) (h : Headers)
      (w : World Q)
      → Keeps h (post_new_task q limit is_json_object now r h w).0
  unfolding Keeps post_new_task
  post-Keeps limit is_json_object now r h w = ground (
    arith,
    send_err-Keeps h 503 "Server overloaded, try again later",
    send_err-Keeps h 400 "Failed to read request body",
    send_err-Keeps h 400 "Invalid JSON in request body",
    send_err-Keeps h 500 "Failed to enqueue task",
    send_err-Keeps h 405 "Method not allowed",
  )

  pub status-Keeps :
      (now : ℕ) (task_id : String) (h : Headers) (w : World Q)
      → Keeps h (get_task_status q now task_id h w).0
  unfolding Keeps get_task_status
  status-Keeps now task_id h w = ground (arith, send_err-Keeps h 404 "Task not found")

  pub delete-Keeps :
      (task_id : String) (h : Headers) (w : World Q) → Keeps h (delete_task q task_id h w).0
  unfolding Keeps delete_task
  delete-Keeps task_id h w = ground (
    arith,
    send_err-Keeps h 404 "Task not found",
    send_err-Keeps h 410 "Task has already completed or failed",
    send_err-Keeps h 500 "Failed to cancel task",
    send_err-Keeps h 409 "Cannot cancel task that is currently running",
    send_err-Keeps h 410 "Task has already completed",
    send_err-Keeps h 500 "Unknown task state",
    json_set h,
  )

  pub workers-Keeps : (h : Headers) (s : Q) → Keeps h (get_workers q h s)
  unfolding Keeps get_workers
  workers-Keeps h s =
      ground (arith, send_err-Keeps h 500 "Failed to retrieve worker information", json_set h)
