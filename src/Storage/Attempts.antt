-- ===== src/Storage/Attempts.antt =====
-- How many requests an upload makes.
use kle_ng_api.Prelude.{
  ℕ, suc, ◌+◌, ◌*◌, ◌≤◌, Bool, String, Option, none, some, Option-cases, List, [], ◌∷◌, length,
  length-append, arith, inl, inr,
}
use kle_ng_api.Go.Strings.{◌<>◌}
use kle_ng_api.Go.FilePath.{join_path}
use kle_ng_api.Common.{RenderFile}
use kle_ng_api.Retry.{normalize_attempts}
use kle_ng_api.Retry.Calls.{do_retry_calls}
use kle_ng_api.Storage.{
  Request, Net, UploadError, is_retryable_upload, upload_base_delay, upload_attempts, await_timer,
  answer, send_upload, upload_request, upload_file, upload_zip, upload_svg, and_then,
  upload_renders, upload_to_storage,
}

-- the requests made so far
abbrev pub requests : Net → ℕ
requests n = length n.sent

module _ (valid_url : String → Bool) where
  send_requests : (q : Request) (n : Net) → requests (send_upload valid_url q n).1 ≤ requests n + 1
  unfolding send_upload
  send_requests q n = ground (arith, length-append n.sent ((q, answer n.replies) ∷ []))

  module _ (filer_url : String) where
    file_requests :
        (path content : String) (n : Net)
        → requests (upload_file valid_url filer_url path content n).1 ≤ requests n + 3
    unfolding upload_file await_timer normalize_attempts
    file_requests path content n =
        do_retry_calls (send_upload valid_url (upload_request filer_url path content)) await_timer
          (some is_retryable_upload) upload_base_delay upload_attempts requests
          (send_requests (upload_request filer_url path content)) (λ d s. omega arith) n

    module _ (read_file : String → Option String) (task_id : String) where
      svg_requests :
          (name path : String) (n : Net)
          → requests (upload_svg valid_url filer_url read_file task_id name path n).1
            ≤ requests n + 3
      unfolding upload_svg
      svg_requests name path n = elim (Option-cases (read_file path)) [
        | inl e ↦ rw (e, upload_svg) (omega arith)
        | inr (c, e) ↦ rw (e, upload_svg) (file_requests (task_id <> "/" <> name <> ".svg") c n)
      ]

      requests-and_then :
          (k : ℕ) (r : Option UploadError × Net) (rest : Net → Option UploadError × Net) (n : Net)
          → requests r.1 ≤ requests n + 3
          → ((n' : Net) → requests (rest n').1 ≤ requests n' + 3 * k)
          → requests (and_then r rest).1 ≤ requests n + 3 * suc k
      requests-and_then k (none, n') rest n h later = omega (arith, h, later n')
      requests-and_then k (some e, n') rest n h later = omega (arith, h)

      renders_requests :
          (log_path : String) (renders : List RenderFile) (n : Net)
          → requests (upload_renders valid_url filer_url read_file task_id log_path renders n).1
            ≤ requests n + 3 * length renders
      unfolding upload_renders
      renders_requests log_path [] n = omega arith
      renders_requests log_path (render ∷ renders) n =
          requests-and_then (length renders)
            (upload_svg valid_url filer_url read_file task_id render.name
              (join_path (log_path ∷ (render.name <> ".svg") ∷ [])) n)
            _ n (svg_requests render.name (join_path (log_path ∷ (render.name <> ".svg") ∷ [])) n)
            (renders_requests log_path renders)

      -- Whatever the network answers, the upload of a task makes at most three requests for each
      -- file, the zip and the renders of the manifest.
      pub requests-upload_to_storage :
          (zip_of : String → Option String) (work_dir : String) (renders : List RenderFile)
          (n : Net)
          → requests
              (upload_to_storage valid_url filer_url read_file zip_of task_id work_dir renders n).1
            ≤ requests n + 3 * suc (length renders)
      unfolding upload_to_storage upload_zip
      requests-upload_to_storage zip_of work_dir renders n = elim (Option-cases (zip_of work_dir)) [
        | inl e ↦ rw (e, upload_to_storage) (omega arith)
        | inr (zip, e) ↦
            rw (e, upload_to_storage)
              (requests-and_then (length renders) _ _ n
                (file_requests (task_id <> "/" <> task_id <> ".zip") zip n)
                (renders_requests (join_path (work_dir ∷ "logs" ∷ [])) renders))
      ]
