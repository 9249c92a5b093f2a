-- ===== src/Storage.antt =====
-- backend/internal/storage/filer.go: the uploads to the Filer. The network is a list of replies
-- still to come and a record of the requests made; the file system and the zip archive of the
-- work directory are given by what a read returns.
pub mod Attempts
pub mod Delivery
pub mod Success
pub mod Zip
use kle_ng_api.Prelude.{
  ℕ, Bool, true, false, ◌&&◌, ◌||◌, not, String, Option, none, some, List, [], ◌∷◌, ◌++◌, rest_of,
  leb, ◌==◌, if◌then◌else◌, ℤ, pos,
}
use kle_ng_api.Go.Strings.{◌<>◌}
use kle_ng_api.Go.FilePath.{base, join_path}
use kle_ng_api.Common.{RenderFile}
use kle_ng_api.Retry.{do_retry}

abbrev pub upload_attempts : ℤ
upload_attempts = pos 3

-- one second, in nanoseconds
abbrev pub upload_base_delay : ℕ
upload_base_delay = 1_000_000_000

abbrev pub filer_ttl : String
filer_ttl = "1h"

-- What a request comes back with.
pub data Reply : Type 0 where
  transport_error : Reply
  status : ℕ → Reply

-- a multipart form with one file
pub record Form : Type 0 where
  pub file_name : String
  pub content : String

pub record Request : Type 0 where
  pub url : String
  pub form : Form

-- `replies` and `timers` are what the environment answers, the first one next: with none left
-- the network is down, and a wait ends by the context. `sent` records the requests made.
pub record Net : Type 0 where
  pub replies : List Reply
  pub timers : List Bool
  pub sent : List (Request × Reply)

pub data UploadError : Type 0 where
  create_request : UploadError  -- "failed to create request"
  failed_transport : UploadError  -- "upload failed", retryable
  failed_status : ℕ → UploadError  -- "upload failed with status"
  retryable_status : ℕ → UploadError  -- the same in a retryableUploadError
  create_zip : UploadError  -- "failed to create ZIP"
  read_svg : UploadError  -- "failed to read SVG file"

-- `isRetryableUpload`: `errors.As` finds a retryableUploadError
unfoldable pub is_retryable_upload : UploadError → Bool
is_retryable_upload failed_transport = true
is_retryable_upload (retryable_status c) = true
is_retryable_upload _ = false

unfoldable pub answer : List Reply → Reply
answer [] = transport_error
answer (r ∷ rs) = r

-- `httpClient.Do`
unfoldable pub post : Request → Net → Reply × Net
unfolding answer
post q n =
    let r = answer n.replies in
    (r, record n { replies = rest_of n.replies; sent = n.sent ++ (q, r) ∷ [] })

-- how `sendUpload` reads the reply
unfoldable pub classify : Reply → Option UploadError
classify transport_error = some failed_transport
classify (status c) =
    if not (c == 200) && not (c == 201)
    then (if c == 429 || leb 500 c then some (retryable_status c) else some (failed_status c))
    else none

fires : List Bool → Bool
fires [] = false
fires (b ∷ bs) = b

-- the wait of `retry.Do` on its timer or the context
unfoldable pub await_timer : ℕ → Net → Bool × Net
unfolding fires
await_timer d n = (fires n.timers, record n { timers = rest_of n.timers })

-- the URL of a path and the multipart body that `uploadFile` assembles, once, before the attempts
unfoldable pub upload_request : String → String → String → Request
upload_request filer_url path content = record {
  url = filer_url <> "/" <> path <> "?ttl=" <> filer_ttl;
  form = record { file_name = base path; content = content };
}

-- `if err := …; err != nil { return err }` before the rest
abbrev pub and_then :
    Option UploadError × Net → (Net → Option UploadError × Net) → Option UploadError × Net
and_then (some e, n) rest = (some e, n)
and_then (none, n) rest = rest n

-- `valid_url` says whether `http.NewRequestWithContext` accepts a URL.
module _ (valid_url : String → Bool) where
  unfoldable pub send_upload : Request → Net → Option UploadError × Net
  unfolding post classify
  send_upload q n =
      if valid_url q.url
      then (let (r, n') = post q n in (classify r, n'))
      else (some create_request, n)

  -- `filerURL` is the receiver's field.
  module _ (filer_url : String) where
    unfoldable pub upload_file : String → String → Net → Option UploadError × Net
    upload_file path content n =
        do_retry (send_upload (upload_request filer_url path content)) await_timer
          (some is_retryable_upload) upload_base_delay upload_attempts n

    unfoldable pub upload_zip : String → String → Net → Option UploadError × Net
    upload_zip task_id zip n = upload_file (task_id <> "/" <> task_id <> ".zip") zip n

    -- `read_file` is `os.ReadFile`, `none` for an error.
    module _ (read_file : String → Option String) where
      unfoldable pub upload_svg : String → String → String → Net → Option UploadError × Net
      upload_svg task_id name file_path n = elim (read_file file_path) [
        | none ↦ (some read_svg, n)
        | some data_read ↦ upload_file (task_id <> "/" <> name <> ".svg") data_read n
      ]

      -- the loop over the manifest
      unfoldable pub upload_renders :
          String → String → List RenderFile → Net → Option UploadError × Net
      upload_renders task_id log_path [] n = (none, n)
      upload_renders task_id log_path (render ∷ renders) n =
          let svg_path = join_path (log_path ∷ (render.name <> ".svg") ∷ []) in
          and_then (upload_svg task_id render.name svg_path n)
            (upload_renders task_id log_path renders)

      -- `zip_of` is `CreateZipInMemory`
      unfoldable pub upload_to_storage :
          (String → Option String)
          → String
          → String
          → List RenderFile
          → Net
          → Option UploadError × Net
      unfolding upload_renders
      upload_to_storage zip_of task_id work_dir renders n = elim (zip_of work_dir) [
        | none ↦ (some create_zip, n)
        | some zip ↦
            and_then (upload_zip task_id zip n)
              (upload_renders task_id (join_path (work_dir ∷ "logs" ∷ [])) renders)
      ]
