-- ===== src/Examples/Uploads.antt =====
-- An upload of a zip and two renders, in which one request is answered 503 first.
use kle_ng_api.Prelude.{
  suc, ◌+◌, ◌*◌, ◌≤◌, length, refl, Bool, true, false, String, Option, none, some, List, [], ◌∷◌,
  All, str_eq, if◌then◌else◌,
}
use kle_ng_api.Common.{RenderFile}
use kle_ng_api.Storage.{
  Request, status, Net, UploadError, filer_ttl, upload_to_storage, upload_zip, upload_file,
  send_upload, upload_svg, is_retryable_upload, await_timer,
}
use kle_ng_api.Retry.{do_retry, normalize_attempts, is_permanent}
use kle_ng_api.Server.Filer.Stored.{content_at}
use kle_ng_api.Server.Filer.Roundtrip.{Serves, Downloaded, upload_to_storage-Downloaded}
use kle_ng_api.Go.Strings.{◌<>◌}
use kle_ng_api.Go.FilePath.{join_path}
use kle_ng_api.Storage.Attempts.{requests, requests-upload_to_storage}
use kle_ng_api.Storage.Delivery.{
  acknowledged, Delivered, render_path, task_requests, upload_to_storage_delivers,
}
use kle_ng_api.Go.Files.{Files, Visit, visit}
use kle_ng_api.Storage.Zip.{create_zip_in_memory}
use kle_ng_api.Storage.Zip.Entries.{Holds, create_zip_in_memory-Holds}
use kle_ng_api.Server.Filer.{
  object_url, result_object, archive_name, FilerResponse, get_task_render, get_task_result,
}
use kle_ng_api.Server.Filer.Downloads.{attachment, Served, get_task_result_outcome}

abbrev any_url : String → Bool
any_url url = true

abbrev svg_of : String → Option String
svg_of path = some "<svg/>"

abbrev zip_of : String → Option String
zip_of work_dir = some "zip"

abbrev two_renders : List RenderFile
two_renders =
    record { name = "front"; kind = "pcb-front"; sheet = "" }
    ∷ record { name = "schematic"; kind = "schematic"; sheet = "" }
    ∷ []

abbrev busy_once : Net
busy_once = record {
  replies = status 201 ∷ status 503 ∷ status 201 ∷ status 200 ∷ [];
  timers = true ∷ [];
  sent = [];
}

upload_to_storage_delivers_example :
    let r =
      upload_to_storage any_url "http://filer" svg_of zip_of "t1" "/tmp/t1" two_renders busy_once in
    Delivered
      (acknowledged busy_once.sent)
      (task_requests any_url "http://filer" svg_of "t1" "zip" "/tmp/t1" two_renders)
      r.0
      (acknowledged r.1.sent)
upload_to_storage_delivers_example =
    upload_to_storage_delivers any_url "http://filer" svg_of "t1" zip_of "/tmp/t1" "zip" two_renders
      busy_once refl

requests-upload_to_storage_example :
    requests
      (upload_to_storage any_url "http://filer" svg_of zip_of "t1" "/tmp/t1" two_renders
        busy_once).1
    ≤ requests busy_once + 3 * suc (length two_renders)
requests-upload_to_storage_example =
    requests-upload_to_storage any_url "http://filer" svg_of "t1" zip_of "/tmp/t1" two_renders
      busy_once

-- a Filer that holds some files
abbrev holding : List Request → String → Option FilerResponse
holding kept url = elim (content_at (url <> "?ttl=" <> filer_ttl) kept) [
  | none ↦ none
  | some content ↦ some (record { status_code = 200; headers = []; content = content })
]

holding-Serves : (kept : List Request) → Serves (holding kept) "http://filer" kept
holding-Serves kept object content h = (
  record { status_code = 200; headers = []; content = content },
  rw (h, holding) refl,
  refl,
  refl,
)

abbrev uploaded : Option UploadError × Net
uploaded =
    upload_to_storage any_url "http://filer" svg_of zip_of "t1" "/tmp/t1" two_renders busy_once

upload_to_storage-Downloaded_example :
    All
      (λ render. Downloaded (svg_of (render_path (join_path ("/tmp/t1" ∷ "logs" ∷ [])) render)) (
        get_task_render any_url
          (holding (acknowledged uploaded.1.sent))
          "http://filer"
          "t1"
          render.name
          []))
      two_renders
    × Downloaded
        (some "zip")
        (get_task_result any_url (holding (acknowledged uploaded.1.sent)) "http://filer" "t1" [])
unfolding upload_to_storage upload_zip upload_file do_retry normalize_attempts send_upload
    upload_svg is_permanent is_retryable_upload await_timer
upload_to_storage-Downloaded_example =
    upload_to_storage-Downloaded any_url (holding (acknowledged uploaded.1.sent)) "http://filer"
      "t1" svg_of zip_of "/tmp/t1" two_renders "zip" busy_once [] refl refl (refl, (refl, tt)) refl
      (holding-Serves (acknowledged uploaded.1.sent))

abbrev one_file : String → Option FilerResponse
one_file url =
    if str_eq url "http://filer/t1/t1.zip"
    then some (record {
      status_code = 200;
      headers = ("Content-Disposition", "inline") ∷ [];
      content = "zip";
    })
    else none

get_task_result_outcome_example :
    Served any_url one_file "http://filer" true
      (attachment (archive_name "t1"))
      (one_file (object_url "http://filer" (result_object "t1")))
      (get_task_result any_url one_file "http://filer" "t1" [])
get_task_result_outcome_example = get_task_result_outcome any_url one_file "http://filer" "t1" []

abbrev log_only : Files
log_only = ("/tmp/t1/logs/build.log", "done") ∷ []

abbrev visits_of : String → Files → List Visit
visits_of root files =
    visit "/tmp/t1" true ∷ visit "/tmp/t1/logs" true ∷ visit "/tmp/t1/logs/build.log" false ∷ []

create_zip_in_memory-Holds_example :
    Holds "/tmp/t1"
      (visits_of "/tmp/t1" log_only)
      log_only
      (create_zip_in_memory (λ path. some path) visits_of "/tmp/t1" log_only)
create_zip_in_memory-Holds_example =
    create_zip_in_memory-Holds (λ path. some path) visits_of "/tmp/t1" "/tmp/t1" log_only refl
