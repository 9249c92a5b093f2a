-- ===== src/Server/Filer.antt =====
-- `FilerProxy`, `KicadGetTaskRender` and `KicadGetTaskResult` of backend/cmd/server/main.go.
pub mod Downloads
pub mod Stored
pub mod Roundtrip
use kle_ng_api.Prelude.{
  ℕ, Bool, String, Option, none, some, List, [], ◌∷◌, not, ◌==◌, str_eq, if◌then◌else◌, pos,
}
use kle_ng_api.Go.Strings.{◌<>◌}
use kle_ng_api.Go.Decimal.{show_int}
use kle_ng_api.Server.Http.{Headers, Response, stream, send_err, add_header, set_header}

-- the Filer's response to a GET request; `none` where the request fails
pub record FilerResponse : Type 0 where
  pub status_code : ℕ
  pub headers : Headers
  pub content : String

-- the loop over `resp.Header`, one pair for each value
unfoldable pub copy_headers : Headers → Headers → Headers
copy_headers [] h = h
copy_headers ((k, v) ∷ from) h = copy_headers from (add_header k v h)

unfoldable pub object_url : String → String → String
object_url filer_url object_name = filer_url <> "/" <> object_name

unfoldable pub render_object : String → String → String
render_object task_id name = task_id <> "/" <> name <> ".svg"

unfoldable pub archive_name : String → String
archive_name task_id = task_id <> ".zip"

unfoldable pub result_object : String → String
unfolding archive_name
result_object task_id = task_id <> "/" <> archive_name task_id

-- the answer for a file that is found
unfoldable pub pass_on : String → FilerResponse → Headers → Response
unfolding copy_headers
pass_on content_disposition resp h =
    let copied = copy_headers resp.headers h in
    record {
      status_code = resp.status_code;
      headers =
          if str_eq content_disposition ""
          then copied
          else set_header "Content-Disposition" content_disposition copied;
      body = stream resp.content;
    }

-- `valid_url` says whether `http.NewRequest` accepts a URL, `fetch` is `httpClient.Do`.
module _ (valid_url : String → Bool) (fetch : String → Option FilerResponse)
    (filer_url : String) where
  unfoldable pub filer_proxy : String → String → Headers → Response
  unfolding pass_on object_url
  filer_proxy object_name content_disposition h =
      let url = object_url filer_url object_name in
      if not (valid_url url) then send_err h 500 "Failed to create request" else elim (fetch url) [
        | none ↦ send_err h 502 "Failed to fetch file"
        | some resp ↦
            if resp.status_code == 404
            then send_err h 404 "File not found"
            else if not (resp.status_code == 200)
            then send_err h 502 ("Storage error: " <> show_int (pos resp.status_code))
            else pass_on content_disposition resp h
      ]

  unfoldable pub get_task_render : String → String → Headers → Response
  get_task_render task_id name h = filer_proxy (render_object task_id name) "" h

  unfoldable pub get_task_result : String → Headers → Response
  get_task_result task_id h =
      filer_proxy (result_object task_id)
        ("attachment; filename=\"" <> archive_name task_id <> "\"") h
