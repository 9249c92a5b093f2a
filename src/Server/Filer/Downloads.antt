-- ===== src/Server/Filer/Downloads.antt =====
-- What the server serves for download is what the worker has stored.
use Prim.Native.String.append
use text.Mathlib.TextLemmas.{append_assoc as text_assoc}
use kle_ng_api.Prelude.{
  ◌≡◌, ◌⊎◌, refl, sym, ap, ap₂, ◌∙◌, Bool, true, false, String, Option, none, some, List, [], ◌∷◌,
  ◌++◌, map, arith, inl, inr, Option-cases, str_eq, eq_refl, Bool-cases, eq_iff,
}
use kle_ng_api.Go.Strings.{◌<>◌}
use kle_ng_api.Common.{RenderFile}
use kle_ng_api.Storage.{filer_ttl, upload_request}
use kle_ng_api.Storage.Delivery.{render_requests, task_requests}
use kle_ng_api.Server.Http.{Headers, Response, stream, send_err, get_header, del_header, set_header}
use kle_ng_api.Server.Filer.{
  FilerResponse, object_url, render_object, archive_name, result_object, copy_headers, pass_on,
  filer_proxy, get_task_result,
}

-- the URL that a file of this name is stored with
abbrev pub stored_at : String → String → String
stored_at filer_url object = object_url filer_url object <> "?ttl=" <> filer_ttl

pub upload_url :
    (filer_url object content : String)
    → (upload_request filer_url object content).url ≡ stored_at filer_url object
unfolding upload_request object_url
upload_url filer_url object content = sym (
    text_assoc filer_url ("/" <> object) ("?ttl=" <> filer_ttl)
    ∙ ap (λ t. filer_url <> t) (text_assoc "/" object ("?ttl=" <> filer_ttl)))

render_urls :
    (filer_url : String) (read_file : String → Option String) (task_id log_path : String)
    (renders : List RenderFile)
    → map (λ q. q.url) (render_requests filer_url read_file task_id log_path renders)
      ≡ map (λ r. stored_at filer_url (render_object task_id r.name)) renders
unfolding render_requests render_object
render_urls filer_url read_file task_id log_path [] = refl
render_urls filer_url read_file task_id log_path (r ∷ renders) =
    ap₂ (λ x xs. x ∷ xs) (upload_url filer_url (task_id <> "/" <> r.name <> ".svg") _)
      (render_urls filer_url read_file task_id log_path renders)

-- A task's upload stores the zip at the URL that the result is fetched from, and each render of
-- the manifest at the URL that a request for its name is fetched from, but for the `ttl` query.
pub uploads_match_downloads :
    (valid_url : String → Bool) (filer_url : String) (read_file : String → Option String)
    (task_id zip work_dir : String) (renders : List RenderFile)
    → map (λ q. q.url) (task_requests valid_url filer_url read_file task_id zip work_dir renders)
      ≡ stored_at filer_url (result_object task_id)
        ∷ map (λ r. stored_at filer_url (render_object task_id r.name)) renders
unfolding result_object archive_name
uploads_match_downloads valid_url filer_url read_file task_id zip work_dir renders =
    ap₂ (λ x xs. x ∷ xs) (upload_url filer_url (task_id <> "/" <> task_id <> ".zip") zip)
      (render_urls filer_url read_file task_id _ renders)

get-del : (k : String) (h : Headers) (v : String) → get_header k (del_header k h ++ (k, v) ∷ []) ≡ v
unfolding get_header del_header
get-del k [] v = ground (arith, eq_refl k)
get-del k ((j, u) ∷ h) v = ground (arith, get-del k h v)

get-set : (k : String) (v : String) (h : Headers) → get_header k (set_header k v h) ≡ v
unfolding set_header
get-set k v h = get-del k h v

-- the header that names the archive
abbrev pub attachment : String → String
attachment name = "attachment; filename=\"" <> name <> "\""

attachment_ne : (name : String) → str_eq (attachment name) "" ≡ false
attachment_ne name =
    let starts = append.cons "a" "ttachment; filename=\"" (name <> "\"") in
    elim (Bool-cases (str_eq (attachment name) "")) [
      | inr e ↦ e
      | inl e ↦
          let empty : attachment name ≡ "" = (eq_iff (attachment name) "").0 e in
          absurd (cc (starts, empty))
    ]

passed :
    (d : String) (resp : FilerResponse) (h : Headers)
    → str_eq d "" ≡ false
    → let r = pass_on d resp h in
      (r.status_code ≡ resp.status_code)
      × (r.body ≡ stream resp.content)
      × (get_header "Content-Disposition" r.headers ≡ d)
unfolding pass_on
passed d resp h e =
    (refl, refl, rw e (get-set "Content-Disposition" d (copy_headers resp.headers h)))

module _ (valid_url : String → Bool) (fetch : String → Option FilerResponse)
    (filer_url : String) where
  -- What a download is answered when the Filer answers `found`; `valid` says whether a request to it
  -- can be made.
  abbrev pub Served : Bool → String → Option FilerResponse → Response → Type 0
  Served false disposition found r = r.status_code ≡ 500
  Served true disposition none r = r.status_code ≡ 502
  Served true disposition (some resp) r =
      ((resp.status_code ≡ 200)
        × (r.status_code ≡ 200)
        × (r.body ≡ stream resp.content)
        × (get_header "Content-Disposition" r.headers ≡ disposition))
      ⊎ ((resp.status_code ≡ 404) × (r.status_code ≡ 404))
      ⊎ (¬ (resp.status_code ≡ 200) × ¬ (resp.status_code ≡ 404) × (r.status_code ≡ 502))

  -- `GET /api/pcb/{task_id}/result` answers 200 exactly when a request to the Filer can be
  -- made and the Filer answers 200; then the browser is told to save the content under the archive's
  -- name, whatever headers the Filer sent. A missing file is 404, and any other answer or none of the
  -- Filer 502; where no request to the Filer can be made of the task's name, the answer is 500.
  pub get_task_result_outcome :
      (task_id : String) (h : Headers)
      → let r = get_task_result valid_url fetch filer_url task_id h in
        Served
          (valid_url (object_url filer_url (result_object task_id)))
          (attachment (archive_name task_id))
          (fetch (object_url filer_url (result_object task_id)))
          r
  unfolding get_task_result filer_proxy send_err
  get_task_result_outcome task_id h =
      elim (Bool-cases (valid_url (object_url filer_url (result_object task_id)))) [
        | inr refused ↦ rw (refused, filer_proxy) refl
        | inl valid ↦ elim (Option-cases (fetch (object_url filer_url (result_object task_id)))) [
          | inl e ↦ rw (valid, e, filer_proxy) refl
          | inr (resp, e) ↦
              rw (valid, e, filer_proxy)
                (ground (
                  arith,
                  passed (attachment (archive_name task_id)) resp h
                      (attachment_ne (archive_name task_id)),
                ))
        ]
      ]
