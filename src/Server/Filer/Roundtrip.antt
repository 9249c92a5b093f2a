-- ===== src/Server/Filer/Roundtrip.antt =====
-- What is uploaded by a worker is what the server serves for download.
use kle_ng_api.Prelude.{
  ◌≡◌, refl, sym, subst, Bool, true, String, Option, none, some, List, [], ◌∷◌, ◌++◌, All, All-map,
  All-both, inl, arith,
}
use kle_ng_api.Go.Strings.{◌<>◌}
use kle_ng_api.Go.FilePath.{join_path}
use kle_ng_api.Common.{RenderFile}
use kle_ng_api.Storage.{Request, Net, upload_request, upload_to_storage}
use kle_ng_api.Storage.Delivery.{
  acknowledged, Delivered-none, render_path, render_requests, task_requests,
  upload_to_storage_delivers,
}
use kle_ng_api.Storage.Success.{upload_to_storage-AllReadable}
use kle_ng_api.Server.Http.{Headers, Response, stream}
use kle_ng_api.Server.Filer.{
  FilerResponse, object_url, render_object, archive_name, result_object, pass_on, filer_proxy,
  get_task_render, get_task_result,
}
use kle_ng_api.Server.Filer.Downloads.{stored_at, upload_url}
use kle_ng_api.Server.Filer.Stored.{
  content_at, content_at-append, content_at-later, content_at-here, IsStored, renders-IsStored,
  no_archive,
}

-- The Filer answers a GET with what was stored last under the name.
abbrev pub Serves : (String → Option FilerResponse) → String → List Request → Type 0
Serves fetch filer_url kept =
    (object content : String)
    → content_at (stored_at filer_url object) kept ≡ some content
    → (resp : FilerResponse) × (fetch (object_url filer_url object) ≡ some resp)
      × (resp.status_code ≡ 200)
      × (resp.content ≡ content)

-- a file that is there, and a response that is its content
abbrev pub Downloaded : Option String → Response → Type 0
Downloaded none r = ⊥
Downloaded (some content) r = (r.status_code ≡ 200) × (r.body ≡ stream content)

module _ (valid_url : String → Bool) (fetch : String → Option FilerResponse)
    (filer_url : String) where
  -- a URL to fetch an object from is accepted
  abbrev pub CanFetch : String → Type 0
  CanFetch object = valid_url (object_url filer_url object) ≡ true

  filer_proxy-Downloaded :
      (kept : List Request) (object disposition content : String) (h : Headers)
      → CanFetch object
      → Serves fetch filer_url kept
      → content_at (stored_at filer_url object) kept ≡ some content
      → Downloaded (some content) (filer_proxy valid_url fetch filer_url object disposition h)
  unfolding filer_proxy pass_on
  filer_proxy-Downloaded kept object disposition content h url serves at =
      let (resp, found, ok, same) = serves object content at in
      rw (url, found, filer_proxy) (ground (arith, ok, same))

  module _ (task_id : String) (read_file zip_of : String → Option String) (work_dir : String) where
    abbrev log_path : String
    log_path = join_path (work_dir ∷ "logs" ∷ [])

    -- the archive is stored first, and nothing later has its URL
    archive_stored :
        (renders : List RenderFile) (zip : String)
        → content_at
            (stored_at filer_url (result_object task_id))
            (task_requests valid_url filer_url read_file task_id zip work_dir renders)
          ≡ some zip
    unfolding result_object archive_name upload_request
    archive_stored renders zip =
        content_at-here (stored_at filer_url (result_object task_id)) zip
          (upload_request filer_url (task_id <> "/" <> task_id <> ".zip") zip)
          (render_requests filer_url read_file task_id log_path renders)
          (upload_url filer_url (task_id <> "/" <> task_id <> ".zip") zip) refl
          (inl (no_archive filer_url task_id read_file log_path renders))

    -- If `UploadToStorage` has returned nil, the URLs are accepted, and the Filer answers with what
    -- was stored last under a name, then the file of every render of the manifest was there in the work directory, and
    -- `GET /api/pcb/{task_id}/render/{name}` answers 200 with its content; and
    -- `GET /api/pcb/{task_id}/result` answers 200 with the archive.
    pub upload_to_storage-Downloaded :
        (renders : List RenderFile) (zip : String) (n : Net) (h : Headers)
        → zip_of work_dir ≡ some zip
        → CanFetch (result_object task_id)
        → All (λ render. CanFetch (render_object task_id render.name)) renders
        → (upload_to_storage valid_url filer_url read_file zip_of task_id work_dir renders n).0
          ≡ none
        → Serves fetch filer_url (
            acknowledged
              (upload_to_storage valid_url filer_url read_file zip_of task_id work_dir renders
                n).1.sent)
        → All
            (λ render.
              Downloaded
                (read_file (render_path log_path render))
                (get_task_render valid_url fetch filer_url task_id render.name h))
            renders
          × Downloaded (some zip) (get_task_result valid_url fetch filer_url task_id h)
    unfolding get_task_render get_task_result
    upload_to_storage-Downloaded renders zip n h made url urls ok serves =
        let before = acknowledged n.sent in
        let wanted = task_requests valid_url filer_url read_file task_id zip work_dir renders in
        let arrived = Delivered-none before wanted _ _ ok (
          upload_to_storage_delivers valid_url filer_url read_file task_id zip_of work_dir zip
            renders n made) in
        let serves' = subst (Serves fetch filer_url) arrived serves in
        let readable =
          upload_to_storage-AllReadable valid_url filer_url read_file task_id zip_of work_dir zip
            renders n made ok in
        let Here =
          IsStored filer_url task_id read_file log_path
            (render_requests filer_url read_file task_id log_path renders) in
        let Fetched = λ (render : RenderFile). CanFetch (render_object task_id render.name) in
        (
          All-map (λ r. Here r × Fetched r) _ renders
              (λ r ((content, there, at), ready).
                subst
                  (λ o. Downloaded o (get_task_render valid_url fetch filer_url task_id r.name h))
                  (sym there)
                  (filer_proxy-Downloaded (before ++ wanted) (render_object task_id r.name) ""
                    content h ready serves'
                    (content_at-append (stored_at filer_url (render_object task_id r.name)) content
                      before wanted (content_at-later _ content _ _ at))))
              (All-both Here Fetched renders
                (renders-IsStored filer_url task_id read_file log_path renders readable) urls),
          filer_proxy-Downloaded (before ++ wanted) (result_object task_id) _ zip h url serves' (
              content_at-append (stored_at filer_url (result_object task_id)) zip before wanted
                (archive_stored renders zip)),
        )
