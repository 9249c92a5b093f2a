-- ===== src/Storage/Delivery.antt =====
-- What the Filer has acknowledged after an upload.
use kle_ng_api.Prelude.{
  ℕ, suc, ◌<◌, ◌≡◌, ◌≢◌, refl, sym, ◌∙◌, subst, inl, inr, Bool, false, ◌||◌, String, Option, none,
  some, List, [], ◌∷◌, ◌++◌, append_assoc, append-nil, length, take, All, arith, ◌==◌,
  if◌then◌else◌, Option-cases, Bool-cases,
}
use kle_ng_api.Go.Strings.{◌<>◌}
use kle_ng_api.Go.FilePath.{join_path}
use kle_ng_api.Common.{RenderFile}
use kle_ng_api.Retry.Rule.{outcome, do_retry-outcome}
use kle_ng_api.Storage.{
  Reply, transport_error, status, Request, Net, UploadError, is_retryable_upload, answer, classify,
  and_then, await_timer, send_upload, upload_request, upload_file, upload_zip, upload_svg,
  upload_renders, upload_to_storage, upload_base_delay, upload_attempts,
}

-- The Filer acknowledges a file by 200 or 201. Of a request without that answer nothing is said: the
-- Filer may have kept the file although the reply was lost.
abbrev pub is_acknowledged : Reply → Bool
is_acknowledged transport_error = false
is_acknowledged (status c) = c == 200 || c == 201

unfoldable pub acknowledged : List (Request × Reply) → List Request
acknowledged [] = []
acknowledged ((q, r) ∷ log) =
    let rest = acknowledged log in if is_acknowledged r then q ∷ rest else rest

acknowledged-append :
    (log log' : List (Request × Reply))
    → acknowledged (log ++ log') ≡ acknowledged log ++ acknowledged log'
unfolding acknowledged
acknowledged-append [] log' = refl
acknowledged-append ((q, r) ∷ log) log' = ground (arith, acknowledged-append log log')

-- a reply is an error exactly when the file is not acknowledged
post_outcome :
    (q : Request) (r : Reply) (log : List (Request × Reply))
    → acknowledged (log ++ (q, r) ∷ [])
      ≡ outcome (acknowledged log) (acknowledged log ++ q ∷ []) (classify r)
unfolding classify
post_outcome q transport_error log =
    acknowledged-append log _ ∙ (unfold acknowledged in append-nil (acknowledged log))
post_outcome q (status c) log =
    acknowledged-append log _
    ∙ (unfold acknowledged in ground (arith, append-nil (acknowledged log)))

-- From here on `valid_url` and `filerURL` are fixed.
module _ (valid_url : String → Bool) where
  send_upload-outcome :
      (q : Request) (n : Net)
      → let r = send_upload valid_url q n in
        acknowledged r.1.sent ≡ outcome (acknowledged n.sent) (acknowledged n.sent ++ q ∷ []) r.0
  unfolding send_upload
  send_upload-outcome q n = elim (Bool-cases (valid_url q.url)) [
    | inl ok ↦ rw ok (post_outcome q (answer n.replies) n.sent)
    | inr bad ↦ rw bad
  ]

  module _ (filer_url : String) where
    -- one file is acknowledged once if the upload returns nil, and not at all otherwise
    upload_file-outcome :
        (path content : String) (n : Net)
        → let r = upload_file valid_url filer_url path content n in
          let q = upload_request filer_url path content in
          acknowledged r.1.sent ≡ outcome (acknowledged n.sent) (acknowledged n.sent ++ q ∷ []) r.0
    unfolding upload_file await_timer
    upload_file-outcome path content n =
        let q = upload_request filer_url path content in
        do_retry-outcome (send_upload valid_url q) await_timer (some is_retryable_upload)
          upload_base_delay (λ m. acknowledged m.sent) (acknowledged n.sent)
          (acknowledged n.sent ++ q ∷ [])
          (λ m h.
            subst
              (λ l.
                acknowledged (send_upload valid_url q m).1.sent
                ≡ outcome l (l ++ q ∷ []) (send_upload valid_url q m).0)
              h (send_upload-outcome q m))
          (λ d m h. h) upload_attempts n refl

unfoldable pub contents : Option String → String
contents none = ""
contents (some c) = c

-- the file of a render
abbrev pub render_path : String → RenderFile → String
render_path log_path render = join_path (log_path ∷ (render.name <> ".svg") ∷ [])

-- What the Filer is meant to acknowledge of the renders: one file for each, in order.
unfoldable pub render_requests :
    String → (String → Option String) → String → String → List RenderFile → List Request
unfolding contents
render_requests filer_url read_file task_id log_path [] = []
render_requests filer_url read_file task_id log_path (render ∷ renders) =
    upload_request filer_url (task_id <> "/" <> render.name <> ".svg")
      (contents (read_file (render_path log_path render)))
    ∷ render_requests filer_url read_file task_id log_path renders

abbrev pub AllReadable : (String → Option String) → String → List RenderFile → Type 0
AllReadable read_file log_path = All (λ r. read_file (render_path log_path r) ≢ none)

-- What is acknowledged at the end of an upload that is to store `wanted` after `before`: all of it
-- where the result is nil, and a proper prefix otherwise.
abbrev pub Delivered : List Request → List Request → Option UploadError → List Request → Type 0
Delivered before wanted none after = after ≡ before ++ wanted
Delivered before wanted (some e) after =
    (k : ℕ) × (k < length wanted) × (after ≡ before ++ take k wanted)

pub Delivered-none :
    (before wanted after : List Request) (o : Option UploadError)
    → o ≡ none
    → Delivered before wanted o after
    → after ≡ before ++ wanted
Delivered-none before wanted after o e h = subst (λ o. Delivered before wanted o after) e h

Delivered-cons :
    (before : List Request) (q : Request) (wanted : List Request) (o : Option UploadError)
    (after : List Request)
    → Delivered (before ++ q ∷ []) wanted o after
    → Delivered before (q ∷ wanted) o after
Delivered-cons before q wanted none after h = h ∙ append_assoc before (q ∷ []) wanted
Delivered-cons before q wanted (some e) after (k, lt, h) =
    (suc k, omega arith, h ∙ append_assoc before (q ∷ []) (take k wanted))

Delivered-and_then :
    (before : List Request) (q : Request) (wanted : List Request) (r : Option UploadError × Net)
    (rest : Net → Option UploadError × Net)
    → acknowledged r.1.sent ≡ outcome before (before ++ q ∷ []) r.0
    → ((n : Net) → Delivered (acknowledged n.sent) wanted (rest n).0 (acknowledged (rest n).1.sent))
    → Delivered before (q ∷ wanted) (and_then r rest).0 (acknowledged (and_then r rest).1.sent)
Delivered-and_then before q wanted (none, n) rest kept later =
    Delivered-cons before q wanted (rest n).0 (acknowledged (rest n).1.sent)
      (subst (λ l. Delivered l wanted (rest n).0 (acknowledged (rest n).1.sent)) kept (later n))
Delivered-and_then before q wanted (some e, n) rest kept later =
    (0, omega arith, kept ∙ sym (append-nil before))

module _ (valid_url : String → Bool) (filer_url : String) (read_file : String → Option String)
    (task_id : String) where
  upload_svg-outcome :
      (name path : String) (n : Net)
      → let r = upload_svg valid_url filer_url read_file task_id name path n in
        let q =
          upload_request filer_url (task_id <> "/" <> name <> ".svg") (contents (read_file path)) in
        acknowledged r.1.sent ≡ outcome (acknowledged n.sent) (acknowledged n.sent ++ q ∷ []) r.0
  unfolding upload_svg contents
  upload_svg-outcome name path n = elim (Option-cases (read_file path)) [
    | inl missing ↦ rw (missing, upload_svg)
    | inr (c, found) ↦
        rw (found, upload_svg)
          (upload_file-outcome valid_url filer_url (task_id <> "/" <> name <> ".svg") c n)
  ]

  upload_renders_delivers :
      (log_path : String) (renders : List RenderFile) (n : Net)
      → let r = upload_renders valid_url filer_url read_file task_id log_path renders n in
        Delivered
          (acknowledged n.sent)
          (render_requests filer_url read_file task_id log_path renders)
          r.0
          (acknowledged r.1.sent)
  unfolding upload_renders render_requests
  upload_renders_delivers log_path [] n = sym (append-nil (acknowledged n.sent))
  upload_renders_delivers log_path (render ∷ renders) n =
      Delivered-and_then (acknowledged n.sent) _ _ _ _
        (upload_svg-outcome render.name (render_path log_path render) n)
        (upload_renders_delivers log_path renders)

  -- what an upload of a task is to store
  abbrev pub task_requests : String → String → List RenderFile → List Request
  task_requests zip work_dir renders =
      upload_request filer_url (task_id <> "/" <> task_id <> ".zip") zip
      ∷ render_requests filer_url read_file task_id (join_path (work_dir ∷ "logs" ∷ [])) renders

  -- If the archive can be made, then whatever the network answers: when an upload returns nil, the
  -- requests that the Filer has acknowledged (by 200 or 201) are the zip and every render of the
  -- manifest, each once and in that order; when it returns an error, they are a proper prefix of
  -- these. What the Filer keeps of a request whose answer was lost or was an error is not said.
  pub upload_to_storage_delivers :
      (zip_of : String → Option String) (work_dir zip : String) (renders : List RenderFile)
      (n : Net)
      → zip_of work_dir ≡ some zip
      → let r = upload_to_storage valid_url filer_url read_file zip_of task_id work_dir renders n in
        Delivered
          (acknowledged n.sent)
          (task_requests zip work_dir renders)
          r.0
          (acknowledged r.1.sent)
  unfolding upload_to_storage upload_zip
  upload_to_storage_delivers zip_of work_dir zip renders n made =
      rw (made, upload_to_storage)
        (Delivered-and_then (acknowledged n.sent) _ _ _ _
          (upload_file-outcome valid_url filer_url (task_id <> "/" <> task_id <> ".zip") zip n)
          (upload_renders_delivers (join_path (work_dir ∷ "logs" ∷ [])) renders))
