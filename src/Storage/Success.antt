-- ===== src/Storage/Success.antt =====
-- An upload on a network that answers at once.
use kle_ng_api.Prelude.{
  ℕ, zero, suc, ◌≡◌, ◌≢◌, refl, subst, sym, Bool, true, String, Option, none, some, Option-cases,
  List, [], ◌∷◌, length, arith, All, inl, inr, rest_of,
}
use kle_ng_api.Go.Strings.{◌<>◌}
use kle_ng_api.Go.FilePath.{join_path}
use kle_ng_api.Common.{RenderFile}
use kle_ng_api.Retry.{attempt_loop, do_retry, normalize_attempts}
use kle_ng_api.Storage.{
  Reply, transport_error, status, Request, Net, UploadError, answer, classify, post, and_then,
  send_upload, upload_request, upload_file, await_timer, is_retryable_upload, upload_base_delay,
  upload_attempts, upload_zip, upload_svg, upload_renders, upload_to_storage,
}
use kle_ng_api.Storage.Delivery.{
  is_acknowledged, AllReadable, render_path, render_requests, task_requests,
}

-- the next replies are of files that are kept
abbrev pub Kept : ℕ → List Reply → Type 0
Kept zero replies = Unit
Kept (suc k) replies = (is_acknowledged (answer replies) ≡ true) × Kept k (rest_of replies)

stored_is_no_error : (r : Reply) → is_acknowledged r ≡ true → classify r ≡ none
unfolding classify
stored_is_no_error transport_error h = absurd (ground (arith, h))
stored_is_no_error (status c) h = ground (arith, h)

-- a request has left the rest of the replies, and no error
abbrev Done : List Reply → Option UploadError × Net → Type 0
Done replies r = (r.0 ≡ none) × (r.1.replies ≡ replies)

-- a call that succeeds is not repeated
do_retry-first :
    {E S : Type 0} (fn : S → Option E × S) (wait : ℕ → S → Bool × S) (retryable : Option (E → Bool))
    (base : ℕ) (s : S)
    → (fn s).0 ≡ none
    → do_retry fn wait retryable base upload_attempts s ≡ (none, (fn s).1)
unfolding do_retry normalize_attempts attempt_loop
do_retry-first fn wait retryable base s h = rw (h, attempt_loop) refl

module _ (valid_url : String → Bool) where
  abbrev pub IsUrl : Request → Type 0
  IsUrl q = valid_url q.url ≡ true

  send_upload-Done :
      (q : Request) (n : Net)
      → valid_url q.url ≡ true
      → is_acknowledged (answer n.replies) ≡ true
      → Done (rest_of n.replies) (send_upload valid_url q n)
  unfolding send_upload post
  send_upload-Done q n v h = rw v (stored_is_no_error (answer n.replies) h, refl)

  module _ (filer_url : String) where
    -- the first attempt is the only one
    upload_file-Done :
        (path content : String) (n : Net)
        → valid_url (upload_request filer_url path content).url ≡ true
        → is_acknowledged (answer n.replies) ≡ true
        → Done (rest_of n.replies) (upload_file valid_url filer_url path content n)
    unfolding upload_file
    upload_file-Done path content n v h =
        let q = upload_request filer_url path content in
        let d = send_upload-Done q n v h in
        subst (Done (rest_of n.replies))
          (sym (
            do_retry-first (send_upload valid_url q) await_timer (some is_retryable_upload)
              upload_base_delay n d.0))
          (refl, d.1)

    and_then-Done :
        (k : ℕ) (replies : List Reply) (r : Option UploadError × Net)
        (rest : Net → Option UploadError × Net)
        → Kept k replies
        → Done replies r
        → ((n : Net) → Kept k n.replies → (rest n).0 ≡ none)
        → (and_then r rest).0 ≡ none
    and_then-Done k replies (none, n) rest kept d later = later n (subst (Kept k) (sym d.1) kept)
    and_then-Done k replies (some e, n) rest kept d later = absurd (ground (arith, d.0))

    module _ (read_file : String → Option String) (task_id : String) where
      upload_svg-Done :
          (log_path : String) (render : RenderFile) (n : Net)
          → read_file (render_path log_path render) ≢ none
          → IsUrl (upload_request filer_url (task_id <> "/" <> render.name <> ".svg") "")
          → is_acknowledged (answer n.replies) ≡ true
          → Done (rest_of n.replies) (
              upload_svg valid_url filer_url read_file task_id render.name
                (render_path log_path render)
                n)
      unfolding upload_svg upload_request
      upload_svg-Done log_path render n there v h =
          elim (Option-cases (read_file (render_path log_path render))) [
            | inl e ↦ absurd (there e)
            | inr (c, e) ↦
                rw (e, upload_svg)
                  (upload_file-Done (task_id <> "/" <> render.name <> ".svg") c n v h)
          ]

      renders-Done :
          (log_path : String) (renders : List RenderFile) (n : Net)
          → AllReadable read_file log_path renders
          → All IsUrl (render_requests filer_url read_file task_id log_path renders)
          → Kept (length renders) n.replies
          → (upload_renders valid_url filer_url read_file task_id log_path renders n).0 ≡ none
      unfolding upload_renders render_requests upload_request
      renders-Done log_path [] n there v h = refl
      renders-Done log_path (render ∷ renders) n there v h =
          and_then-Done (length renders) (rest_of n.replies) _ _ h.1
            (upload_svg-Done log_path render n there.0 v.0 h.0)
            (λ n' kept. renders-Done log_path renders n' there.1 v.1 kept)

      -- If the archive can be made, the file of every render can be read, and the network answers
      -- each request at once with 200 or 201, then the upload returns nil.
      pub upload_to_storage-none :
          (zip_of : String → Option String) (work_dir zip : String) (renders : List RenderFile)
          (n : Net)
          → zip_of work_dir ≡ some zip
          → AllReadable read_file (join_path (work_dir ∷ "logs" ∷ [])) renders
          → All IsUrl (task_requests valid_url filer_url read_file task_id zip work_dir renders)
          → Kept (suc (length renders)) n.replies
          → (upload_to_storage valid_url filer_url read_file zip_of task_id work_dir renders n).0
            ≡ none
      unfolding upload_to_storage upload_zip
      upload_to_storage-none zip_of work_dir zip renders n made there v h =
          rw (made, upload_to_storage)
            (and_then-Done (length renders) (rest_of n.replies) _ _ h.1
              (upload_file-Done (task_id <> "/" <> task_id <> ".zip") zip n v.0 h.0)
              (λ n' kept.
                renders-Done (join_path (work_dir ∷ "logs" ∷ [])) renders n' there v.1 kept))

-- both parts of a sequence have succeeded
and_then-none :
    (r : Option UploadError × Net) (rest : Net → Option UploadError × Net)
    → (and_then r rest).0 ≡ none
    → (rest r.1).0 ≡ none
and_then-none (none, n) rest h = h
and_then-none (some e, n) rest h = absurd (ground (arith, h))

and_then-first :
    (r : Option UploadError × Net) (rest : Net → Option UploadError × Net)
    → (and_then r rest).0 ≡ none
    → r.0 ≡ none
and_then-first (none, n) rest h = refl
and_then-first (some e, n) rest h = absurd (ground (arith, h))

module _ (valid_url : String → Bool) (filer_url : String) (read_file : String → Option String)
    (task_id : String) where
  svg_readable :
      (name path : String) (n : Net)
      → (upload_svg valid_url filer_url read_file task_id name path n).0 ≡ none
      → read_file path ≢ none
  unfolding upload_svg
  svg_readable name path n h missing = ground (arith, h, missing)

  renders_readable :
      (log_path : String) (renders : List RenderFile) (n : Net)
      → (upload_renders valid_url filer_url read_file task_id log_path renders n).0 ≡ none
      → AllReadable read_file log_path renders
  unfolding upload_renders
  renders_readable log_path [] n h = tt
  renders_readable log_path (render ∷ renders) n h =
      let path = render_path log_path render in
      let r = upload_svg valid_url filer_url read_file task_id render.name path n in
      let rest = upload_renders valid_url filer_url read_file task_id log_path renders in
      (
        svg_readable render.name path n (and_then-first r rest h),
        renders_readable log_path renders r.1 (and_then-none r rest h),
      )

  -- an upload that returns nil has read the file of every render
  pub upload_to_storage-AllReadable :
      (zip_of : String → Option String) (work_dir zip : String) (renders : List RenderFile)
      (n : Net)
      → zip_of work_dir ≡ some zip
      → (upload_to_storage valid_url filer_url read_file zip_of task_id work_dir renders n).0 ≡ none
      → AllReadable read_file (join_path (work_dir ∷ "logs" ∷ [])) renders
  unfolding upload_to_storage
  upload_to_storage-AllReadable zip_of work_dir zip renders n made h =
      let log_path = join_path (work_dir ∷ "logs" ∷ []) in
      let sent = upload_zip valid_url filer_url task_id zip n in
      let rest = upload_renders valid_url filer_url read_file task_id log_path renders in
      let parts : upload_to_storage valid_url filer_url read_file zip_of task_id work_dir renders n
          ≡ and_then sent rest =
        rw (made, upload_to_storage) refl in
      renders_readable log_path renders sent.1
        (and_then-none sent rest (subst (λ r. r.0 ≡ none) parts h))
