-- ===== src/Worker/Handover.antt =====
-- The two halves of a task put together, as HandleGenerateKicadProject of
-- backend/internal/worker/task_handler.go calls them: `NewPCB` leaves its files in the work
-- directory, and `UploadToStorage` reads them there.
use kle_ng_api.Prelude.{
  ◌≡◌, subst, suc, ap, Bool, String, Option, none, some, List, ◌++◌, length, All, inr,
}
use kle_ng_api.Go.Files.{read_file}
use kle_ng_api.Common.{ProjectFiles}
use kle_ng_api.Kicad.Floats.{Floats}
use kle_ng_api.Kicad.Json.{Fields}
use kle_ng_api.Kicad.Project.{System, Build}
use kle_ng_api.Kicad.Project.Steps.{new_pcb}
use kle_ng_api.Kicad.Project.Leaves.{Leaves}
use kle_ng_api.Kicad.Project.Rendered.{IsReliable, HasRenders, new_pcb-AllRendered}
use kle_ng_api.Storage.{Request, Net, UploadError, upload_to_storage}
use kle_ng_api.Storage.Delivery.{
  acknowledged, Delivered-none, task_requests, upload_to_storage_delivers,
}
use kle_ng_api.Storage.Success.{Kept, IsUrl, upload_to_storage-none}
use kle_ng_api.Storage.Zip.{create_zip_in_memory}
use kle_ng_api.Storage.Zip.Whole.{below, IsWholeWalk, IsArchived, create_zip_in_memory-IsArchived}
use kle_ng_api.Storage.Zip.Entries.{
  Holds, IsReadableWalk, create_zip_in_memory-Holds, create_zip_in_memory-made,
}

-- `encode` is the zip format: the bytes of an archive with some entries.
abbrev pub zip_bytes :
    (List (String × String) → String) → Option (List (String × String)) → Option String
zip_bytes encode none = none
zip_bytes encode (some entries) = some (encode entries)

module _ {F : Type 0} (os : System F) (encode : List (String × String) → String)
    (valid_url : String → Bool) (filer_url : String) (task_id : String) where
  -- the upload that follows a build, with the files that the build has left
  unfoldable pub upload_built : Build → String → ProjectFiles → Net → Option UploadError × Net
  upload_built b work_dir made n =
      upload_to_storage valid_url filer_url (λ path. read_file path b.files)
        (λ d. zip_bytes encode (create_zip_in_memory os.abs os.walk d b.files)) task_id work_dir
        made.renders n

  -- what the Filer is to hold of a build, with the entries of the archive
  unfoldable pub built_requests :
      Build → String → ProjectFiles → List (String × String) → List Request
  built_requests b work_dir made entries =
      task_requests valid_url filer_url (λ path. read_file path b.files) task_id (encode entries)
        work_dir made.renders

  -- A project that `NewPCB` has built reaches the Filer: if kicad-cli and `filepath.Abs` behave as
  -- documented, the walk of the work directory meets no error, visits every file below it, and only
  -- files that can be read, the URLs are accepted, and the Filer answers each request at once with
  -- 200 or 201, then the upload returns nil, and the Filer has acknowledged, in this order, an
  -- archive in which every file below the work directory stands under its relative path and with its
  -- content, and the file of every render of the manifest.
  pub built_is_stored :
      (f : Floats F) (request : Fields F) (b b' : Build) (work_dir root : String)
      (made : ProjectFiles) (n : Net)
      → IsReliable os
      → new_pcb f os task_id request b ≡ (inr (work_dir, made), b')
      → os.abs work_dir ≡ some root
      → IsReadableWalk (os.walk root b'.files) b'.files
      → IsWholeWalk root (os.walk root b'.files) b'.files
      → ((entries : List (String × String))
          → All (IsUrl valid_url) (built_requests b' work_dir made entries))
      → Kept (suc (length made.renders)) n.replies
      → let r = upload_built b' work_dir made n in
        (entries : List (String × String)) × (r.0 ≡ none)
        × Holds root (os.walk root b'.files) b'.files (some entries)
        × All (IsArchived root b'.files entries) (below root b'.files)
        × (acknowledged r.1.sent ≡ acknowledged n.sent ++ built_requests b' work_dir made entries)
  unfolding upload_built built_requests Leaves
  built_is_stored f request b b' work_dir root made n reliable built at_root walked whole urls
        kept =
      let read = λ (path : String). read_file path b'.files in
      let (entries, e) =
        create_zip_in_memory-made os.abs os.walk work_dir root b'.files at_root walked in
      let zip_of =
        λ (d : String). zip_bytes encode (create_zip_in_memory os.abs os.walk d b'.files) in
      let zipped : zip_of work_dir ≡ some (encode entries) = ap (zip_bytes encode) e in
      let there =
        subst (Leaves HasRenders) built (new_pcb-AllRendered os reliable f task_id request b) in
      let ok =
        upload_to_storage-none valid_url filer_url read task_id zip_of work_dir (encode entries)
          made.renders n zipped there (urls entries) kept in
      (
        entries,
        ok,
        subst (Holds root (os.walk root b'.files) b'.files) e
            (create_zip_in_memory-Holds os.abs os.walk work_dir root b'.files at_root),
        create_zip_in_memory-IsArchived os.abs os.walk work_dir root b'.files entries at_root whole
            e,
        Delivered-none (acknowledged n.sent) (built_requests b' work_dir made entries) _ _ ok (
            upload_to_storage_delivers valid_url filer_url read task_id zip_of work_dir
              (encode entries) made.renders n zipped),
      )
