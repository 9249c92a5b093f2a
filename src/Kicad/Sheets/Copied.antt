-- ===== src/Kicad/Sheets/Copied.antt =====
-- Every schematic render of the manifest has its file where the upload looks for it.
use kle_ng_api.Prelude.{
  ◌≡◌, ◌≢◌, Bool, true, String, Option, none, List, [], ◌∷◌, ◌++◌, eq_refl, All, All-append,
  Bool-cases, Option-cases, inl, inr, arith, ◌⊎◌,
}
use kle_ng_api.Go.FilePath.{dir, join_path}
use kle_ng_api.Go.Strings.{◌<>◌}
use kle_ng_api.Common.{RenderFile}
use kle_ng_api.Kicad.Sheets.{
  Files, read_file, SheetError, copy_file, sheet_render, render_target, less, project_of,
  export_args, sorted_result, insert_render, sort_renders, copy_sheets, generate_schematic_image,
}

abbrev pub HasFile : String → Files → RenderFile → Type 0
HasFile log_dir files r = read_file (render_target log_dir r) files ≢ none

-- what is there stays there
abbrev pub Grows : Files → Files → Type 0
Grows before after = (p : String) → read_file p before ≢ none → read_file p after ≢ none

copy_file-Grows :
    (writable : String → Bool) (src dst : String) (files : Files)
    → Grows files (copy_file writable src dst files).1
unfolding copy_file read_file
copy_file-Grows writable src dst files p h = ground arith

copy_file-there :
    (writable : String → Bool) (src dst : String) (files : Files)
    → (copy_file writable src dst files).0 ≡ true
    → read_file dst (copy_file writable src dst files).1 ≢ none
unfolding copy_file read_file
copy_file-there writable src dst files h = ground (arith, eq_refl dst)

pub All-Grows :
    (log_dir : String) (before after : Files) (renders : List RenderFile)
    → Grows before after
    → All (HasFile log_dir before) renders
    → All (HasFile log_dir after) renders
All-Grows log_dir before after [] g h = tt
All-Grows log_dir before after (r ∷ renders) g h =
    (g (render_target log_dir r) h.0, All-Grows log_dir before after renders g h.1)

insert_render-All :
    (P : RenderFile → Type 0) (r : RenderFile) (renders : List RenderFile)
    → P r
    → All P renders
    → All P (insert_render r renders)
unfolding insert_render
insert_render-All P r [] h hs = (h, tt)
insert_render-All P r (s ∷ renders) h hs = elim (Bool-cases (less s r)) [
  | inl first ↦ rw (first, insert_render) (hs.0, insert_render-All P r renders h hs.1)
  | inr not_first ↦ rw (not_first, insert_render) (h, hs)
]

pub sort_renders-All :
    (P : RenderFile → Type 0) (renders : List RenderFile)
    → All P renders
    → All P (sort_renders renders)
unfolding sort_renders
sort_renders-All P [] h = tt
sort_renders-All P (r ∷ renders) h =
    insert_render-All P r (sort_renders renders) h.0 (sort_renders-All P renders h.1)

-- a result that holds renders has all their files
abbrev pub Complete : String → (SheetError ⊎ List RenderFile) × Files → Type 0
Complete log_dir (inl e, files) = Unit
Complete log_dir (inr renders, files) = All (HasFile log_dir files) renders

sorted-Complete :
    (log_dir : String) (r : (SheetError ⊎ List RenderFile) × Files)
    → Complete log_dir r
    → Complete log_dir (sorted_result r)
sorted-Complete log_dir (inl e, files) h = tt
sorted-Complete log_dir (inr renders, files) h = sort_renders-All (HasFile log_dir files) renders h

module _ (writable : String → Bool) (export : List String → Files → Bool × String × Files)
    (glob : String → Files → Option (List String)) where
  copy_sheets-Complete :
      (project_name log_dir : String) (svgs : List String) (done : List RenderFile) (files : Files)
      → All (HasFile log_dir files) done
      → Complete log_dir (copy_sheets writable export glob project_name log_dir svgs done files)
  unfolding copy_sheets
  copy_sheets-Complete project_name log_dir [] done files h = h
  copy_sheets-Complete project_name log_dir (svg ∷ svgs) done files h =
      let r = sheet_render project_name svg in
      let target = render_target log_dir r in
      let files' = (copy_file writable svg target files).1 in
      elim (Bool-cases (copy_file writable svg target files).0) [
        | inl copied ↦
            rw (copied, copy_sheets)
              (copy_sheets-Complete project_name log_dir svgs (done ++ r ∷ []) files' (
                All-append (HasFile log_dir files') done (r ∷ [])
                  (All-Grows log_dir files files' done (copy_file-Grows writable svg target files)
                    h)
                  (copy_file-there writable svg target files copied, tt)))
        | inr failed ↦ rw (failed, copy_sheets) tt
      ]

  -- Whatever kicad-cli writes and the listing gives: if the schematic images are generated, then
  -- for every render of the result the file of its name is among the files, in the directory of
  -- the logs, also where two sheets have one render name.
  pub generate_schematic_image-Complete :
      (schematic_path log_path : String) (files : Files)
      → Complete
          (dir log_path)
          (generate_schematic_image writable export glob schematic_path log_path files)
  unfolding generate_schematic_image
  generate_schematic_image-Complete schematic_path log_path files =
      let run = export (export_args schematic_path) files in
      let files' = run.2 in
      let project_name = project_of schematic_path in
      let root_svg = join_path (dir schematic_path ∷ (project_name <> ".svg") ∷ []) in
      elim (Option-cases (read_file root_svg files')) [
        | inl e ↦ rw (e, generate_schematic_image) tt
        | inr (root, e) ↦
            elim (Option-cases (glob (join_path (dir schematic_path ∷ "*.svg" ∷ [])) files')) [
              | inl g ↦ rw (e, g, generate_schematic_image) tt
              | inr (svgs, g) ↦
                  rw (e, g, generate_schematic_image)
                    (sorted-Complete (dir log_path)
                      (copy_sheets writable export glob project_name (dir log_path) svgs [] files')
                      (copy_sheets-Complete project_name (dir log_path) svgs [] files' tt))
            ]
      ]
