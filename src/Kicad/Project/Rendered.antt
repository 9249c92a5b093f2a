-- ===== src/Kicad/Project/Rendered.antt =====
-- Every render that `NewPCB` lists has its file in the directory of the logs.
use kle_ng_api.Prelude.{
  ◌≡◌, ◌≢◌, subst, true, Bool-cases, String, none, some, List, [], ◌∷◌, All, inl, inr, ◌⊎◌, arith,
}
use kle_ng_api.Go.FilePath.{dir, join_path}
use kle_ng_api.Common.{RenderFile, ProjectFiles}
use kle_ng_api.Kicad.Floats.{Floats}
use kle_ng_api.Kicad.Json.{Fields}
use kle_ng_api.Kicad.Request.{Plan}
use kle_ng_api.Kicad.Sheets.{Files, SheetError, read_file, render_target}
use kle_ng_api.Kicad.Sheets.Copied.{
  HasFile, Grows, All-Grows, Complete, generate_schematic_image-Complete,
}
use kle_ng_api.Kicad.Project.Leaves.{
  Leaves, then-Leaves, continue-Leaves, Leaves-map, demand-Leaves,
}
use kle_ng_api.Kicad.Project.{
  System, Build, demand, create_work_dir, create_log_dir, make_dir, publish_marker,
  schematic_images, no_sheets_or, svg_args, run_kicad_svg, generate_render,
}
use kle_ng_api.Kicad.Project.Steps.{build_project, new_pcb}

no_sheets_or-Leaves :
    (log_dir : String) (r : (SheetError ⊎ List RenderFile) × Files) (b : Build)
    → Complete log_dir r
    → Leaves (λ renders b'. All (HasFile log_dir b'.files) renders) (no_sheets_or r b)
unfolding Leaves
no_sheets_or-Leaves log_dir (inl e, files) b h = tt
no_sheets_or-Leaves log_dir (inr renders, files) b h = h

-- What is relied on of `os.MkdirTemp`, `filepath.Abs` and `kicad-cli pcb export svg`: the path of
-- a new temporary directory, made absolute, is clean, and so is what is put below it; a run writes
-- its output file if it succeeds, and takes no other file away.
pub record IsReliable {F : Type 0} (os : System F) : Type 0 where
  pub logs_absolute :
      (task_id p d : String)
      → os.temp_dir task_id ≡ some p
      → os.abs p ≡ some d
      → os.abs (join_path (d ∷ "logs" ∷ [])) ≡ some (join_path (d ∷ "logs" ∷ []))
  pub log_in_logs :
      (task_id p d : String)
      → os.temp_dir task_id ≡ some p
      → os.abs p ≡ some d
      → dir (join_path (join_path (d ∷ "logs" ∷ []) ∷ "build.log" ∷ []))
        ≡ join_path (d ∷ "logs" ∷ [])
  pub svg_written :
      (pcb_file layers output_file : String) (files : Files)
      → let e = os.run "kicad-cli" (svg_args os pcb_file layers output_file) files in
        e.succeeded ≡ true → read_file output_file e.files ≢ none
  pub files_kept :
      (pcb_file layers output_file : String) (files : Files)
      → Grows files (os.run "kicad-cli" (svg_args os pcb_file layers output_file) files).files

abbrev front_render : RenderFile
front_render = record { name = "front"; kind = "pcb-front"; sheet = "" }

abbrev back_render : RenderFile
back_render = record { name = "back"; kind = "pcb-back"; sheet = "" }

-- every render of a list has its file, in the directory of the logs
abbrev pub AllRendered : String → List RenderFile → Files → Type 0
AllRendered log_dir renders files = All (HasFile log_dir files) renders

publish_marker-Leaves :
    (line log_dir : String) (renders : List RenderFile) (b : Build)
    → AllRendered log_dir renders b.files
    → Leaves (λ u b'. AllRendered log_dir renders b'.files) (publish_marker line b)
unfolding publish_marker Leaves
publish_marker-Leaves line log_dir renders b h = h

-- the renders of a result have their files below its work directory
abbrev pub HasRenders : String × ProjectFiles → Build → Type 0
HasRenders (work_dir, made) b =
    AllRendered (join_path (work_dir ∷ "logs" ∷ [])) made.renders b.files

module _ {F : Type 0} (os : System F) where
  -- a work directory is a temporary directory, made absolute
  abbrev IsWorkDir : String → Type 0
  IsWorkDir d = (t : String) × (p : String) × (os.temp_dir t ≡ some p) × (os.abs p ≡ some d)

  create_work_dir-IsWorkDir :
      (task_id : String) (b : Build) → Leaves (λ d b'. IsWorkDir d) (create_work_dir os task_id b)
  unfolding create_work_dir
  create_work_dir-IsWorkDir task_id b =
      let P = λ (d : String) (b' : Build). IsWorkDir d in
      continue-Leaves (λ path b'. os.temp_dir task_id ≡ some path) P _ _
        (demand-Leaves (os.temp_dir task_id) _ b)
        λ path b1 new. then-Leaves P _ _ λ told b2.
          Leaves-map (λ d b'. os.abs path ≡ some d) P (demand (os.abs path) _ b2)
            (λ d b' e. (task_id, path, new, e)) (demand-Leaves (os.abs path) _ b2)

  schematic_images-Leaves :
      (sch log_path : String) (b : Build)
      → Leaves
          (λ renders b'. All (HasFile (dir log_path) b'.files) renders)
          (schematic_images os sch log_path b)
  unfolding schematic_images
  schematic_images-Leaves sch log_path b =
      no_sheets_or-Leaves (dir log_path) _ b
        (generate_schematic_image-Complete os.writable _ os.glob sch log_path b.files)

  module _ (r : IsReliable os) where
    create_log_dir-Leaves :
        (work_dir : String) (b : Build)
        → IsWorkDir work_dir
        → Leaves
            (λ d b'. dir (join_path (d ∷ "build.log" ∷ [])) ≡ join_path (work_dir ∷ "logs" ∷ []))
            (create_log_dir os work_dir b)
    unfolding create_log_dir
    create_log_dir-Leaves work_dir b (t, p, new, a) =
        let path = join_path (work_dir ∷ "logs" ∷ []) in
        let again = r.logs_absolute t p work_dir new a in
        then-Leaves _ (make_dir os path b) _ λ made b1.
          Leaves-map (λ d b'. os.abs path ≡ some d) _ (demand (os.abs path) _ b1)
            (λ d b' e.
              let same : d ≡ path = grind (arith, e, again) in
              rw same (r.log_in_logs t p work_dir new a))
            (demand-Leaves (os.abs path) _ b1)

    run_kicad_svg-Leaves :
        (side pcb layers out : String) (b : Build)
        → Leaves
            (λ u b'. Grows b.files b'.files × (read_file out b'.files ≢ none))
            (run_kicad_svg os side pcb layers out b)
    unfolding run_kicad_svg Leaves
    run_kicad_svg-Leaves side pcb layers out b =
        let e = os.run "kicad-cli" (svg_args os pcb layers out) b.files in
        elim (Bool-cases e.succeeded) [
          | inl ok ↦
              rw ok (r.files_kept pcb layers out b.files, r.svg_written pcb layers out b.files ok)
          | inr bad ↦ rw bad tt
        ]

    -- the export of one more render
    svg-All :
        (side pcb layers : String) (render : RenderFile) (log_dir : String)
        (renders : List RenderFile) (b : Build)
        → AllRendered log_dir renders b.files
        → Leaves
            (λ u b'. AllRendered log_dir (render ∷ renders) b'.files)
            (run_kicad_svg os side pcb layers (render_target log_dir render) b)
    svg-All side pcb layers render log_dir renders b h =
        Leaves-map _ _ _ (λ u b' g. (g.1, All-Grows log_dir b.files b'.files renders g.0 h))
          (run_kicad_svg-Leaves side pcb layers (render_target log_dir render) b)

    generate_render-Leaves :
        (pcb log_path : String) (renders : List RenderFile) (b : Build)
        → AllRendered (dir log_path) renders b.files
        → Leaves
            (λ u b'. AllRendered (dir log_path) (front_render ∷ back_render ∷ renders) b'.files)
            (generate_render os pcb log_path b)
    unfolding generate_render
    generate_render-Leaves pcb log_path renders b h =
        let log_dir = dir log_path in
        continue-Leaves (λ u b'. AllRendered log_dir (front_render ∷ renders) b'.files) _ _ _
          (svg-All "front" pcb "F.Cu,F.SilkS,Edge.Cuts" front_render log_dir renders b h)
          (λ u b1 h1.
            Leaves-map (λ u b2. AllRendered log_dir (back_render ∷ front_render ∷ renders) b2.files)
              _ _ (λ u b2 h2. (h2.1.0, (h2.0, h2.1.1)))
              (svg-All "back" pcb "B.Cu,B.SilkS,Edge.Cuts" back_render log_dir
                (front_render ∷ renders) b1 h1))

    module _ (f : Floats F) where
      build_project-Leaves :
          (task_id : String) (p : Plan F) (b : Build)
          → Leaves HasRenders (build_project f os task_id p b)
      unfolding build_project Leaves
      build_project-Leaves task_id p b =
          let Q = HasRenders in
          continue-Leaves (λ d b'. IsWorkDir d) Q _ _ (create_work_dir-IsWorkDir task_id b)
            λ work_dir b1 abs. then-Leaves Q _ _ λ project_name b2.
              then-Leaves Q _ _ λ project_path b3.
                continue-Leaves _ Q _ _ (create_log_dir-Leaves work_dir b3 abs)
                  λ log_dir b4 at_logs. then-Leaves Q _ _ λ written b5.
                    then-Leaves Q _ _ λ preset_path b6. then-Leaves Q _ _ λ placed b7.
                      then-Leaves Q _ _ λ bundled b8. then-Leaves Q _ _ λ told b9.
                        continue-Leaves _ Q _ _ (schematic_images-Leaves _ _ b9)
                          λ renders b10 sheets.
                            continue-Leaves _ Q _ _ (publish_marker-Leaves _ _ _ b10 sheets)
                              λ told_again b11 kept.
                                continue-Leaves _ Q _ _
                                  (generate_render-Leaves _ _ renders b11 kept)
                                  λ rendered b12 all.
                                    subst
                                      (λ d.
                                        AllRendered d (front_render ∷ back_render ∷ renders)
                                          b12.files)
                                      at_logs all

      pub new_pcb-AllRendered :
          (task_id : String) (request : Fields F) (b : Build)
          → Leaves HasRenders (new_pcb f os task_id request b)
      unfolding new_pcb Leaves
      new_pcb-AllRendered task_id request b =
          then-Leaves HasRenders _ _
            λ p b1. then-Leaves HasRenders _ _ λ told b2. build_project-Leaves task_id p b2
