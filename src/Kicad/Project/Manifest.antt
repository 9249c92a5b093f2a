-- ===== src/Kicad/Project/Manifest.antt =====
-- What a project that `NewPCB` has built is made of.
use kle_ng_api.Prelude.{◌≡◌, refl, String, List, ◌∷◌, inl, inr, ◌⊎◌, All}
use kle_ng_api.Go.Strings.{◌<>◌}
use kle_ng_api.Common.{RenderFile, ProjectFiles}
use kle_ng_api.Kicad.Floats.{Floats}
use kle_ng_api.Kicad.Json.{Fields}
use kle_ng_api.Kicad.Request.{Plan}
use kle_ng_api.Kicad.Sheets.{Files, SheetError}
use kle_ng_api.Kicad.Sheets.RootFirst.{
  RootFirst, IsSchematic, HasRootFirst, generate_schematic_image-HasRootFirst,
}
use kle_ng_api.Kicad.Project.{System, Build, schematic_images, no_sheets_or}
use kle_ng_api.Kicad.Project.Leaves.{Leaves, then-Leaves, continue-Leaves}
use kle_ng_api.Kicad.Project.Steps.{build_project, new_pcb}

-- the manifest of a task
pub record IsManifest (task_id : String) (files : ProjectFiles) : Type 0 where
  pub archive_named : files.archive ≡ task_id <> ".zip"
  pub schematic : List RenderFile
  pub boards_first :
      files.renders
      ≡ record { name = "front"; kind = "pcb-front"; sheet = "" }
        ∷ record { name = "back"; kind = "pcb-back"; sheet = "" }
        ∷ schematic
  pub root_first : RootFirst schematic
  pub kinds : All IsSchematic schematic

abbrev manifest_of : String → List RenderFile → ProjectFiles
manifest_of task_id schematic = record {
  renders =
      record { name = "front"; kind = "pcb-front"; sheet = "" }
      ∷ record { name = "back"; kind = "pcb-back"; sheet = "" }
      ∷ schematic;
  archive = task_id <> ".zip";
}

manifest :
    (task_id : String) (schematic : List RenderFile)
    → RootFirst schematic
    → All IsSchematic schematic
    → IsManifest task_id (manifest_of task_id schematic)
manifest task_id renders first all_sheets = record {
  archive_named = refl;
  schematic = renders;
  boards_first = refl;
  root_first = first;
  kinds = all_sheets;
}

sheet_step :
    (r : (SheetError ⊎ List RenderFile) × Files) (b : Build)
    → HasRootFirst r
    → Leaves (λ renders b'. RootFirst renders × All IsSchematic renders) (no_sheets_or r b)
unfolding Leaves
sheet_step (inl e, files) b h = tt
sheet_step (inr renders, files) b h = h

module _ {F : Type 0} (f : Floats F) (os : System F) where
  sheets-Leaves :
      (sch log : String) (b : Build)
      → Leaves
          (λ renders b'. RootFirst renders × All IsSchematic renders)
          (schematic_images os sch log b)
  unfolding schematic_images
  sheets-Leaves sch log b =
      sheet_step _ b (generate_schematic_image-HasRootFirst os.writable _ os.glob sch log b.files)

  abbrev IsResult : String → String × ProjectFiles → Build → Type 0
  IsResult task_id r b = IsManifest task_id r.1

  build-Leaves :
      (task_id : String) (p : Plan F) (b : Build)
      → Leaves (IsResult task_id) (build_project f os task_id p b)
  unfolding build_project Leaves
  build-Leaves task_id p b =
      let Q = IsResult task_id in
      then-Leaves Q _ _ λ work_dir b1. then-Leaves Q _ _ λ project_name b2.
        then-Leaves Q _ _ λ project_path b3. then-Leaves Q _ _ λ log_dir b4.
          then-Leaves Q _ _ λ written b5. then-Leaves Q _ _ λ preset_path b6.
            then-Leaves Q _ _ λ placed b7. then-Leaves Q _ _ λ bundled b8.
              then-Leaves Q _ _ λ told b9.
                continue-Leaves (λ renders b'. RootFirst renders × All IsSchematic renders) Q _ _
                  (sheets-Leaves _ _ b9)
                  λ renders b10 first. then-Leaves Q _ _ λ told_again b11.
                    then-Leaves Q _ _ λ rendered b12. manifest task_id renders first.0 first.1

  -- A project that `NewPCB` reports as built has the manifest that the frontend relies on: the
  -- front and the back of the board, then renders of the kind "schematic" only, those whose sheet is
  -- empty (the root's, or one of whose name `slugifySheet` keeps nothing) before all others, and the
  -- archive under the task's name.
  pub new_pcb-IsManifest :
      (task_id : String) (request : Fields F) (b : Build)
      → Leaves (λ r b'. IsManifest task_id r.1) (new_pcb f os task_id request b)
  unfolding new_pcb
  new_pcb-IsManifest task_id request b =
      then-Leaves (IsResult task_id) _ _
        (λ p b1. then-Leaves (IsResult task_id) _ _ (λ told b2. build-Leaves task_id p b2))
