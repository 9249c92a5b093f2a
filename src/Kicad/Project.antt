-- ===== src/Kicad/Project.antt =====
-- The steps of `NewPCB` of backend/internal/kicad/kicad.go that touch files or run programs, and
-- `WriteSwitchPresetFile` of preset.go. A step takes the state of the build and may fail; what the
-- operating system does is a `System`. kbplacer's output also goes to the log stream, which
-- Logstream.Writer shows.
pub mod Steps
pub mod Leaves
pub mod Manifest
pub mod Rendered
use kle_ng_api.Prelude.{
  ℕ, ◌-◌, Bool, true, false, not, String, Option, none, some, List, [], ◌∷◌, ◌++◌, ◌⊎◌, inl, inr,
  length, drop, ltb, has_key, if◌then◌else◌,
}
use kle_ng_api.Go.Strings.{◌<>◌}
use kle_ng_api.Go.FilePath.{dir, join_path}
use kle_ng_api.Common.{RenderFile}
use kle_ng_api.Logstream.LineWriter.{Bytes}
use kle_ng_api.Kicad.Names.{chars, of_chars, sanitize_filepath}
use kle_ng_api.Kicad.Json.{Fields}
use kle_ng_api.Kicad.Result.{Error}
use kle_ng_api.Kicad.Sheets.{Files, SheetError, read_file, generate_schematic_image}
use kle_ng_api.Kicad.Bundle.{Visit, kicad_3rd_party_path, bundle_footprint_libraries}
use kle_ng_api.Kicad.Request.{switches_library_path}

-- what a program leaves behind
pub record Exit : Type 0 where
  pub started : Bool
  pub succeeded : Bool
  pub output : String
  pub files : Files

-- `temp_dir` is `os.MkdirTemp("", taskID)`, `indent` is `json.MarshalIndent` of an object, and
-- `bytes_of` the UTF-8 bytes of a text.
pub record System (F : Type 0) : Type 0 where
  pub temp_dir : String → Option String
  pub makeable : String → Bool
  pub writable : String → Bool
  pub readable : String → Bool
  pub abs : String → Option String
  pub home : Option String
  pub run : String → List String → Files → Exit
  pub glob : String → Files → Option (List String)
  pub walk : String → Files → List Visit
  pub indent : Fields F → String
  pub bytes_of : String → Bytes

pub record Build : Type 0 where
  pub files : Files
  pub dirs : List String
  pub markers : List String  -- the worker's lines in the log stream

pub data BuildError : Type 0 where
  refused : Error → BuildError
  no_directory : String → BuildError
  no_absolute_path : BuildError
  not_written : String → BuildError
  preset_path_has_space : BuildError
  no_log_file : BuildError
  kbplacer_not_started : BuildError
  kbplacer_failed : Option Bytes → BuildError  -- with the log, if it can be read
  libraries_not_bundled : BuildError
  no_sheets : SheetError → BuildError
  no_render : String → String → BuildError

abbrev pub Step : Type 0 → Type 0
Step A = Build → (BuildError ⊎ A) × Build

-- `if err != nil { return err }` before the rest
unfoldable pub continue :
    {A B : Type 0} → (BuildError ⊎ A) × Build → (A → Step B) → (BuildError ⊎ B) × Build
continue (inl e, b) rest = (inl e, b)
continue (inr a, b) rest = rest a b

infixl 5 ◌>>=◌ ◌>>◌
abbrev pub ◌>>=◌ : {A B : Type 0} → Step A → (A → Step B) → Step B
m >>= rest = λ b. continue (m b) rest

abbrev pub ◌>>◌ : {B : Type 0} → Step (Unit {0}) → Step B → Step B
m >> k = m >>= λ _. k

abbrev pub done : {A : Type 0} → A → Step A
done a b = (inr a, b)

abbrev pub fail : {A : Type 0} → BuildError → Step A
fail e b = (inl e, b)

-- a value that may be missing
abbrev pub demand : {A : Type 0} → Option A → BuildError → Step A
demand none e = fail e
demand (some a) e = done a

-- `publishMarker`
unfoldable pub publish_marker : String → Step (Unit {0})
publish_marker line b = (inr tt, record b { markers = b.markers ++ line ∷ [] })

-- The log in the error of a failed build: its last 5000 bytes, behind a notice, if it is longer.
unfoldable pub log_tail : Bytes → Bytes → Bytes
log_tail notice log = if ltb 5000 (length log) then notice ++ drop (length log - 5000) log else log

-- the result of the schematic export as a step's
abbrev pub no_sheets_or :
    (SheetError ⊎ List RenderFile) × Files → Build → (BuildError ⊎ List RenderFile) × Build
no_sheets_or (inl e, files') b = (inl (no_sheets e), record b { files = files' })
no_sheets_or (inr renders, files') b = (inr renders, record b { files = files' })

module _ {F : Type 0} (os : System F) where
  unfoldable pub write_file : String → String → Step (Unit {0})
  write_file path content b =
      if os.writable path
      then (inr tt, record b { files = (path, content) ∷ b.files })
      else (inl (not_written path), b)

  -- `os.Mkdir`, which fails on a directory that exists
  unfoldable pub make_dir : String → Step (Unit {0})
  make_dir path b =
      if has_key path b.dirs
      then (inl (no_directory path), b)
      else if os.makeable path
      then (inr tt, record b { dirs = path ∷ b.dirs })
      else (inl (no_directory path), b)

  remember_dir : String → Step (Unit {0})
  remember_dir path b = (inr tt, record b { dirs = path ∷ b.dirs })

  unfoldable pub create_work_dir : String → Step String
  unfolding remember_dir
  create_work_dir task_id = do
    path ← demand (os.temp_dir task_id) (no_directory task_id)
    remember_dir path
    demand (os.abs path) no_absolute_path

  unfoldable pub create_kicad_work_dir : String → String → Step String
  unfolding make_dir
  create_kicad_work_dir work_dir project_name = do
    let path = join_path (work_dir ∷ of_chars (sanitize_filepath (chars project_name)) ∷ [])
    make_dir path
    demand (os.abs path) no_absolute_path

  unfoldable pub create_log_dir : String → Step String
  create_log_dir work_dir = do
    let path = join_path (work_dir ∷ "logs" ∷ [])
    make_dir path
    demand (os.abs path) no_absolute_path

  -- the end of `RunKBPlacer`, when the program has run
  judge_kbplacer : String → Exit → Build → (BuildError ⊎ Unit {0}) × Build
  unfolding log_tail
  judge_kbplacer log_path e b =
      let b' = record b { files = (log_path, e.output) ∷ e.files } in
      let tail = log_tail (os.bytes_of "...[truncated]...\n") (os.bytes_of e.output) in
      if e.succeeded
      then (inr tt, b')
      else (inl (kbplacer_failed (if os.readable log_path then some tail else none)), b')

  -- `RunKBPlacer` with the arguments that are built
  unfoldable pub run_kbplacer : List String → String → Step (Unit {0})
  unfolding judge_kbplacer
  run_kbplacer args log_path b =
      let created = record b { files = (log_path, "") ∷ b.files } in
      let e = os.run "python3" args created.files in
      if os.writable log_path
      then (if e.started
          then judge_kbplacer log_path e created
          else (inl kbplacer_not_started, created))
      else (inl no_log_file, b)

  unfoldable pub bundle_libraries : String → List String → Step (Unit {0})
  bundle_libraries project_path nicknames b = elim (kicad_3rd_party_path os.home) [
    | none ↦ (inl libraries_not_bundled, b)
    | some third_party ↦
        let (bundled, files') =
          bundle_footprint_libraries os.writable os.makeable os.walk
            (join_path (third_party ∷ switches_library_path ∷ [])) project_path nicknames b.files in
        (if bundled then inr tt else inl libraries_not_bundled, record b { files = files' })
  ]

  -- the schematic export, on the files of the build
  unfoldable pub schematic_images : String → String → Step (List RenderFile)
  schematic_images sch_file log_path b =
      no_sheets_or
        (generate_schematic_image os.writable
          (λ args files. let e = os.run "kicad-cli" args files in (e.succeeded, e.output, e.files))
          os.glob sch_file log_path b.files)
        b

  abbrev pub svg_args : String → String → String → List String
  svg_args pcb_file layers output_file =
      "pcb" ∷ "export" ∷ "svg" ∷ "--layers" ∷ layers ∷ "--exclude-drawing-sheet"
      ∷ "--fit-page-to-board" ∷ "--mode-single" ∷ "-o" ∷ output_file ∷ pcb_file ∷ []

  -- `RunKiCadSVG`; `side` is what `GenerateRender` puts in front of the error
  unfoldable pub run_kicad_svg : String → String → String → String → Step (Unit {0})
  run_kicad_svg side pcb_file layers output_file b =
      let e = os.run "kicad-cli" (svg_args pcb_file layers output_file) b.files in
      (if e.succeeded then inr tt else inl (no_render side e.output), record b { files = e.files })

  unfoldable pub generate_render : String → String → Step (Unit {0})
  unfolding run_kicad_svg
  generate_render pcb_path log_path = do
    let log_dir = dir log_path
    run_kicad_svg "front" pcb_path "F.Cu,F.SilkS,Edge.Cuts" (join_path (log_dir ∷ "front.svg" ∷ []))
    run_kicad_svg "back" pcb_path "B.Cu,B.SilkS,Edge.Cuts" (join_path (log_dir ∷ "back.svg" ∷ []))
