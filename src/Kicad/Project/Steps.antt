-- ===== src/Kicad/Project/Steps.antt =====
-- `NewPCB` of backend/internal/kicad/kicad.go, put together.
use kle_ng_api.Prelude.{Bool, ℤ, true, false, String, Option, none, some, [], ◌∷◌, if◌then◌else◌}
use kle_ng_api.Go.Strings.{◌<>◌, contains_any}
use kle_ng_api.Go.FilePath.{join_path}
use kle_ng_api.Common.{ProjectFiles}
use kle_ng_api.Kicad.Floats.{Floats}
use kle_ng_api.Kicad.Names.{chars, of_chars, get_project_name}
use kle_ng_api.Kicad.Json.{Fields, get, as_text, as_object, text_or_empty}
use kle_ng_api.Kicad.Result.{Result, ok, err, invalid_layout_metadata}
use kle_ng_api.Kicad.Options.{KbplacerOptions, build_kbplacer_args}
use kle_ng_api.Kicad.Preset.{parse_track_preset, build_switch_preset_file}
use kle_ng_api.Kicad.Request.{Plan, parse_request}
use kle_ng_api.Kicad.Bundle.{kicad_3rd_party_path}
use kle_ng_api.Kicad.Project.{
  System, refused, preset_path_has_space, Step, ◌>>=◌, ◌>>◌, done, fail, demand, publish_marker,
  write_file, create_work_dir, create_kicad_work_dir, create_log_dir, run_kbplacer,
  bundle_libraries, schematic_images, generate_render,
}

-- The options that `NewPCB` gives to kbplacer for a plan.
unfoldable pub options_of : {F : Type 0} → Plan F → String → String → String → KbplacerOptions F
options_of p pcb_file layout_file preset_path = record {
  pcb_path = pcb_file;
  layout_path = layout_file;
  route_switches_with_diodes = p.route_switches_with_diodes;
  route_rows_and_columns = p.route_rows_and_columns;
  switch_footprint = p.switch_footprint;
  diode_footprint = p.diode_footprint;
  stabilizer_footprint = p.stabilizer_footprint;
  switch_rotation = p.switch_rotation;
  switch_side = p.switch_side;
  diode_rotation = p.diode.rotation;
  diode_side = p.diode.side;
  diode_position_x = p.diode.x;
  diode_position_y = p.diode.y;
  diode_preset_path = preset_path;
  create_led_pcb_elements = p.create_led;
  create_led_sch_file = p.create_led;
  led_footprint = p.led.footprint;
  led_capacitor_footprint = p.led.capacitor_footprint;
  skip_led_decoupling = p.skip_led_decoupling;
  led_rotation = p.led.placement.rotation;
  led_side = p.led.placement.side;
  led_position_x = p.led.placement.x;
  led_position_y = p.led.placement.y;
  led_capacitor_rotation = p.led.capacitor_placement.rotation;
  led_capacitor_side = p.led.capacitor_placement.side;
  led_capacitor_position_x = p.led.capacitor_placement.x;
  led_capacitor_position_y = p.led.capacitor_placement.y;
}

-- the settings of a request, none if they are no object
settings_of : {F : Type 0} → Fields F → Option (Fields F)
settings_of request = as_object (get "settings" request)

has_preset : {F : Type 0} → Result (Option (Fields F)) → Bool
has_preset (ok (some p)) = true
has_preset (ok none) = false
has_preset (err e) = false

-- whether the settings hold a preset that the routing leaves unused
unfoldable pub ignores_preset : {F : Type 0} → Fields F → Plan F → Bool
unfolding settings_of has_preset
ignores_preset request p = elim (settings_of request) [
  | none ↦ false
  | some settings ↦
      if p.route_switches_with_diodes then false else has_preset (parse_track_preset settings)
]

unfoldable pub lift : {A : Type 0} → Result A → Step A
lift (ok a) = done a
lift (err e) = fail (refused e)

abbrev pub path_or_empty : Option String → String
path_or_empty none = ""
path_or_empty (some p) = p

unfoldable pub tell : Bool → String → Step (Unit {0})
tell false line = done tt
tell true line = publish_marker line

unfoldable pub project_name_of : {F : Type 0} → Fields F → Step String
project_name_of layout = do
  meta ← demand (as_object (get "meta" layout)) (refused invalid_layout_metadata)
  done (of_chars (get_project_name (chars (text_or_empty (as_text (get "name" meta))))))

module _ {F : Type 0} (f : Floats F) (os : System F) where
  -- `WriteSwitchPresetFile`
  unfoldable pub write_switch_preset_file : String → Fields F → F → F → ℤ → String → Step (Unit {0})
  write_switch_preset_file path preset x y rotation side =
      write_file os path (os.indent (build_switch_preset_file f preset x y rotation side))

  -- the preset file, if a preset is used: its path
  unfoldable pub write_preset : Plan F → String → Step String
  unfolding write_switch_preset_file
  write_preset p log_dir = elim p.track_preset [
    | none ↦ done ""
    | some preset ↦
        let path = join_path (log_dir ∷ "switch-preset.json" ∷ []) in
        if contains_any path " \t\n" then fail preset_path_has_space else (do
          write_switch_preset_file path preset p.diode.x p.diode.y p.diode.rotation p.diode.side
          done path)
  ]

  -- all that follows the settings
  unfoldable pub build_project : String → Plan F → Step (String × ProjectFiles)
  build_project task_id p = do
    work_dir ← create_work_dir os task_id
    project_name ← project_name_of p.layout
    project_path ← create_kicad_work_dir os work_dir project_name
    log_dir ← create_log_dir os work_dir
    let log_path = join_path (log_dir ∷ "build.log" ∷ [])
    let pcb_file = join_path (project_path ∷ (project_name <> ".kicad_pcb") ∷ [])
    let layout_file = join_path (project_path ∷ (project_name <> ".json") ∷ [])
    write_file os layout_file (os.indent p.layout)
    preset_path ← write_preset p log_dir
    run_kbplacer os (build_kbplacer_args f (options_of p pcb_file layout_file preset_path)) log_path
    bundle_libraries os project_path p.bundled_lib_nicknames
    publish_marker "Generating schematic image"
    schematic ←
        schematic_images os (join_path (project_path ∷ (project_name <> ".kicad_sch") ∷ []))
          log_path
    publish_marker "Generating PCB renders"
    generate_render os pcb_file log_path
    done (
      work_dir,
      record {
        renders =
            record { name = "front"; kind = "pcb-front"; sheet = "" }
            ∷ record { name = "back"; kind = "pcb-back"; sheet = "" }
            ∷ schematic;
        archive = task_id <> ".zip";
      },
    )

  unfoldable pub new_pcb : String → Fields F → Step (String × ProjectFiles)
  unfolding lift tell
  new_pcb task_id request = do
    p ← lift (parse_request f (path_or_empty (kicad_3rd_party_path os.home)) request)
    tell (ignores_preset request p) "Routing is disabled, ignoring track preset"
    build_project task_id p
