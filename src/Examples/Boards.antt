-- ===== src/Examples/Boards.antt =====
-- One board: its request, the arguments of kbplacer, and the files of the project.
use kle_ng_api.Prelude.{
  ℕ, ◌*◌, ◌≡◌, ◌↔◌, refl, Bool, true, false, String, Option, none, some, List, [], ◌∷◌, length, ltb,
  str_eq, if◌then◌else◌, pos,
}
use kle_ng_api.Go.Strings.{◌<>◌, join, split_two, cut}
use kle_ng_api.Go.Decimal.{show_nat}
use kle_ng_api.Go.FilePath.{dir, join_path}
use kle_ng_api.Kicad.Floats.{Floats}
use kle_ng_api.Kicad.Options.{
  KbplacerOptions, only_if, custom_placement, additional_elements, build_kbplacer_args,
}
use kle_ng_api.Kicad.Options.Flags.{command_line, settings, build_args_read}
use kle_ng_api.Kicad.Options.Values.{given, build_args_values}
use kle_ng_api.Kicad.Json.{
  number, text, array, object, nil, cons, Fields, end, field, get, count_items,
}
use kle_ng_api.Kicad.Result.{ok}
use kle_ng_api.Kicad.Preset.{parse_track_preset, build_switch_preset_file}
use kle_ng_api.Kicad.Preset.File.{
  HasFewItems, IsDiodeList, parse_track_preset_iff, preset_file_fields,
}
use kle_ng_api.Kicad.Request.{
  split_footprint, switch_library, kicad_library, parse_switch, parse_diode, parse_stabilizer,
  parse_led, parse_settings, Plan,
}
use kle_ng_api.Kicad.Request.Accepted.{IsValidPlan, parse_settings-IsValidPlan}
use kle_ng_api.Kicad.Sheets.{Files, read_file, generate_schematic_image}
use kle_ng_api.Kicad.Sheets.Copied.{Complete, generate_schematic_image-Complete}
use kle_ng_api.Kicad.Bundle.{Visit, visit, bundle_footprint_libraries, copy_dir, copy_visits}
use kle_ng_api.Kicad.Project.{System, Build}
use kle_ng_api.Kicad.Project.Steps.{new_pcb}
use kle_ng_api.Kicad.Project.Leaves.{Leaves}
use kle_ng_api.Kicad.Project.Manifest.{IsManifest, new_pcb-IsManifest}
use kle_ng_api.Kicad.Bundle.Table.{rows, distinct, bundle_table}

-- whole numbers in place of float64
abbrev pub whole : Floats ℕ
whole = record {
  to_int = λ n. pos n;
  format = λ n. show_nat n <> ".000000";
  to_nm = λ n. pos (n * 1_000_000);
  zero = 0;
}

abbrev led_board : KbplacerOptions ℕ
led_board = record {
  pcb_path = "/tmp/t1/kb/kb.kicad_pcb";
  layout_path = "/tmp/t1/kb/kb.json";
  route_switches_with_diodes = true;
  route_rows_and_columns = false;
  switch_footprint = "/sw.pretty:SW";
  diode_footprint = "/d.pretty:D";
  stabilizer_footprint = "/sw.pretty:ST";
  switch_rotation = pos 0;
  switch_side = "FRONT";
  diode_rotation = pos 90;
  diode_side = "BACK";
  diode_position_x = 5;
  diode_position_y = 4;
  diode_preset_path = "";
  create_led_pcb_elements = true;
  create_led_sch_file = true;
  led_footprint = "/led.pretty:L";
  led_capacitor_footprint = "";
  skip_led_decoupling = true;
  led_rotation = pos 0;
  led_side = "BACK";
  led_position_x = 0;
  led_position_y = 5;
  led_capacitor_rotation = pos 0;
  led_capacitor_side = "";
  led_capacitor_position_x = 0;
  led_capacitor_position_y = 0;
}

build_args_read_example :
    command_line (build_kbplacer_args whole led_board) ≡ some (settings whole led_board)
build_args_read_example = build_args_read whole led_board

build_args_values_example :
    (given "--diode" (build_kbplacer_args whole led_board)
      ≡ some (
          (if str_eq led_board.diode_preset_path ""
            then custom_placement whole "D" led_board.diode_position_x led_board.diode_position_y
                led_board.diode_rotation led_board.diode_side
            else "D{} PRESET " <> led_board.diode_preset_path)
          ∷ []))
    × (given "--stabilizer-footprint" (build_kbplacer_args whole led_board)
        ≡ some (
            if str_eq led_board.stabilizer_footprint ""
            then []
            else led_board.stabilizer_footprint ∷ []))
    × (given "--no-stabilizers" (build_kbplacer_args whole led_board)
        ≡ some (if str_eq led_board.stabilizer_footprint "" then "" ∷ [] else []))
    × (given "--additional-elements" (build_kbplacer_args whole led_board)
        ≡ some (
            only_if
              (ltb 0 (length (additional_elements whole led_board)))
              (join (additional_elements whole led_board) ";" ∷ [])))
build_args_values_example = build_args_values whole led_board

abbrev one_track : Fields ℕ
one_track = field "items" (array (cons (text "track") nil)) end

abbrev led_settings : Fields ℕ
led_settings = field "switchFootprint" (text "kbd:SW_Cherry_MX_1.00u") (
    field "diodeFootprint" (text "Diode_SMD:D_SOD-123F") (
      field "routing" (text "Full") (
        field "switchRotation" (number 0) (
          field "switchSide" (text "FRONT") (
            field "diodeRotation" (number 90) (
              field "diodeSide" (text "BACK") (
                field "diodePositionX" (number 5) (
                  field "diodePositionY" (number 4)
                    (field "trackPreset" (object one_track) end)))))))))

parse_track_preset_iff_example : (parse_track_preset led_settings ≡ ok (some one_track)) ↔ (
    (get "trackPreset" led_settings ≡ some (object one_track))
    × (get "diodes" one_track ≡ none)
    × HasFewItems {F = ℕ} (get "items" one_track))
parse_track_preset_iff_example = parse_track_preset_iff led_settings one_track

preset_file_fields_example :
    let file = build_switch_preset_file whole one_track 5 4 (pos 90) "BACK" in
    IsDiodeList whole 5 4 (pos 90) "BACK" (get "diodes" file)
    × (get "items" file ≡ get "items" one_track)
    × (get "diodes" one_track ≡ none)
unfolding parse_track_preset get count_items
preset_file_fields_example =
    preset_file_fields whole led_settings one_track 5 4 (pos 90) "BACK" "items" refl refl

-- what is read of those settings
abbrev led_plan : Plan ℕ
led_plan = record {
  layout = end;
  switch_footprint = switch_library "/home/.local" ("kbd", "SW_Cherry_MX_1.00u");
  diode_footprint = kicad_library ("Diode_SMD", "D_SOD-123F");
  stabilizer_footprint = "";
  bundled_lib_nicknames = "kbd" ∷ [];
  switch_rotation = pos 0;
  switch_side = "FRONT";
  diode = record { rotation = pos 90; side = "BACK"; x = 5; y = 4 };
  create_led = false;
  skip_led_decoupling = false;
  led = record {
    footprint = "";
    capacitor_footprint = "";
    placement = record { rotation = pos 0; side = ""; x = 0; y = 0 };
    capacitor_placement = record { rotation = pos 0; side = ""; x = 0; y = 0 };
  };
  route_switches_with_diodes = true;
  route_rows_and_columns = true;
  track_preset = some one_track;
}

parse_settings-IsValidPlan_example : IsValidPlan whole led_plan
unfolding parse_settings parse_switch parse_diode parse_track_preset split_footprint split_two cut
    get count_items parse_stabilizer parse_led
parse_settings-IsValidPlan_example =
    parse_settings-IsValidPlan whole "/home/.local" end led_settings {p = led_plan} refl

-- kicad-cli writes the root sheet and one more
abbrev two_sheets : List String → Files → Bool × String × Files
two_sheets args files =
    (true, "", ("/tmp/kb/kb.svg", "root") ∷ ("/tmp/kb/kb-Key Matrix.svg", "matrix") ∷ files)

abbrev listed : String → Files → Option (List String)
listed pattern files = some ("/tmp/kb/kb-Key Matrix.svg" ∷ "/tmp/kb/kb.svg" ∷ [])

abbrev pub anywhere : String → Bool
anywhere path = true

generate_schematic_image-Complete_example : Complete (dir "/tmp/logs/build.log") (
    generate_schematic_image anywhere two_sheets listed "/tmp/kb/kb.kicad_sch" "/tmp/logs/build.log"
      [])
generate_schematic_image-Complete_example =
    generate_schematic_image-Complete anywhere two_sheets listed "/tmp/kb/kb.kicad_sch"
      "/tmp/logs/build.log" []

-- a library of one footprint
abbrev one_footprint : String → Files → List Visit
one_footprint src files = visit src true ∷ visit "/lib/kbd.pretty/SW.kicad_mod" false ∷ []

abbrev library_files : Files
library_files = ("/lib/kbd.pretty/SW.kicad_mod", "(footprint)") ∷ []

bundle_table_example :
    let r =
      bundle_footprint_libraries anywhere anywhere one_footprint "/lib" "/tmp/kb"
        ("kbd" ∷ "kbd" ∷ [])
        library_files in
    read_file (join_path ("/tmp/kb" ∷ "fp-lib-table" ∷ [])) r.1
    ≡ some ("(fp_lib_table\n   (version 7)\n" <> rows (distinct [] ("kbd" ∷ "kbd" ∷ [])) <> ")\n")
unfolding bundle_footprint_libraries read_file copy_visits copy_dir
bundle_table_example =
    bundle_table anywhere anywhere one_footprint "/lib" "/tmp/kb" ("kbd" ∷ "kbd" ∷ []) library_files
      refl

-- a system on which everything works; kicad-cli writes what it is asked to
abbrev working : System ℕ
working = record {
  temp_dir = λ task_id. some ("/tmp/" <> task_id);
  makeable = anywhere;
  writable = anywhere;
  readable = anywhere;
  abs = λ path. some path;
  home = some "/home/worker";
  run = λ program args files. record {
    started = true;
    succeeded = true;
    output = "";
    files = ("/tmp/t1/kb/kb.svg", "root") ∷ files;
  };
  glob = λ pattern files. some ("/tmp/t1/kb/kb.svg" ∷ []);
  walk = λ src files. [];
  indent = λ fields. "{}";
  bytes_of = λ text. [];
}

abbrev pub led_request : Fields ℕ
led_request =
    field "layout" (object (field "meta" (object (field "name" (text "kb") end)) end))
      (field "settings" (object led_settings) end)

abbrev pub empty_build : Build
empty_build = record { files = []; dirs = []; markers = [] }

new_pcb-IsManifest_example :
    Leaves (λ r b'. IsManifest "t1" r.1) (new_pcb whole working "t1" led_request empty_build)
new_pcb-IsManifest_example = new_pcb-IsManifest whole working "t1" led_request empty_build
