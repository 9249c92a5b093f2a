-- ===== src/Examples/Handovers.antt =====
-- A task, from its request to the files in the Filer.
use kle_ng_api.Prelude.{
  ℕ, ◌≡◌, ◌≢◌, refl, Bool, true, false, All, String, Option, none, some, List, [], ◌∷◌, ◌++◌, drop,
  str_eq, if◌then◌else◌, inr, arith, eq_refl, subst,
}
use kle_ng_api.Go.Strings.{split_two, cut, contains_any, trim_prefix, trim_suffix, strip_prefix}
use kle_ng_api.Go.Files.{Files, Visit, visit, read_file}
use kle_ng_api.Go.FilePath.{dir, join_path, base, ext}
use kle_ng_api.Common.{ProjectFiles}
use kle_ng_api.Kicad.Json.{get, count_items}
use kle_ng_api.Kicad.Project.{
  System, Build, continue, create_work_dir, create_kicad_work_dir, create_log_dir, make_dir,
  write_file, run_kbplacer, bundle_libraries, publish_marker, schematic_images, generate_render,
  run_kicad_svg,
}
use kle_ng_api.Kicad.Project.Steps.{
  new_pcb, project_name_of, lift, tell, ignores_preset, build_project, write_preset,
}
use kle_ng_api.Kicad.Request.{
  parse_request, parse_settings, parse_switch, parse_diode, parse_stabilizer, parse_led,
  split_footprint,
}
use kle_ng_api.Kicad.Preset.{parse_track_preset}
use kle_ng_api.Kicad.Sheets.{
  generate_schematic_image, copy_file, copy_sheets, sheet_render, project_of, sort_renders,
}
use kle_ng_api.Kicad.Bundle.{bundle_footprint_libraries, kicad_3rd_party_path, copy_visits}
use kle_ng_api.Kicad.Names.{
  get_project_name, sanitize_filepath, trim_space, trim_prefix_char, remove_dots, sanitize_filename,
  remove_each, remove_char, is_space,
}
use kle_ng_api.Kicad.Project.Rendered.{IsReliable}
use kle_ng_api.Storage.{Net, answer, status}
use kle_ng_api.Storage.Delivery.{acknowledged, render_requests}
use kle_ng_api.Storage.Zip.Whole.{below, IsWholeWalk, IsArchived}
use kle_ng_api.Storage.Zip.Entries.{Holds, IsReadableWalk, file_paths, has_walk_error}
use kle_ng_api.Worker.Handover.{upload_built, built_requests, built_is_stored}
use kle_ng_api.Examples.Boards.{whole, led_request, empty_build, anywhere}

-- `pcb export svg` writes its output file, `sch export svg` the root sheet
abbrev exported : List String → Files → Files
exported [] files = ("/tmp/t1/kb/kb.svg", "<svg/>") ∷ files
exported (out ∷ rest) files = (out, "<svg/>") ∷ files

abbrev left_by : String → List String → Files → Files
left_by program args files =
    if str_eq program "kicad-cli" then exported (drop 9 args) files else files

abbrev visited : String → List Visit
visited root =
    visit root true
    ∷ (if str_eq root "/tmp/t1"
        then visit "/tmp/t1/kb" true
          ∷ visit "/tmp/t1/kb/fp-lib-table" false
          ∷ visit "/tmp/t1/kb/kb.json" false
          ∷ visit "/tmp/t1/kb/kb.svg" false
          ∷ visit "/tmp/t1/logs" true
          ∷ visit "/tmp/t1/logs/back.svg" false
          ∷ visit "/tmp/t1/logs/build.log" false
          ∷ visit "/tmp/t1/logs/front.svg" false
          ∷ visit "/tmp/t1/logs/schematic.svg" false
          ∷ visit "/tmp/t1/logs/switch-preset.json" false
          ∷ []
        else [])

abbrev linux : System ℕ
linux = record {
  temp_dir = λ task_id. some "/tmp/t1";
  makeable = anywhere;
  writable = anywhere;
  readable = anywhere;
  abs = λ path. some path;
  home = some "/home/worker";
  run = λ program args files. record {
    started = true;
    succeeded = true;
    output = "";
    files = left_by program args files;
  };
  glob = λ pattern files. some ("/tmp/t1/kb/kb.svg" ∷ []);
  walk = λ root files. visited root;
  indent = λ fields. "{}";
  bytes_of = λ text. [];
}

written_there : (out : String) (files : Files) → read_file out ((out, "<svg/>") ∷ files) ≢ none
unfolding read_file
written_there out files = ground (arith, eq_refl out)

kept_there :
    (out p : String) (files : Files)
    → read_file p files ≢ none
    → read_file p ((out, "<svg/>") ∷ files) ≢ none
unfolding read_file
kept_there out p files h = ground arith

logs_clean :
    dir (join_path (join_path ("/tmp/t1" ∷ "logs" ∷ []) ∷ "build.log" ∷ []))
    ≡ join_path ("/tmp/t1" ∷ "logs" ∷ [])
unfolding dir join_path
logs_clean = refl

linux-IsReliable : IsReliable linux
linux-IsReliable = record {
  logs_absolute = λ task_id p d new abs. refl;
  log_in_logs = λ task_id p d new abs.
      let e : "/tmp/t1" ≡ d = grind (arith, new, abs) in
      subst
        (λ d.
          dir (join_path (join_path (d ∷ "logs" ∷ []) ∷ "build.log" ∷ []))
          ≡ join_path (d ∷ "logs" ∷ []))
        e logs_clean;
  svg_written = λ pcb_file layers output_file files ok. written_there output_file files;
  files_kept = λ pcb_file layers output_file files p h. kept_there output_file p files h;
}

abbrev made : ProjectFiles
made = record {
  renders =
      record { name = "front"; kind = "pcb-front"; sheet = "" }
      ∷ record { name = "back"; kind = "pcb-back"; sheet = "" }
      ∷ record { name = "schematic"; kind = "schematic"; sheet = "" }
      ∷ [];
  archive = "t1.zip";
}

-- what the build leaves behind, the newest file first
abbrev left : Build
left = record {
  files =
      ("/tmp/t1/logs/back.svg", "<svg/>")
      ∷ ("/tmp/t1/logs/front.svg", "<svg/>")
      ∷ ("/tmp/t1/logs/schematic.svg", "<svg/>")
      ∷ ("/tmp/t1/kb/kb.svg", "<svg/>")
      ∷ (
        "/tmp/t1/kb/fp-lib-table",
        "(fp_lib_table\n   (version 7)\n   (lib (name \"kbd\")(type \"KiCad\")(uri \"${KIPRJMOD}/footprints/kbd.pretty\")(options \"\")(descr \"\"))\n)\n",
      )
      ∷ ("/tmp/t1/logs/build.log", "")
      ∷ ("/tmp/t1/logs/build.log", "")
      ∷ ("/tmp/t1/logs/switch-preset.json", "{}")
      ∷ ("/tmp/t1/kb/kb.json", "{}")
      ∷ [];
  dirs = "/tmp/t1/logs" ∷ "/tmp/t1/kb" ∷ "/tmp/t1" ∷ [];
  markers = "Generating schematic image" ∷ "Generating PCB renders" ∷ [];
}

led_board_built : new_pcb whole linux "t1" led_request empty_build ≡ (inr ("/tmp/t1", made), left)
unfolding new_pcb continue parse_request get parse_settings parse_switch parse_diode
    parse_track_preset count_items split_footprint split_two cut project_name_of lift tell
    ignores_preset parse_stabilizer parse_led build_project create_work_dir create_kicad_work_dir
    create_log_dir make_dir write_file write_preset run_kbplacer bundle_libraries publish_marker
    schematic_images generate_render run_kicad_svg generate_schematic_image read_file copy_file
    copy_sheets sheet_render project_of sort_renders bundle_footprint_libraries get_project_name
    sanitize_filepath join_path dir base ext trim_suffix trim_prefix trim_space trim_prefix_char
    remove_dots sanitize_filename remove_each remove_char is_space contains_any kicad_3rd_party_path
    copy_visits
led_board_built = refl

abbrev up : Net
up = record {
  replies = status 201 ∷ status 201 ∷ status 200 ∷ status 201 ∷ [];
  timers = [];
  sent = [];
}

abbrev zipped : List (String × String) → String
zipped entries = "zip"

abbrev any_url : String → Bool
any_url url = true

is_there : (content : String) → ◌≢◌ {A = Option String} (some content) none
is_there content e = absurd (grind (arith, e))

left_readable : IsReadableWalk (visited "/tmp/t1") left.files
unfolding read_file file_paths has_walk_error
left_readable = (
  refl,
  (
    is_there _,
    (
      is_there _,
      (is_there _, (is_there _, (is_there _, (is_there _, (is_there _, (is_there _, tt)))))),
    ),
  ),
)

left_visited : IsWholeWalk "/tmp/t1" (visited "/tmp/t1") left.files
unfolding below file_paths strip_prefix
left_visited = ground arith

built_is_stored_example :
    let r = upload_built linux zipped any_url "http://filer" "t1" left "/tmp/t1" made up in
    (entries : List (String × String)) × (r.0 ≡ none)
    × Holds "/tmp/t1" (visited "/tmp/t1") left.files (some entries)
    × All (IsArchived "/tmp/t1" left.files entries) (below "/tmp/t1" left.files)
    × (acknowledged r.1.sent
        ≡ acknowledged up.sent
          ++ built_requests linux zipped any_url "http://filer" "t1" left "/tmp/t1" made entries)
unfolding built_requests render_requests answer
built_is_stored_example =
    built_is_stored linux zipped any_url "http://filer" "t1" whole led_request empty_build left
      "/tmp/t1" "/tmp/t1" made up linux-IsReliable led_board_built refl left_readable left_visited
      (λ entries. (refl, (refl, (refl, (refl, tt))))) (refl, (refl, (refl, (refl, tt))))
