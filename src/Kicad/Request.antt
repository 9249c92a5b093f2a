-- ===== src/Kicad/Request.antt =====
-- `parsePlacement` and the settings part of `NewPCB` of backend/internal/kicad/kicad.go, up to the
-- creation of the work directory.
pub mod Accepted
use kle_ng_api.Prelude.{
  String, Bool, true, false, not, ◌&&◌, ◌||◌, Option, none, some, List, [], ◌∷◌, ◌++◌, str_eq,
  if◌then◌else◌, ℤ, pos,
}
use kle_ng_api.Go.Strings.{◌<>◌, split_two}
use kle_ng_api.Kicad.Floats.{Floats}
use kle_ng_api.Kicad.Json.{
  Json, Fields, get, as_text, as_number, as_bool, as_object, text_or_empty, bool_or_false,
}
use kle_ng_api.Kicad.Result.{
  Error, Result, ok, err, ◌>>=◌, ◌>>◌, require, guard, invalid_layout, invalid_settings,
  invalid_footprint_format, invalid_switch_rotation, invalid_switch_side, missing_switch_rotation,
  missing_switch_side, invalid_diode_rotation, invalid_diode_side, missing_diode_rotation,
  missing_diode_side, missing_diode_position_x, missing_diode_position_y, missing_led_footprint,
  missing_led_capacitor_footprint, missing_led_placement, invalid_led_placement,
}
use kle_ng_api.Kicad.Preset.{parse_track_preset}

abbrev pub switches_library_path : String
switches_library_path = "/footprints/com_github_perigoso_keyswitch-kicad-library/"

abbrev pub diode_library_path : String
diode_library_path = "/usr/share/kicad/footprints/"

-- FRONT or BACK
abbrev pub is_side : String → Bool
is_side s = str_eq s "FRONT" || str_eq s "BACK"

pub record Placement (F : Type 0) : Type 0 where
  pub rotation : ℤ
  pub side : String
  pub x : F
  pub y : F

pub record Led (F : Type 0) : Type 0 where
  pub footprint : String
  pub capacitor_footprint : String
  pub placement : Placement F
  pub capacitor_placement : Placement F

-- What `NewPCB` knows when it has read the settings. `track_preset` is the preset that will be used.
pub record Plan (F : Type 0) : Type 0 where
  pub layout : Fields F
  pub switch_footprint : String
  pub diode_footprint : String
  pub stabilizer_footprint : String
  pub bundled_lib_nicknames : List String
  pub switch_rotation : ℤ
  pub switch_side : String
  pub diode : Placement F
  pub create_led : Bool
  pub skip_led_decoupling : Bool
  pub led : Led F
  pub route_switches_with_diodes : Bool
  pub route_rows_and_columns : Bool
  pub track_preset : Option (Fields F)

pair_of : List String → Error → Result (String × String)
pair_of (a ∷ b ∷ []) e = ok (a, b)
pair_of _ e = err e

-- "lib:footprint"
unfoldable pub split_footprint : String → String → Result (String × String)
unfolding pair_of
split_footprint name setting = pair_of (split_two setting ":") (invalid_footprint_format name)

-- a footprint of the switch library, under the home directory's `third_party`
unfoldable pub switch_library : String → String × String → String
switch_library third_party (lib, fp) =
    third_party <> switches_library_path <> lib <> ".pretty:" <> fp

-- a footprint of the standard KiCad library
unfoldable pub kicad_library : String × String → String
kicad_library (lib, fp) = diode_library_path <> lib <> ".pretty:" <> fp

-- the stabilizer's footprint and the libraries to bundle
unfoldable pub parse_stabilizer : String → String → String → Result (String × List String)
parse_stabilizer third_party switch_lib setting =
    if str_eq setting "" then ok ("", switch_lib ∷ []) else (do
      parts ← split_footprint "stabilizerFootprint" setting
      ok (switch_library third_party parts, switch_lib ∷ parts.0 ∷ []))

module _ {F : Type 0} where
  -- a field that must be there and be of the asserted type
  field_of :
      {A : Type 0} → Option (Json F) → (Option (Json F) → Option A) → Error → Error → Result A
  field_of none assertion missing invalid = err missing
  field_of (some v) assertion missing invalid = require (assertion (some v)) invalid

  unfoldable pub parse_capacitor : Fields F → Result String
  parse_capacitor settings =
      let setting = text_or_empty (as_text (get "ledCapacitorFootprint" settings)) in
      if str_eq setting ""
      then err missing_led_capacitor_footprint
      else (do parts ← split_footprint "ledCapacitorFootprint" setting; ok (kicad_library parts))

  unfoldable pub parse_led_footprint : Fields F → Result String
  parse_led_footprint settings =
      let setting = text_or_empty (as_text (get "ledFootprint" settings)) in
      if str_eq setting ""
      then err missing_led_footprint
      else (do parts ← split_footprint "ledFootprint" setting; ok (kicad_library parts))

  -- the preset is used with switch-diode routing only
  abbrev pub used_preset : Bool → Option (Fields F) → Option (Fields F)
  used_preset true preset = preset
  used_preset false preset = none

  setting_text : Fields F → String → String
  setting_text settings key = text_or_empty (as_text (get key settings))

  setting_bool : Fields F → String → Bool
  setting_bool settings key = bool_or_false (as_bool (get key settings))

module _ {F : Type 0} (f : Floats F) where
  unfoldable pub parse_placement : Fields F → String → Result (Placement F)
  unfolding field_of
  parse_placement settings prefix = do
    let rotation_key = prefix <> "Rotation"
    let side_key = prefix <> "Side"
    let x_key = prefix <> "PositionX"
    let y_key = prefix <> "PositionY"
    rotation ←
        field_of (get rotation_key settings) as_number (missing_led_placement rotation_key)
          (invalid_led_placement rotation_key "must be a number")
    side ←
        field_of (get side_key settings) as_text (missing_led_placement side_key)
          (invalid_led_placement side_key "must be a string")
    guard (is_side side) (invalid_led_placement side_key "must be FRONT or BACK")
    x ←
        field_of (get x_key settings) as_number (missing_led_placement x_key)
          (invalid_led_placement x_key "must be a number")
    y ←
        field_of (get y_key settings) as_number (missing_led_placement y_key)
          (invalid_led_placement y_key "must be a number")
    ok (record { rotation = f.to_int rotation; side = side; x = x; y = y })

  no_placement : Placement F
  no_placement = record { rotation = pos 0; side = ""; x = f.zero; y = f.zero }

  -- rotation and side of the switches
  unfoldable pub parse_switch : Fields F → Result (ℤ × String)
  unfolding field_of
  parse_switch settings = do
    rotation ←
        field_of (get "switchRotation" settings) as_number missing_switch_rotation
          invalid_switch_rotation
    side ← require (as_text (get "switchSide" settings)) missing_switch_side
    guard (is_side side) invalid_switch_side
    ok (f.to_int rotation, side)

  unfoldable pub parse_diode : Fields F → Result (Placement F)
  unfolding field_of
  parse_diode settings = do
    rotation ←
        field_of (get "diodeRotation" settings) as_number missing_diode_rotation
          invalid_diode_rotation
    side ← require (as_text (get "diodeSide" settings)) missing_diode_side
    guard (is_side side) invalid_diode_side
    x ← require (as_number (get "diodePositionX" settings)) missing_diode_position_x
    y ← require (as_number (get "diodePositionY" settings)) missing_diode_position_y
    ok (record { rotation = f.to_int rotation; side = side; x = x; y = y })

  -- the LED chain, if it is asked for
  unfoldable pub parse_led : Fields F → Bool → Bool → Result (Led F)
  unfolding no_placement
  parse_led settings false skip = ok (record {
    footprint = "";
    capacitor_footprint = "";
    placement = no_placement;
    capacitor_placement = no_placement;
  })
  parse_led settings true true = do
    footprint ← parse_led_footprint settings
    placement ← parse_placement settings "led"
    ok (record {
      footprint = footprint;
      capacitor_footprint = "";
      placement = placement;
      capacitor_placement = no_placement;
    })
  parse_led settings true false = do
    footprint ← parse_led_footprint settings
    capacitor ← parse_capacitor settings
    placement ← parse_placement settings "led"
    capacitor_placement ← parse_placement settings "ledCapacitor"
    ok (record {
      footprint = footprint;
      capacitor_footprint = capacitor;
      placement = placement;
      capacitor_placement = capacitor_placement;
    })

  -- `third_party` is what `GetKicad3rdPartyPath` returns, "" on an error.
  unfoldable pub parse_settings : String → Fields F → Fields F → Result (Plan F)
  unfolding setting_text setting_bool
  parse_settings third_party layout settings = do
    let routing = setting_text settings "routing"
    let create_led = setting_bool settings "createLedSchFile"
    let skip = setting_bool settings "skipLedDecoupling"
    switch ← parse_switch settings
    diode ← parse_diode settings
    preset ← parse_track_preset settings
    switch_parts ← split_footprint "switchFootprint" (setting_text settings "switchFootprint")
    diode_parts ← split_footprint "diodeFootprint" (setting_text settings "diodeFootprint")
    stabilizer ←
        parse_stabilizer third_party switch_parts.0 (setting_text settings "stabilizerFootprint")
    led ← parse_led settings create_led skip
    let route_switches = str_eq routing "Switch-Diode only" || str_eq routing "Full"
    ok (record {
      layout = layout;
      switch_footprint = switch_library third_party switch_parts;
      diode_footprint = kicad_library diode_parts;
      stabilizer_footprint = stabilizer.0;
      bundled_lib_nicknames = stabilizer.1;
      switch_rotation = switch.0;
      switch_side = switch.1;
      diode = diode;
      create_led = create_led;
      skip_led_decoupling = skip;
      led = led;
      route_switches_with_diodes = route_switches;
      route_rows_and_columns = str_eq routing "Full";
      track_preset = used_preset route_switches preset;
    })

  unfoldable pub parse_request : String → Fields F → Result (Plan F)
  parse_request third_party request = do
    layout ← require (as_object (get "layout" request)) invalid_layout
    settings ← require (as_object (get "settings" request)) invalid_settings
    parse_settings third_party layout settings
