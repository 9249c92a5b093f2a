-- ===== src/Kicad/Preset.antt =====
-- backend/internal/kicad/preset.go: the switch-diode track preset.
pub mod File
use kle_ng_api.Prelude.{
  ℕ, String, Bool, true, false, Option, none, some, ltb, str_eq, if◌then◌else◌, ℤ,
}
use kle_ng_api.Kicad.Floats.{Floats}
use kle_ng_api.Kicad.Json.{
  Json, null, text, integer, array, object, nil, cons, Fields, end, field, get, put, count_items,
  as_object, as_array,
}
use kle_ng_api.Kicad.Result.{
  Result, ok, err, preset_not_object, preset_has_diodes, preset_too_many_items,
}

abbrev pub max_track_preset_items : ℕ
max_track_preset_items = 500

module _ {F : Type 0} where
  -- the test of the items' number, after the test for "diodes"
  check_items : Fields F → Result (Option (Fields F))
  check_items preset = elim (as_array (get "items" preset)) [
    | none ↦ ok (some preset)
    | some items ↦
        if ltb max_track_preset_items (count_items items)
        then err preset_too_many_items
        else ok (some preset)
  ]

  check_preset : Option (Fields F) → Result (Option (Fields F))
  unfolding check_items
  check_preset none = err preset_not_object
  check_preset (some preset) = elim (get "diodes" preset) [
    | some v ↦ err preset_has_diodes
    | none ↦ check_items preset
  ]

  present_preset : Option (Json F) → Result (Option (Fields F))
  unfolding check_preset
  present_preset none = ok none
  present_preset (some null) = ok none
  present_preset v = check_preset (as_object v)

  unfoldable pub parse_track_preset : Fields F → Result (Option (Fields F))
  unfolding present_preset
  parse_track_preset settings = present_preset (get "trackPreset" settings)

unfoldable pub side_to_layer : String → String
side_to_layer side = if str_eq side "BACK" then "B.Cu" else "F.Cu"

module _ {F : Type 0} (f : Floats F) where
  -- the value of "diodes"
  unfoldable pub diode_entry : F → F → ℤ → String → Json F
  diode_entry x y rotation side = array (
      cons
        (object (
          field "position"
            (object (field "x_nm" (integer (f.to_nm x)) (field "y_nm" (integer (f.to_nm y)) end)))
            (field "orientation_deg" (integer rotation)
              (field "layer" (text (side_to_layer side)) end))))
        nil)

  unfoldable pub build_switch_preset_file : Fields F → F → F → ℤ → String → Fields F
  build_switch_preset_file preset x y rotation side =
      put "diodes" (diode_entry x y rotation side) preset
