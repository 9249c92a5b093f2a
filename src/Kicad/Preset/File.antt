-- ===== src/Kicad/Preset/File.antt =====
-- Which presets are taken, and what the preset file holds.
use kle_ng_api.Prelude.{
  ◌≤◌, ◌≡◌, ◌↔◌, refl, sym, subst, ◌∙◌, false, String, Option, none, some, arith, str_eq, eq_iff,
  if◌then◌else◌, ℤ,
}
use kle_ng_api.Kicad.Floats.{Floats}
use kle_ng_api.Kicad.Json.{
  Json, integer, text, nil, cons, array, object, Fields, end, field, get, put, count_items,
}
use kle_ng_api.Kicad.Result.{ok}
use kle_ng_api.Kicad.Preset.{
  check_items, parse_track_preset, max_track_preset_items, side_to_layer, diode_entry,
  build_switch_preset_file,
}

module _ {F : Type 0} where
  pub get-put :
      (k j : String) (v : Json F) (m : Fields F)
      → get j (put k v m) ≡ (if str_eq k j then some v else get j m)
  unfolding get put
  get-put k j v end = refl
  get-put k j v (field i w m) = ground (arith, eq_iff k j, eq_iff i k, eq_iff i j, get-put k j v m)

  abbrev pub HasFewItems : Option (Json F) → Type 0
  HasFewItems (some (array xs)) = count_items xs ≤ max_track_preset_items
  HasFewItems (some _) = Unit
  HasFewItems none = Unit

  few_items :
      (preset : Fields F) {p : Fields F}
      → check_items preset ≡ ok (some p)
      → (preset ≡ p) × HasFewItems (get "items" preset)
  unfolding check_items
  few_items preset h = ground arith

  -- A preset is taken exactly if "trackPreset" is an object that says nothing of "diodes" and that
  -- lists at most 500 items, if its "items" is a list.
  pub parse_track_preset_iff :
      (settings p : Fields F)
      → (parse_track_preset settings ≡ ok (some p)) ↔ (
          (get "trackPreset" settings ≡ some (object p))
          × (get "diodes" p ≡ none)
          × HasFewItems (get "items" p))
  unfolding parse_track_preset
  parse_track_preset_iff settings p = (λ h. ground arith, λ (a, b, c). ground arith)

-- A JSON value that tells kbplacer where the diode goes: a list of one object, with the position in
-- whole nanometres, the rotation, and the copper layer of the side.
pub record IsDiodeList {F : Type 0} (f : Floats F) (x y : F) (rotation : ℤ) (side : String)
    (v : Option (Json F)) : Type 0 where
  pub diode : Fields F
  pub position : Fields F
  pub alone : v ≡ some (array (cons (object diode) nil))
  pub placed : get "position" diode ≡ some (object position)
  pub x_nm : get "x_nm" position ≡ some (integer (f.to_nm x))
  pub y_nm : get "y_nm" position ≡ some (integer (f.to_nm y))
  pub turned : get "orientation_deg" diode ≡ some (integer rotation)
  pub layer : get "layer" diode ≡ some (text (if str_eq side "BACK" then "B.Cu" else "F.Cu"))

diode_entry-IsDiodeList :
    {F : Type 0} (f : Floats F) (x y : F) (rotation : ℤ) (side : String)
    → IsDiodeList f x y rotation side (some (diode_entry f x y rotation side))
unfolding diode_entry get side_to_layer
diode_entry-IsDiodeList f x y rotation side = record {
  diode = _;
  position = _;
  alone = refl;
  placed = refl;
  x_nm = refl;
  y_nm = refl;
  turned = refl;
  layer = refl;
}

-- The preset file of an accepted preset, for any diode placement: under "diodes", where the preset
-- had nothing, stands one diode with x and y in nanometres, the rotation, and the layer B.Cu for
-- the side BACK and F.Cu for any other; every other field is as the preset has it.
pub preset_file_fields :
    {F : Type 0} (f : Floats F) (settings p : Fields F) (x y : F) (rotation : ℤ) (side k : String)
    → parse_track_preset settings ≡ ok (some p)
    → str_eq "diodes" k ≡ false
    → let file = build_switch_preset_file f p x y rotation side in
      IsDiodeList f x y rotation side (get "diodes" file)
      × (get k file ≡ get k p)
      × (get "diodes" p ≡ none)
unfolding build_switch_preset_file
preset_file_fields f settings p x y rotation side k h other =
    let entry = diode_entry f x y rotation side in
    (
      subst (IsDiodeList f x y rotation side) (sym (get-put "diodes" "diodes" entry p))
          (diode_entry-IsDiodeList f x y rotation side),
      get-put "diodes" k entry p ∙ rw other refl,
      ((parse_track_preset_iff settings p).0 h).1,
    )
