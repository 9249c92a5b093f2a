-- ===== src/Kicad/Options.antt =====
-- `KBPlacerOptions` and `buildKBPlacerArgs` of backend/internal/kicad/kicad.go.
pub mod Flags
pub mod Values
use kle_ng_api.Prelude.{
  String, Bool, true, false, not, ◌||◌, List, [], ◌∷◌, ◌++◌, length, ltb, str_eq, if◌then◌else◌, ℤ,
}
use kle_ng_api.Go.Strings.{◌<>◌, join}
use kle_ng_api.Go.Decimal.{show_int}
use kle_ng_api.Kicad.Floats.{Floats}

pub record KbplacerOptions (F : Type 0) : Type 0 where
  pub pcb_path : String
  pub layout_path : String
  pub route_switches_with_diodes : Bool
  pub route_rows_and_columns : Bool
  pub switch_footprint : String
  pub diode_footprint : String
  pub stabilizer_footprint : String
  pub switch_rotation : ℤ
  pub switch_side : String
  pub diode_rotation : ℤ
  pub diode_side : String
  pub diode_position_x : F
  pub diode_position_y : F
  pub diode_preset_path : String
  pub create_led_pcb_elements : Bool
  pub create_led_sch_file : Bool
  pub led_footprint : String
  pub led_capacitor_footprint : String
  pub skip_led_decoupling : Bool
  pub led_rotation : ℤ
  pub led_side : String
  pub led_position_x : F
  pub led_position_y : F
  pub led_capacitor_rotation : ℤ
  pub led_capacitor_side : String
  pub led_capacitor_position_x : F
  pub led_capacitor_position_y : F

abbrev pub encoder_footprint : String
encoder_footprint =
    "/usr/share/kicad/footprints/Rotary_Encoder.pretty:RotaryEncoder_Alps_EC11E-Switch_Vertical_H20mm"

-- an argument that is added under a condition
abbrev pub only_if {ℓ} : {A : Type ℓ} → Bool → List A → List A
only_if true xs = xs
only_if false xs = []

module _ {F : Type 0} (f : Floats F) where
  -- "<element>{} CUSTOM <x> <y> <rotation> <side>"
  unfoldable pub custom_placement : String → F → F → ℤ → String → String
  custom_placement element x y rotation side =
      element
      <> "{} CUSTOM "
      <> f.format x
      <> " "
      <> f.format y
      <> " "
      <> show_int rotation
      <> " "
      <> side

  module _ (opts : KbplacerOptions F) where
    -- the arguments up to the first condition
    unfoldable pub fixed_args : List String
    fixed_args =
        "-u" ∷ "-m" ∷ "kbplacer" ∷ "--pcb-file" ∷ opts.pcb_path ∷ "--create-sch-file"
        ∷ "--create-pcb-file" ∷ "--switch-footprint" ∷ opts.switch_footprint ∷ "--diode-footprint"
        ∷ opts.diode_footprint ∷ "--encoder-footprint" ∷ encoder_footprint ∷ "--encoder-adjustment"
        ∷ "-7.5 -2.5" ∷ "--layout" ∷ opts.layout_path ∷ "--layout-offset" ∷ "0 0" ∷ "--log-level"
        ∷ "INFO" ∷ "--max-keys" ∷ "150" ∷ []

    unfoldable pub switch_arg : String
    switch_arg = "SW{} " <> show_int opts.switch_rotation <> " " <> opts.switch_side

    unfoldable pub diode_arg : String
    unfolding custom_placement
    diode_arg =
        if not (str_eq opts.diode_preset_path "")
        then "D{} PRESET " <> opts.diode_preset_path
        else custom_placement "D" opts.diode_position_x opts.diode_position_y opts.diode_rotation
            opts.diode_side

    unfoldable pub stabilizer_args : List String
    stabilizer_args =
        if str_eq opts.stabilizer_footprint ""
        then "--no-stabilizers" ∷ []
        else "--stabilizer-footprint" ∷ opts.stabilizer_footprint ∷ []

    -- the footprints of the LED chain
    unfoldable pub led_footprint_args : List String
    led_footprint_args = only_if (opts.create_led_pcb_elements || opts.create_led_sch_file) (
        only_if (not (str_eq opts.led_footprint "")) ("--led-footprint" ∷ opts.led_footprint ∷ [])
        ++ (if opts.skip_led_decoupling
            then "--skip-led-decoupling" ∷ []
            else only_if (not (str_eq opts.led_capacitor_footprint ""))
                ("--led-capacitor-footprint" ∷ opts.led_capacitor_footprint ∷ [])))

    -- the list `additionalElements`
    unfoldable pub additional_elements : List String
    unfolding custom_placement
    additional_elements =
        only_if (not (str_eq opts.stabilizer_footprint ""))
          (("ST{} CUSTOM 0 0 0 " <> opts.switch_side) ∷ [])
        ++ only_if opts.create_led_pcb_elements (
            custom_placement "LED" opts.led_position_x opts.led_position_y opts.led_rotation
              opts.led_side
            ∷ only_if (not opts.skip_led_decoupling) (
                custom_placement "C" opts.led_capacitor_position_x opts.led_capacitor_position_y
                  opts.led_capacitor_rotation opts.led_capacitor_side
                ∷ []))

    unfoldable pub build_kbplacer_args : List String
    unfolding fixed_args switch_arg diode_arg stabilizer_args led_footprint_args additional_elements
    build_kbplacer_args =
        fixed_args
        ++ only_if opts.route_switches_with_diodes ("--route-switches-with-diodes" ∷ [])
        ++ only_if opts.route_rows_and_columns ("--route-rows-and-columns" ∷ [])
        ++ "--switch" ∷ switch_arg ∷ "--diode" ∷ diode_arg ∷ stabilizer_args
        ++ led_footprint_args
        ++ only_if opts.create_led_pcb_elements ("--create-led-pcb-elements" ∷ [])
        ++ only_if opts.create_led_sch_file
            ("--create-led-sch-file" ∷ "--bundle-strategy" ∷ "hierarchical" ∷ [])
        ++ only_if (ltb 0 (length additional_elements))
            ("--additional-elements" ∷ join additional_elements ";" ∷ [])
