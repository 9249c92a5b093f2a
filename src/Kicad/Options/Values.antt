-- ===== src/Kicad/Options/Values.antt =====
-- The values that the options give to single flags of kbplacer.
use kle_ng_api.Prelude.{
  String, ◌≡◌, refl, ◌∙◌, ap, Bool, true, false, Option, none, some, List, [], ◌∷◌, ◌++◌,
  append-nil, arith, str_eq, if◌then◌else◌, length, ltb,
}
use kle_ng_api.Go.Strings.{◌<>◌, join}
use kle_ng_api.Kicad.Floats.{Floats}
use kle_ng_api.Kicad.Options.{
  KbplacerOptions, only_if, custom_placement, diode_arg, additional_elements, build_kbplacer_args,
}
use kle_ng_api.Kicad.Options.Flags.{Setting, command_line, settings, build_args_read}

-- the values of a flag, in order
unfoldable pub values_of : String → List Setting → List String
values_of flag [] = []
values_of flag ((k, v) ∷ ss) =
    let rest = values_of flag ss in if str_eq k flag then v ∷ rest else rest

unfoldable pub given : String → List String → Option (List String)
given flag args = elim (command_line args) [ none ↦ none | some ss ↦ some (values_of flag ss) ]

values_of-append :
    (flag : String) (ss ts : List Setting)
    → values_of flag (ss ++ ts) ≡ values_of flag ss ++ values_of flag ts
unfolding values_of
values_of-append flag [] ts = refl
values_of-append flag ((k, v) ∷ ss) ts = ground (arith, values_of-append flag ss ts)

values_of-only_if :
    (flag : String) (b : Bool) (ss : List Setting)
    → values_of flag (only_if b ss) ≡ only_if b (values_of flag ss)
unfolding values_of
values_of-only_if flag true ss = refl
values_of-only_if flag false ss = refl

values_of-if :
    (flag : String) (b : Bool) (ss ts : List Setting)
    → values_of flag (if b then ss else ts) ≡ (if b then values_of flag ss else values_of flag ts)
values_of-if flag true ss ts = refl
values_of-if flag false ss ts = refl

only_if-nil {ℓ} : {A : Type ℓ} (b : Bool) → only_if {A = A} b [] ≡ []
only_if-nil true = refl
only_if-nil false = refl

if-nil {ℓ} : {A : Type ℓ} (b : Bool) → if◌then◌else◌ {A = List A} b [] [] ≡ []
if-nil true = refl
if-nil false = refl

ruleset value_laws =
    (values_of-append, values_of-only_if, values_of-if, only_if-nil, if-nil, append-nil)

module _ {F : Type 0} (f : Floats F) (opts : KbplacerOptions F) where
  given-build :
      (flag : String)
      → given flag (build_kbplacer_args f opts) ≡ some (values_of flag (settings f opts))
  unfolding given
  given-build flag = rw (build_args_read f opts, given)

  given_diode : given "--diode" (build_kbplacer_args f opts) ≡ some (diode_arg f opts ∷ [])
  unfolding settings values_of
  given_diode = given-build "--diode" ∙ ap some (simp value_laws)

  given_stabilizer :
      given "--stabilizer-footprint" (build_kbplacer_args f opts)
      ≡ some (if str_eq opts.stabilizer_footprint "" then [] else opts.stabilizer_footprint ∷ [])
  unfolding settings values_of
  given_stabilizer = given-build "--stabilizer-footprint" ∙ ap some (simp value_laws)

  given_no_stabilizers :
      given "--no-stabilizers" (build_kbplacer_args f opts)
      ≡ some (if str_eq opts.stabilizer_footprint "" then "" ∷ [] else [])
  unfolding settings values_of
  given_no_stabilizers = given-build "--no-stabilizers" ∙ ap some (simp value_laws)

  given_elements :
      given "--additional-elements" (build_kbplacer_args f opts)
      ≡ some (
          only_if
            (ltb 0 (length (additional_elements f opts)))
            (join (additional_elements f opts) ";" ∷ []))
  unfolding settings values_of
  given_elements = given-build "--additional-elements" ∙ ap some (simp value_laws)

  -- kbplacer is told exactly once where the diodes go: by the preset file if there is one, and by
  -- the diode's own position otherwise. It is given the stabilizer footprint, once, if there is
  -- one, and "--no-stabilizers" otherwise, never both. The placements of the other elements are
  -- given in one argument, joined by ';', and not at all if there are none.
  pub build_args_values :
      (given "--diode" (build_kbplacer_args f opts)
        ≡ some (
            (if str_eq opts.diode_preset_path ""
              then custom_placement f "D" opts.diode_position_x opts.diode_position_y
                  opts.diode_rotation opts.diode_side
              else "D{} PRESET " <> opts.diode_preset_path)
            ∷ []))
      × (given "--stabilizer-footprint" (build_kbplacer_args f opts)
          ≡ some
              (if str_eq opts.stabilizer_footprint "" then [] else opts.stabilizer_footprint ∷ []))
      × (given "--no-stabilizers" (build_kbplacer_args f opts)
          ≡ some (if str_eq opts.stabilizer_footprint "" then "" ∷ [] else []))
      × (given "--additional-elements" (build_kbplacer_args f opts)
          ≡ some (
              only_if
                (ltb 0 (length (additional_elements f opts)))
                (join (additional_elements f opts) ";" ∷ [])))
  build_args_values = (
    given_diode ∙ ap (λ v. some (v ∷ [])) (unfold diode_arg in ground arith),
    given_stabilizer,
    given_no_stabilizers,
    given_elements,
  )
