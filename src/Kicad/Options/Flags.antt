-- ===== src/Kicad/Options/Flags.antt =====
-- The argument list read back by kbplacer's command line: which flags take a value, and what the
-- list says of each.
use kle_ng_api.Prelude.{
  String, ◌≡◌, refl, ap, sym, ◌∙◌, Bool, true, false, not, ◌||◌, Option, none, some, List, [], ◌∷◌,
  ◌++◌, append_assoc, length, drop, ltb, str_eq, if◌then◌else◌, has_key, append-nil,
}
use kle_ng_api.Go.Strings.{join}
use kle_ng_api.Kicad.Floats.{Floats}
use kle_ng_api.Kicad.Options.{
  KbplacerOptions, encoder_footprint, only_if, fixed_args, switch_arg, diode_arg, stabilizer_args,
  led_footprint_args, additional_elements, build_kbplacer_args,
}

abbrev pub Setting : Type 0
Setting = String × String

abbrev switches : List String
switches =
    "--create-sch-file" ∷ "--create-pcb-file" ∷ "--route-switches-with-diodes"
    ∷ "--route-rows-and-columns" ∷ "--no-stabilizers" ∷ "--skip-led-decoupling"
    ∷ "--create-led-pcb-elements" ∷ "--create-led-sch-file" ∷ []

abbrev valued : List String
valued =
    "--pcb-file" ∷ "--switch-footprint" ∷ "--diode-footprint" ∷ "--encoder-footprint"
    ∷ "--encoder-adjustment" ∷ "--layout" ∷ "--layout-offset" ∷ "--log-level" ∷ "--max-keys"
    ∷ "--switch" ∷ "--diode" ∷ "--stabilizer-footprint" ∷ "--led-footprint"
    ∷ "--led-capacitor-footprint" ∷ "--bundle-strategy" ∷ "--additional-elements" ∷ []

prefixed : List Setting → Option (List Setting) → Option (List Setting)
prefixed ss none = none
prefixed ss (some ts) = some (ss ++ ts)

-- `pending` is a flag that still waits for its value
unfoldable pub read_flags : Option String → List String → Option (List Setting)
unfolding prefixed
read_flags none [] = some []
read_flags (some flag) [] = none
read_flags none (x ∷ xs) =
    let switched = prefixed ((x, "") ∷ []) (read_flags none xs) in
    let waiting = read_flags (some x) xs in
    if has_key x switches then switched else if has_key x valued then waiting else none
read_flags (some flag) (x ∷ xs) = prefixed ((flag, x) ∷ []) (read_flags none xs)

-- `xs` reads as `ss`, whatever follows.
record Reads (xs : List String) (ss : List Setting) : Type 0 where
  read : (ys : List String) → read_flags none (xs ++ ys) ≡ prefixed ss (read_flags none ys)

prefixed-prefixed :
    (ss ts : List Setting) (o : Option (List Setting))
    → prefixed ss (prefixed ts o) ≡ prefixed (ss ++ ts) o
unfolding prefixed
prefixed-prefixed ss ts none = refl
prefixed-prefixed ss ts (some us) = rw (append_assoc ss ts us)

prefixed-nil : (o : Option (List Setting)) → o ≡ prefixed [] o
unfolding prefixed
prefixed-nil none = refl
prefixed-nil (some us) = refl

Reads-append :
    {xs ys : List String} {ss ts : List Setting}
    → Reads xs ss
    → Reads ys ts
    → Reads (xs ++ ys) (ss ++ ts)
Reads-append {xs} {ys} {ss} {ts} h k = record {
  read = λ zs. rw (append_assoc xs ys zs, h.read (ys ++ zs), k.read zs) (prefixed-prefixed ss ts _);
}

Reads-only_if :
    (b : Bool) {xs : List String} {ss : List Setting}
    → Reads xs ss
    → Reads (only_if b xs) (only_if b ss)
Reads-only_if true h = h
Reads-only_if false h = record { read = λ ys. prefixed-nil (read_flags none ys) }

Reads-if :
    (b : Bool) {xs ys : List String} {ss ts : List Setting}
    → Reads xs ss
    → Reads ys ts
    → Reads (if b then xs else ys) (if b then ss else ts)
Reads-if true h k = h
Reads-if false h k = k

switch-Reads : (x : String) → has_key x switches ≡ true → Reads (x ∷ []) ((x, "") ∷ [])
unfolding read_flags
switch-Reads x h = record { read = λ ys. rw h }

valued-Reads :
    (x v : String)
    → has_key x switches ≡ false
    → has_key x valued ≡ true
    → Reads (x ∷ v ∷ []) ((x, v) ∷ [])
unfolding read_flags
valued-Reads x v h k = record { read = λ ys. rw (h, k) }

-- The flags behind `python3 -u -m kbplacer`.
unfoldable pub command_line : List String → Option (List Setting)
unfolding read_flags
command_line args = read_flags none (drop 3 args)

module _ {F : Type 0} (f : Floats F) (opts : KbplacerOptions F) where
  -- What the options ask of kbplacer.
  fixed_settings : List Setting
  fixed_settings =
      ("--pcb-file", opts.pcb_path)
      ∷ ("--create-sch-file", "")
      ∷ ("--create-pcb-file", "")
      ∷ ("--switch-footprint", opts.switch_footprint)
      ∷ ("--diode-footprint", opts.diode_footprint)
      ∷ ("--encoder-footprint", encoder_footprint)
      ∷ ("--encoder-adjustment", "-7.5 -2.5")
      ∷ ("--layout", opts.layout_path)
      ∷ ("--layout-offset", "0 0")
      ∷ ("--log-level", "INFO")
      ∷ ("--max-keys", "150")
      ∷ []

  stabilizer_settings : List Setting
  stabilizer_settings =
      if str_eq opts.stabilizer_footprint ""
      then ("--no-stabilizers", "") ∷ []
      else ("--stabilizer-footprint", opts.stabilizer_footprint) ∷ []

  led_settings : List Setting
  led_settings = only_if (opts.create_led_pcb_elements || opts.create_led_sch_file) (
      only_if (not (str_eq opts.led_footprint "")) (("--led-footprint", opts.led_footprint) ∷ [])
      ++ (if opts.skip_led_decoupling
          then ("--skip-led-decoupling", "") ∷ []
          else only_if (not (str_eq opts.led_capacitor_footprint ""))
              (("--led-capacitor-footprint", opts.led_capacitor_footprint) ∷ [])))

  unfoldable pub settings : List Setting
  unfolding fixed_settings stabilizer_settings led_settings
  settings =
      fixed_settings
      ++ only_if opts.route_switches_with_diodes (("--route-switches-with-diodes", "") ∷ [])
      ++ only_if opts.route_rows_and_columns (("--route-rows-and-columns", "") ∷ [])
      ++ (("--switch", switch_arg f opts) ∷ ("--diode", diode_arg f opts) ∷ stabilizer_settings)
      ++ led_settings
      ++ only_if opts.create_led_pcb_elements (("--create-led-pcb-elements", "") ∷ [])
      ++ only_if opts.create_led_sch_file
          (("--create-led-sch-file", "") ∷ ("--bundle-strategy", "hierarchical") ∷ [])
      ++ only_if (ltb 0 (length (additional_elements f opts)))
          (("--additional-elements", join (additional_elements f opts) ";") ∷ [])

  fixed-Reads : Reads (drop 3 (fixed_args f opts)) fixed_settings
  unfolding fixed_args fixed_settings read_flags prefixed
  fixed-Reads = record { read = λ ys. simp prefixed-prefixed }

  stabilizer-Reads : Reads (stabilizer_args f opts) stabilizer_settings
  unfolding stabilizer_args stabilizer_settings
  stabilizer-Reads =
      Reads-if (str_eq opts.stabilizer_footprint "") (switch-Reads "--no-stabilizers" refl)
        (valued-Reads "--stabilizer-footprint" opts.stabilizer_footprint refl refl)

  led-Reads : Reads (led_footprint_args f opts) led_settings
  unfolding led_footprint_args led_settings
  led-Reads = Reads-only_if _ (
      Reads-append (Reads-only_if _ (valued-Reads "--led-footprint" opts.led_footprint refl refl)) (
        Reads-if opts.skip_led_decoupling (switch-Reads "--skip-led-decoupling" refl) (
          Reads-only_if _
            (valued-Reads "--led-capacitor-footprint" opts.led_capacitor_footprint refl refl))))

  args-Reads : Reads (drop 3 (build_kbplacer_args f opts)) settings
  unfolding build_kbplacer_args settings
  args-Reads =
      Reads-append
        (Reads-append
          (Reads-append
            (Reads-append
              (Reads-append
                (Reads-append
                  (Reads-append fixed-Reads
                    (Reads-only_if _ (switch-Reads "--route-switches-with-diodes" refl)))
                  (Reads-only_if _ (switch-Reads "--route-rows-and-columns" refl)))
                (Reads-append
                  (Reads-append (valued-Reads "--switch" (switch_arg f opts) refl refl)
                    (valued-Reads "--diode" (diode_arg f opts) refl refl))
                  stabilizer-Reads))
              led-Reads)
            (Reads-only_if _ (switch-Reads "--create-led-pcb-elements" refl)))
          (Reads-only_if _ (
            Reads-append (switch-Reads "--create-led-sch-file" refl)
              (valued-Reads "--bundle-strategy" "hierarchical" refl refl))))
        (Reads-only_if _
          (valued-Reads "--additional-elements" (join (additional_elements f opts) ";") refl refl))

  -- kbplacer's command line, read back flag by flag, is the list of settings that the options ask
  -- for: every argument is a known flag or the value of one, and none is left over.
  pub build_args_read : command_line (build_kbplacer_args f opts) ≡ some settings
  unfolding command_line
  build_args_read =
      ap (read_flags none) (sym (append-nil (drop 3 (build_kbplacer_args f opts))))
      ∙ args-Reads.read []
      ∙ (unfold read_flags prefixed in ap some (append-nil settings))
