-- ===== src/Kicad/Request/Accepted.antt =====
-- What holds of every request whose settings are accepted.
use Prim.Native.String.append
use kle_ng_api.Prelude.{
  String, ◌≡◌, refl, ap, sym, subst, ◌∙◌, Bool, true, false, ◌||◌, Option, none, arith, str_eq,
  Option-cases, inl, inr, ℤ,
}
use kle_ng_api.Go.Strings.{◌<>◌, cut, split_two, contains_char}
use kle_ng_api.Go.Strings.Cut.{cut-append}
use kle_ng_api.Kicad.Floats.{Floats}
use kle_ng_api.Kicad.Json.{Fields}
use kle_ng_api.Kicad.Result.{Result, ok, err, >>=-eq-ok}
use kle_ng_api.Kicad.Preset.{parse_track_preset}
use kle_ng_api.Kicad.Request.{
  is_side, Placement, Led, Plan, split_footprint, parse_placement, parse_switch, parse_diode,
  parse_stabilizer, parse_led, used_preset, parse_settings, setting_text,
}

pair_parts :
    {a b c d : String}
    → ◌≡◌ {A = Result (String × String)} (ok (a, b)) (ok (c, d))
    → (a ≡ c) × (b ≡ d)
pair_parts h = (ground arith, ground arith)

colon : (s : String) → String.◌∷◌ ":" s ≡ ":" <> s
colon s = sym (append.cons ":" "" s ∙ ap (λ t. String.◌∷◌ ":" t) (append.nil s))

-- A footprint setting that is accepted is a library and a footprint joined by its first colon.
pub split_footprint-append :
    (name setting : String) {lib fp : String}
    → split_footprint name setting ≡ ok (lib, fp)
    → (setting ≡ lib <> ":" <> fp) × (contains_char lib ":" ≡ false)
unfolding split_footprint split_two
split_footprint-append name setting {lib} {fp} h = elim (Option-cases (cut setting ":")) [
  | inl e ↦ ground arith
  | inr ((a, b), e) ↦
      let same : ◌≡◌ {A = Result (String × String)} (ok (a, b)) (ok (lib, fp)) = ground arith in
      let (ea, eb) = pair_parts same in
      let (whole, clean) = cut-append setting ":" e in rw (← ea, ← eb) (rw (← colon b) whole, clean)
]

module _ {F : Type 0} (f : Floats F) where
  switch_side : (s : Fields F) {r : ℤ × String} → parse_switch f s ≡ ok r → is_side r.1 ≡ true
  unfolding parse_switch
  switch_side s h = ground arith

  diode_side : (s : Fields F) {p : Placement F} → parse_diode f s ≡ ok p → is_side p.side ≡ true
  unfolding parse_diode
  diode_side s h = ground arith

  placement_side :
      (s : Fields F) (prefix : String) {p : Placement F}
      → parse_placement f s prefix ≡ ok p
      → is_side p.side ≡ true
  unfolding parse_placement
  placement_side s prefix h = ground arith

  -- a placement that is read has a side
  abbrev HasSide : Result (Placement F) → Type 0
  HasSide (ok p) = is_side p.side ≡ true
  HasSide (err e) = Unit

  placement_HasSide :
      (s : Fields F) (prefix : String) (r : Result (Placement F))
      → parse_placement f s prefix ≡ r
      → HasSide r
  placement_HasSide s prefix (ok p) h = placement_side s prefix h
  placement_HasSide s prefix (err e) h = tt

  abbrev pub IsSidedLed : Bool → Bool → Led F → Type 0
  IsSidedLed false skip l = Unit
  IsSidedLed true true l = is_side l.placement.side ≡ true
  IsSidedLed true false l =
      (is_side l.placement.side ≡ true) × (is_side l.capacitor_placement.side ≡ true)

  led_IsSided :
      (s : Fields F) (create skip : Bool) {l : Led F}
      → parse_led f s create skip ≡ ok l
      → IsSidedLed create skip l
  unfolding parse_led
  led_IsSided s false skip h = tt
  led_IsSided s true true h =
      ground (arith, placement_HasSide s "led" (parse_placement f s "led") refl)
  led_IsSided s true false h = ground (
    arith,
    placement_HasSide s "led" (parse_placement f s "led") refl,
    placement_HasSide s "ledCapacitor" (parse_placement f s "ledCapacitor") refl,
  )

  -- What the later steps rely on.
  pub record IsValidPlan (p : Plan F) : Type 0 where
    pub switch_sided : is_side p.switch_side ≡ true
    pub diode_sided : is_side p.diode.side ≡ true
    pub led_sided : IsSidedLed p.create_led p.skip_led_decoupling p.led
    pub rows_after_switches : p.route_rows_and_columns ≡ true → p.route_switches_with_diodes ≡ true
    pub preset_needs_routing : p.route_switches_with_diodes ≡ false → p.track_preset ≡ none

  or_right : (a b : Bool) → b ≡ true → (a || b) ≡ true
  or_right a b h = ground arith

  unrouted_preset :
      (routed : Bool) (preset : Option (Fields F))
      → routed ≡ false
      → used_preset routed preset ≡ none
  unrouted_preset routed preset h = ground arith

  ok_injective : {p q : Plan F} → ok p ≡ ok q → p ≡ q
  ok_injective h = ground arith

  -- Settings that are accepted give sides FRONT or BACK to the switches, the diodes and, where the
  -- LED chain is asked for, the LEDs and, unless decoupling is skipped, the capacitors. Rows and
  -- columns are routed only together with the switches, and a track preset is used only then.
  pub parse_settings-IsValidPlan :
      (third_party : String) (layout settings : Fields F) {p : Plan F}
      → parse_settings f third_party layout settings ≡ ok p
      → IsValidPlan p
  unfolding parse_settings
  parse_settings-IsValidPlan third_party layout settings h =
      let (switch, e1, h1) = >>=-eq-ok (parse_switch f settings) _ h in
      let (diode, e2, h2) = >>=-eq-ok (parse_diode f settings) _ h1 in
      let (preset, e3, h3) = >>=-eq-ok (parse_track_preset settings) _ h2 in
      let (sw, e4, h4) = >>=-eq-ok (split_footprint "switchFootprint" _) _ h3 in
      let (dp, e5, h5) = >>=-eq-ok (split_footprint "diodeFootprint" _) _ h4 in
      let (stab, e6, h6) = >>=-eq-ok (parse_stabilizer third_party sw.0 _) _ h5 in
      let (led, e7, h7) = >>=-eq-ok (parse_led f settings _ _) _ h6 in
      subst IsValidPlan (ok_injective h7) (record {
        switch_sided = switch_side settings e1;
        diode_sided = diode_side settings e2;
        led_sided = led_IsSided settings _ _ e7;
        rows_after_switches =
            or_right (str_eq (setting_text settings "routing") "Switch-Diode only") _;
        preset_needs_routing = unrouted_preset _ preset;
      })
