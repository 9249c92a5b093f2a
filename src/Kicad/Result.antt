-- ===== src/Kicad/Result.antt =====
-- backend/internal/kicad/errors.go, and results that may be such an error. A detail that the code
-- appends is an argument.
use kle_ng_api.Prelude.{String, Bool, true, false, Option, none, some, ◌≡◌, refl}

pub data Error : Type 0 where
  invalid_layout invalid_settings invalid_layout_metadata : Error
  invalid_footprint_format : String → Error
  invalid_switch_rotation invalid_switch_side missing_switch_rotation missing_switch_side : Error
  invalid_diode_rotation invalid_diode_side missing_diode_rotation missing_diode_side : Error
  missing_diode_position_x missing_diode_position_y : Error
  preset_not_object preset_has_diodes preset_too_many_items : Error
  missing_led_footprint missing_led_capacitor_footprint : Error
  missing_led_placement : String → Error
  invalid_led_placement : String → String → Error

pub data Result {ℓ} (A : Type ℓ) : Type ℓ where
  err : Error → Result A
  ok : A → Result A

-- the rest of a function whose step may fail
infixl 5 ◌>>=◌ ◌>>◌
abbrev pub ◌>>=◌ {ℓ κ} : {X : Type ℓ} → {Y : Type κ} → Result X → (X → Result Y) → Result Y
err why >>= rest = err why
ok x >>= rest = rest x

abbrev pub ◌>>◌ {ℓ} : {Y : Type ℓ} → Result (Unit {0}) → Result Y → Result Y
err why >> rest = err why
ok done >> rest = rest

-- `if !ok { return e }`
abbrev pub require {ℓ} : {X : Type ℓ} → Option X → Error → Result X
require (some x) missing = ok x
require none missing = err missing

-- `if !test { return e }`
abbrev pub guard : Bool → Error → Result (Unit {0})
guard test refusal = elim test [ true ↦ ok tt | false ↦ err refusal ]

-- A step whose rest succeeds has succeeded.
pub >>=-eq-ok {ℓ κ} :
    {X : Type ℓ} {Y : Type κ} (step : Result X) (rest : X → Result Y) {y : Y}
    → (step >>= rest) ≡ ok y
    → (x : X) × (step ≡ ok x) × (rest x ≡ ok y)
>>=-eq-ok (err why) rest done = cc
>>=-eq-ok (ok x) rest done = (x, refl, done)
