-- ===== src/Kicad/Floats.antt =====
-- Go's `float64` as the program uses it: a number of a request is truncated to an int, printed by
-- `%f`, or scaled from millimetres to a rounded int64 of nanometres.
use kle_ng_api.Prelude.{String, ℤ}

pub record Floats (F : Type 0) : Type 0 where
  pub to_int : F → ℤ
  pub format : F → String
  pub to_nm : F → ℤ
  pub zero : F
