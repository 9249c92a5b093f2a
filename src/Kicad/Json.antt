-- ===== src/Kicad/Json.antt =====
-- A decoded JSON value (`interface{}`) and the type assertions on it. `F` is float64.
use kle_ng_api.Prelude.{ℕ, suc, String, Bool, false, Option, none, some, str_eq, if◌then◌else◌, ℤ}

mutual
  pub data Json (F : Type 0) : Type 0 where
    null : Json F
    bool : Bool → Json F
    number : F → Json F
    integer : ℤ → Json F  -- an int that the program itself puts in
    text : String → Json F
    array : Items F → Json F
    object : Fields F → Json F

  pub data Items (F : Type 0) : Type 0 where
    nil : Items F
    cons : Json F → Items F → Items F

  pub data Fields (F : Type 0) : Type 0 where
    end : Fields F
    field : String → Json F → Fields F → Fields F

module _ {F : Type 0} where
  -- `m[k]` with its presence
  unfoldable pub get : String → Fields F → Option (Json F)
  get k end = none
  get k (field j v m) = if str_eq j k then some v else get k m

  -- `m[k] = v`
  unfoldable pub put : String → Json F → Fields F → Fields F
  put k v end = field k v end
  put k v (field j w m) = if str_eq j k then field k v m else field j w (put k v m)

  unfoldable pub count_items : Items F → ℕ
  count_items nil = 0
  count_items (cons x xs) = suc (count_items xs)

  -- `v.(string)` of a value that may be missing
  abbrev pub as_text : Option (Json F) → Option String
  as_text (some (text s)) = some s
  as_text (some _) = none
  as_text none = none

  abbrev pub as_number : Option (Json F) → Option F
  as_number (some (number x)) = some x
  as_number (some _) = none
  as_number none = none

  abbrev pub as_bool : Option (Json F) → Option Bool
  as_bool (some (bool b)) = some b
  as_bool (some _) = none
  as_bool none = none

  abbrev pub as_object : Option (Json F) → Option (Fields F)
  as_object (some (object m)) = some m
  as_object (some _) = none
  as_object none = none

  abbrev pub as_array : Option (Json F) → Option (Items F)
  as_array (some (array xs)) = some xs
  as_array (some _) = none
  as_array none = none

-- `x, _ := …`: the zero value where the assertion fails
abbrev pub text_or_empty : Option String → String
text_or_empty none = ""
text_or_empty (some s) = s

abbrev pub bool_or_false : Option Bool → Bool
bool_or_false none = false
bool_or_false (some b) = b
