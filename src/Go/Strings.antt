-- ===== src/Go/Strings.antt =====
-- `strings.Join`, `strings.SplitN(s, sep, 2)`, `strings.Split`, `strings.TrimPrefix`,
-- `strings.TrimSuffix`, `strings.ContainsAny`.
pub mod Cut
use Prim.Native.String.{◌++◌ as append}
use kle_ng_api.Prelude.{
  Char, code, String, ◌≡◌, refl, Bool, true, false, ◌||◌, Option, none, some, List, [], ◌∷◌, str_eq,
  ◌==◌, if◌then◌else◌,
}

infixr 65 ◌<>◌
abbrev pub ◌<>◌ : String → String → String
s <> t = append s t

abbrev pub char_eq : Char → Char → Bool
char_eq c d = code c == code d

-- `strings.Join(parts, sep)`
unfoldable pub join : List String → String → String
join [] sep = ""
join (p ∷ []) sep = p
join (p ∷ q ∷ ps) sep = p <> sep <> join (q ∷ ps) sep

prepend : Char → Option (String × String) → Option (String × String)
prepend c none = none
prepend c (some (before, after)) = some (String.◌∷◌ c before, after)

-- the text before and after the first `sep`
unfoldable pub cut : String → Char → Option (String × String)
unfolding prepend
cut String.[] sep = none
cut (String.◌∷◌ c s) sep =
    let rest = prepend c (cut s sep) in if char_eq c sep then some ("", s) else rest

-- `strings.SplitN(s, sep, 2)` for a one-character separator
unfoldable pub split_two : String → Char → List String
split_two s sep = elim (cut s sep) [ none ↦ s ∷ [] | some (before, after) ↦ before ∷ after ∷ [] ]

extend_first : Char → List String → List String
extend_first c [] = String.◌∷◌ c "" ∷ []
extend_first c (p ∷ ps) = String.◌∷◌ c p ∷ ps

-- `strings.Split(s, sep)` for a one-character separator
unfoldable pub split : String → Char → List String
unfolding extend_first
split String.[] sep = "" ∷ []
split (String.◌∷◌ c s) sep =
    let rest = split s sep in if char_eq c sep then "" ∷ rest else extend_first c rest

-- the text behind a prefix
unfoldable pub strip_prefix : String → String → Option String
strip_prefix String.[] s = some s
strip_prefix (String.◌∷◌ c p) String.[] = none
strip_prefix (String.◌∷◌ c p) (String.◌∷◌ d s) =
    let rest = strip_prefix p s in if char_eq c d then rest else none

-- `strings.TrimPrefix(s, prefix)`
unfoldable pub trim_prefix : String → String → String
unfolding strip_prefix
trim_prefix s p = elim (strip_prefix p s) [ none ↦ s | some rest ↦ rest ]

-- `strings.TrimSuffix(s, suffix)`: the suffix stands at one place only
unfoldable pub trim_suffix : String → String → String
trim_suffix String.[] p = ""
trim_suffix (String.◌∷◌ c s) p =
    let rest = String.◌∷◌ c (trim_suffix s p) in if str_eq (String.◌∷◌ c s) p then "" else rest

unfoldable pub contains_char : String → Char → Bool
contains_char String.[] d = false
contains_char (String.◌∷◌ c s) d = char_eq c d || contains_char s d

-- `strings.ContainsAny(s, chars)`
unfoldable pub contains_any : String → String → Bool
unfolding contains_char
contains_any s String.[] = false
contains_any s (String.◌∷◌ d ds) = contains_char s d || contains_any s ds

split_two_test : split_two "Lib:A:B" ":" ≡ "Lib" ∷ "A:B" ∷ []
unfolding split_two cut
split_two_test = refl

trim_suffix_test : trim_suffix "front.svg" ".svg" ≡ "front"
unfolding trim_suffix
trim_suffix_test = refl
