-- ===== src/Kicad/Names.antt =====
-- backend/internal/kicad/paths.go, and `GetProjectName` of kicad.go. A text is the list of its
-- characters.
pub mod Clean
pub mod Fixed
use kle_ng_api.Prelude.{
  ℕ, Char, code, String, ◌≡◌, refl, Bool, true, false, ◌&&◌, ◌||◌, List, [], ◌∷◌, leb, ◌==◌, str_eq,
  if◌then◌else◌,
}
use kle_ng_api.Go.Strings.{char_eq}

abbrev pub Text : Type 0
Text = List Char

abbrev pub chars : String → Text
chars String.[] = []
chars (String.◌∷◌ c s) = c ∷ chars s

abbrev pub of_chars : Text → String
of_chars [] = ""
of_chars (c ∷ s) = String.◌∷◌ c (of_chars s)

-- `strings.ReplaceAll(s, d, "")` for one character
unfoldable pub remove_char : Char → Text → Text
remove_char d [] = []
remove_char d (c ∷ s) = let rest = remove_char d s in if char_eq c d then rest else c ∷ rest

-- the loop over `illegalChars`
unfoldable pub remove_each : Text → Text → Text
remove_each [] s = s
remove_each (d ∷ ds) s = remove_each ds (remove_char d s)

abbrev pub illegal_chars : Text
illegal_chars = "/" ∷ "\\" ∷ ":" ∷ "*" ∷ "?" ∷ "\"" ∷ "<" ∷ ">" ∷ "|" ∷ []

abbrev pub is_dot : Char → Bool
is_dot c = code c == b'.'

-- `strings.ReplaceAll(s, "..", "")`: from the left, without overlaps
unfoldable pub remove_dots : Text → Text
remove_dots [] = []
remove_dots (c ∷ []) = c ∷ []
remove_dots (c ∷ d ∷ s) =
    let behind = remove_dots s in
    let kept = c ∷ remove_dots (d ∷ s) in if is_dot c && is_dot d then behind else kept

-- `unicode.IsSpace`
unfoldable pub is_space : Char → Bool
is_space c =
    let n = code c in
    (leb 9 n && leb n 13)
    || n == 32
    || n == 0x85
    || n == 0xa0
    || n == 0x1680
    || (leb 0x2000 n && leb n 0x200a)
    || n == 0x2028
    || n == 0x2029
    || n == 0x202f
    || n == 0x205f
    || n == 0x3000

unfoldable pub trim_left : Text → Text
trim_left [] = []
trim_left (c ∷ s) = let rest = trim_left s in if is_space c then rest else c ∷ s

-- one character in front of a text trimmed at the right
keep_unless_space : Char → Text → Text
keep_unless_space c [] = if is_space c then [] else c ∷ []
keep_unless_space c (d ∷ s) = c ∷ d ∷ s

unfoldable pub trim_right : Text → Text
unfolding keep_unless_space
trim_right [] = []
trim_right (c ∷ s) = keep_unless_space c (trim_right s)

-- `strings.TrimSpace`
unfoldable pub trim_space : Text → Text
unfolding trim_left trim_right
trim_space s = trim_right (trim_left s)

-- `strings.TrimPrefix(s, d)` for one character
unfoldable pub trim_prefix_char : Char → Text → Text
trim_prefix_char d [] = []
trim_prefix_char d (c ∷ s) = if char_eq c d then s else c ∷ s

unfoldable pub sanitize_filename : Text → Text
sanitize_filename s = trim_space (remove_dots (remove_each illegal_chars s))

unfoldable pub sanitize_filepath : Text → Text
sanitize_filepath s = trim_space (trim_prefix_char "\\" (trim_prefix_char "/" (remove_dots s)))

unfoldable pub get_project_name : Text → Text
get_project_name [] = chars "keyboard"
get_project_name (c ∷ s) = sanitize_filename (c ∷ s)

sanitize_test : sanitize_filename (chars " ../My: Board.. ") ≡ chars "My Board"
unfolding sanitize_filename trim_space remove_dots remove_each remove_char is_space
sanitize_test = refl
