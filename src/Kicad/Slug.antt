-- ===== src/Kicad/Slug.antt =====
-- `slugifySheet` of backend/internal/kicad/kicad.go.
pub mod Shape
pub mod Clash
use kle_ng_api.Prelude.{
  ◌≡◌, refl, Char, code, String, Bool, true, false, ◌&&◌, ◌||◌, List, [], ◌∷◌, leb, ◌==◌,
  if◌then◌else◌,
}
use kle_ng_api.Go.Strings.{char_eq}
use kle_ng_api.Kicad.Names.{Text, chars}

-- `unicode.ToLower`, as far as the slug can see it: the letters whose lower case is an ASCII letter,
-- among them the Kelvin sign and the dotted capital I. Every other letter keeps out of a-z.
lower_in : String → String → Char → Char
lower_in (String.◌∷◌ u us) (String.◌∷◌ l ls) c =
    let rest = lower_in us ls c in if char_eq u c then l else rest
lower_in _ _ c = c

unfoldable pub to_lower : Char → Char
unfolding lower_in
to_lower c = lower_in "ABCDEFGHIJKLMNOPQRSTUVWXYZKİ" "abcdefghijklmnopqrstuvwxyzki" c

unfoldable pub is_alnum : Char → Bool
is_alnum c = let n = code c in (leb b'a' n && leb n b'z') || (leb b'0' n && leb n b'9')

-- the loop over the lowered name; the first argument is `prevHyphen`
unfoldable pub slug_loop : Bool → Text → Text
slug_loop prev_hyphen [] = []
slug_loop prev_hyphen (c ∷ s) =
    let kept = c ∷ slug_loop false s in
    let skipped = slug_loop true s in
    if is_alnum c then kept else if prev_hyphen then skipped else "-" ∷ skipped

abbrev pub is_hyphen : Char → Bool
is_hyphen c = code c == b'-'

unfoldable pub drop_hyphens : Text → Text
drop_hyphens [] = []
drop_hyphens (c ∷ s) = let rest = drop_hyphens s in if is_hyphen c then rest else c ∷ s

keep_unless_hyphen : Char → Text → Text
keep_unless_hyphen c [] = if is_hyphen c then [] else c ∷ []
keep_unless_hyphen c (d ∷ s) = c ∷ d ∷ s

unfoldable pub drop_hyphens_right : Text → Text
unfolding keep_unless_hyphen
drop_hyphens_right [] = []
drop_hyphens_right (c ∷ s) = keep_unless_hyphen c (drop_hyphens_right s)

unfoldable pub lower : Text → Text
lower [] = []
lower (c ∷ s) = to_lower c ∷ lower s

unfoldable pub slugify_sheet : Text → Text
slugify_sheet name = drop_hyphens_right (drop_hyphens (slug_loop false (lower name)))

slugify_test : slugify_sheet (chars " Key  Matrix_2 ") ≡ chars "key-matrix-2"
unfolding slugify_sheet drop_hyphens_right drop_hyphens slug_loop lower to_lower is_alnum
slugify_test = refl
