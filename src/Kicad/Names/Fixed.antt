-- ===== src/Kicad/Names/Fixed.antt =====
-- Names that sanitizing leaves alone, and names of which nothing is left.
use kle_ng_api.Prelude.{◌≡◌, ◌≢◌, ◌↔◌, refl, ap, subst, Char, Bool, true, ◌&&◌, [], ◌∷◌, arith}
use kle_ng_api.Go.Strings.{char_eq}
use kle_ng_api.Kicad.Names.{
  Text, remove_char, remove_each, illegal_chars, remove_dots, trim_left, keep_unless_space,
  trim_right, trim_space, trim_prefix_char, sanitize_filename, sanitize_filepath, get_project_name,
}
use kle_ng_api.Kicad.Names.Clean.{
  lacks, is_among, lacks_dots, starts_solid, ends_solid, IsClean, sanitize_filename-IsClean,
}

remove_dots_id : (s : Text) → lacks_dots s ≡ true → remove_dots s ≡ s
unfolding remove_dots lacks_dots
remove_dots_id [] h = refl
remove_dots_id (c ∷ []) h = refl
remove_dots_id (c ∷ d ∷ s) h = ground (arith, remove_dots_id (d ∷ s))

trim_left_id : (s : Text) → starts_solid s ≡ true → trim_left s ≡ s
unfolding trim_left starts_solid
trim_left_id [] h = refl
trim_left_id (c ∷ s) h = ground arith

trim_right_id : (s : Text) → ends_solid s ≡ true → trim_right s ≡ s
unfolding trim_right ends_solid
trim_right_id [] h = refl
trim_right_id (c ∷ []) h = ground arith
trim_right_id (c ∷ d ∷ s) h = ap (keep_unless_space c) (trim_right_id (d ∷ s) h)

trim_prefix_char_id :
    (d : Char) (s : Text) → lacks (λ c. char_eq c d) s ≡ true → trim_prefix_char d s ≡ s
unfolding trim_prefix_char lacks
trim_prefix_char_id d [] h = refl
trim_prefix_char_id d (c ∷ s) h = ground arith

remove_char_id : (d : Char) (s : Text) → lacks (λ c. char_eq c d) s ≡ true → remove_char d s ≡ s
unfolding remove_char lacks
remove_char_id d [] h = refl
remove_char_id d (c ∷ s) h = ground (arith, remove_char_id d s)

lacks_head :
    (d : Char) (ds s : Text)
    → lacks (is_among (d ∷ ds)) s ≡ true
    → (lacks (λ c. char_eq c d) s ≡ true) × (lacks (is_among ds) s ≡ true)
unfolding lacks is_among
lacks_head d ds [] h = (refl, refl)
lacks_head d ds (c ∷ s) h = ground (arith, lacks_head d ds s)

remove_each_id : (ds s : Text) → lacks (is_among ds) s ≡ true → remove_each ds s ≡ s
unfolding remove_each
remove_each_id [] s h = refl
remove_each_id (d ∷ ds) s h =
    let (front, rest) = lacks_head d ds s h in
    rw (remove_char_id d s front) (remove_each_id ds s rest)

trim_space_id : (s : Text) → IsClean s → trim_space s ≡ s
unfolding trim_space
trim_space_id s h = rw (trim_left_id s h.no_space_before) (trim_right_id s h.no_space_behind)

sanitize_filepath_id : (s : Text) → IsClean s → sanitize_filepath s ≡ s
unfolding sanitize_filepath
sanitize_filepath_id s h =
    let (slash, rest) = lacks_head "/" _ s h.no_illegal in
    let (backslash, others) = lacks_head "\\" _ s rest in
    rw
      (
        remove_dots_id s h.no_dots,
        trim_prefix_char_id "/" s slash,
        trim_prefix_char_id "\\" s backslash,
      )
      (trim_space_id s h)

-- The directory that `CreateKicadWorkDir` makes for a sanitized layout name is that name: to
-- sanitize it once more as a path changes nothing, so the project's files and directory agree.
pub sanitize_filepath-sanitize_filename :
    (s : Text) → sanitize_filepath (sanitize_filename s) ≡ sanitize_filename s
sanitize_filepath-sanitize_filename s =
    sanitize_filepath_id (sanitize_filename s) (sanitize_filename-IsClean s)

sanitize_filename_id : (s : Text) → IsClean s → sanitize_filename s ≡ s
unfolding sanitize_filename
sanitize_filename_id s h =
    rw (remove_each_id illegal_chars s h.no_illegal, remove_dots_id s h.no_dots) (trim_space_id s h)

-- A name is left alone exactly when it is clean; so sanitizing twice is sanitizing once.
pub sanitize_filename_fixed : (s : Text) → (sanitize_filename s ≡ s) ↔ IsClean s
sanitize_filename_fixed s =
    (λ e. subst IsClean e (sanitize_filename-IsClean s), sanitize_filename_id s)

unfoldable pub consists_of : (Char → Bool) → Text → Bool
consists_of p [] = true
consists_of p (c ∷ s) = p c && consists_of p s

remove_char-consists_of :
    (d : Char) (ds s : Text)
    → consists_of (is_among (d ∷ ds)) s ≡ true
    → consists_of (is_among ds) (remove_char d s) ≡ true
unfolding consists_of is_among remove_char
remove_char-consists_of d ds [] h = refl
remove_char-consists_of d ds (c ∷ s) h = ground (arith, remove_char-consists_of d ds s)

remove_each-nil : (ds s : Text) → consists_of (is_among ds) s ≡ true → remove_each ds s ≡ []
unfolding remove_each consists_of is_among
remove_each-nil [] [] h = refl
remove_each-nil [] (c ∷ s) h = cc
remove_each-nil (d ∷ ds) s h =
    remove_each-nil ds (remove_char d s) (remove_char-consists_of d ds s h)

-- A layout whose name is not empty but consists of illegal characters only gets the empty project
-- name, not the default "keyboard".
pub get_project_name-nil :
    (s : Text) → s ≢ [] → consists_of (is_among illegal_chars) s ≡ true → get_project_name s ≡ []
unfolding get_project_name sanitize_filename
get_project_name-nil [] h only = absurd (h refl)
get_project_name-nil (c ∷ s) h only =
    rw (remove_each-nil illegal_chars (c ∷ s) only)
      (unfold trim_space trim_left trim_right remove_dots in refl)
