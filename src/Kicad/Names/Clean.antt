-- ===== src/Kicad/Names/Clean.antt =====
-- What the names that the program sanitizes cannot contain.
use kle_ng_api.Prelude.{
  ◌≡◌, refl, Char, Bool, true, false, not, ◌&&◌, ◌||◌, [], ◌∷◌, arith, Bool-cases, inl, inr,
}
use kle_ng_api.Go.Strings.{char_eq}
use kle_ng_api.Kicad.Names.{
  Text, chars, remove_char, remove_each, illegal_chars, is_dot, remove_dots, is_space, trim_left,
  keep_unless_space, trim_right, trim_space, sanitize_filename,
}

unfoldable pub lacks : (Char → Bool) → Text → Bool
lacks p [] = true
lacks p (c ∷ s) = not (p c) && lacks p s

unfoldable pub is_among : Text → Char → Bool
is_among [] c = false
is_among (d ∷ ds) c = char_eq c d || is_among ds c

-- no two dots in a row
unfoldable pub lacks_dots : Text → Bool
lacks_dots [] = true
lacks_dots (c ∷ []) = true
lacks_dots (c ∷ d ∷ s) = not (is_dot c && is_dot d) && lacks_dots (d ∷ s)

-- no space in front
unfoldable pub starts_solid : Text → Bool
starts_solid [] = true
starts_solid (c ∷ s) = not (is_space c)

-- no space at the end
unfoldable pub ends_solid : Text → Bool
ends_solid [] = true
ends_solid (c ∷ []) = not (is_space c)
ends_solid (c ∷ d ∷ s) = ends_solid (d ∷ s)

module _ (p : Char → Bool) where
  lacks-remove_char : (d : Char) (s : Text) → lacks p s ≡ true → lacks p (remove_char d s) ≡ true
  unfolding lacks remove_char
  lacks-remove_char d [] h = refl
  lacks-remove_char d (c ∷ s) h = ground (arith, lacks-remove_char d s)

  lacks-remove_dots : (s : Text) → lacks p s ≡ true → lacks p (remove_dots s) ≡ true
  unfolding lacks remove_dots
  lacks-remove_dots [] h = refl
  lacks-remove_dots (c ∷ []) h = h
  lacks-remove_dots (c ∷ d ∷ s) h = ground (arith, lacks-remove_dots s, lacks-remove_dots (d ∷ s))

  lacks-trim_left : (s : Text) → lacks p s ≡ true → lacks p (trim_left s) ≡ true
  unfolding lacks trim_left
  lacks-trim_left [] h = refl
  lacks-trim_left (c ∷ s) h = ground (arith, lacks-trim_left s)

  lacks-keep :
      (c : Char) (s : Text) → lacks p (c ∷ s) ≡ true → lacks p (keep_unless_space c s) ≡ true
  unfolding lacks keep_unless_space
  lacks-keep c [] h = ground arith
  lacks-keep c (d ∷ s) h = h

  lacks-trim_right : (s : Text) → lacks p s ≡ true → lacks p (trim_right s) ≡ true
  unfolding trim_right lacks
  lacks-trim_right [] h = refl
  lacks-trim_right (c ∷ s) h = lacks-keep c (trim_right s) (ground (arith, lacks-trim_right s))

  lacks-remove_each : (ds s : Text) → lacks p s ≡ true → lacks p (remove_each ds s) ≡ true
  unfolding remove_each
  lacks-remove_each [] s h = h
  lacks-remove_each (d ∷ ds) s h = lacks-remove_each ds (remove_char d s) (lacks-remove_char d s h)

remove_char-lacks : (d : Char) (s : Text) → lacks (λ c. char_eq c d) (remove_char d s) ≡ true
unfolding lacks remove_char
remove_char-lacks d [] = refl
remove_char-lacks d (c ∷ s) = ground (arith, remove_char-lacks d s)

lacks-or :
    (p q : Char → Bool) (s : Text)
    → lacks p s ≡ true
    → lacks q s ≡ true
    → lacks (λ c. p c || q c) s ≡ true
unfolding lacks
lacks-or p q [] h k = refl
lacks-or p q (c ∷ s) h k = ground (arith, lacks-or p q s)

lacks_nothing : (s : Text) → lacks (is_among []) s ≡ true
unfolding lacks is_among
lacks_nothing [] = refl
lacks_nothing (c ∷ s) = lacks_nothing s

remove_each-lacks : (ds s : Text) → lacks (is_among ds) (remove_each ds s) ≡ true
unfolding remove_each is_among
remove_each-lacks [] s = lacks_nothing s
remove_each-lacks (d ∷ ds) s =
    lacks-or (λ c. char_eq c d) (is_among ds) _
      (lacks-remove_each (λ c. char_eq c d) ds _ (remove_char-lacks d s))
      (remove_each-lacks ds (remove_char d s))

head_is_dot : Text → Bool
head_is_dot [] = false
head_is_dot (c ∷ s) = is_dot c

head-remove_dots :
    (d : Char) (s : Text) → is_dot d ≡ false → head_is_dot (remove_dots (d ∷ s)) ≡ false
unfolding head_is_dot remove_dots
head-remove_dots d [] h = h
head-remove_dots d (e ∷ s) h = ground arith

lacks_dots-cons :
    (c : Char) (s : Text)
    → (is_dot c && head_is_dot s) ≡ false
    → lacks_dots s ≡ true
    → lacks_dots (c ∷ s) ≡ true
unfolding lacks_dots head_is_dot
lacks_dots-cons c [] h k = refl
lacks_dots-cons c (d ∷ s) h k = ground arith

remove_dots-lacks_dots : (s : Text) → lacks_dots (remove_dots s) ≡ true
unfolding remove_dots
remove_dots-lacks_dots [] = unfold lacks_dots in refl
remove_dots-lacks_dots (c ∷ []) = unfold lacks_dots in refl
remove_dots-lacks_dots (c ∷ d ∷ s) =
    let behind = remove_dots-lacks_dots s in
    let kept = remove_dots-lacks_dots (d ∷ s) in
    elim (Bool-cases (is_dot c && is_dot d)) [
      | inl e ↦ rw (e, remove_dots) behind
      | inr e ↦
          rw (e, remove_dots)
            (lacks_dots-cons c (remove_dots (d ∷ s)) (ground (arith, head-remove_dots d s)) kept)
    ]

lacks_dots-trim_left : (s : Text) → lacks_dots s ≡ true → lacks_dots (trim_left s) ≡ true
unfolding lacks_dots trim_left
lacks_dots-trim_left [] h = refl
lacks_dots-trim_left (c ∷ []) h = ground arith
lacks_dots-trim_left (c ∷ d ∷ s) h = ground (arith, lacks_dots-trim_left (d ∷ s))

lacks_dots-trim_right : (s : Text) → lacks_dots s ≡ true → lacks_dots (trim_right s) ≡ true
unfolding lacks_dots trim_right
lacks_dots-trim_right [] h = refl
lacks_dots-trim_right (c ∷ []) h = ground arith
lacks_dots-trim_right (c ∷ d ∷ s) h = ground (arith, lacks_dots-trim_right (d ∷ s))

starts_solid-trim_left : (s : Text) → starts_solid (trim_left s) ≡ true
unfolding starts_solid trim_left
starts_solid-trim_left [] = refl
starts_solid-trim_left (c ∷ s) = ground (arith, starts_solid-trim_left s)

starts_solid-trim_right : (s : Text) → starts_solid s ≡ true → starts_solid (trim_right s) ≡ true
unfolding starts_solid trim_right
starts_solid-trim_right [] h = refl
starts_solid-trim_right (c ∷ s) h = ground arith

ends_solid-keep :
    (c : Char) (s : Text) → ends_solid s ≡ true → ends_solid (keep_unless_space c s) ≡ true
unfolding ends_solid keep_unless_space
ends_solid-keep c [] h = ground arith
ends_solid-keep c (d ∷ s) h = h

ends_solid-trim_right : (s : Text) → ends_solid (trim_right s) ≡ true
unfolding trim_right ends_solid
ends_solid-trim_right [] = refl
ends_solid-trim_right (c ∷ s) = ends_solid-keep c (trim_right s) (ends_solid-trim_right s)

-- characters that file systems reserve
abbrev pub reserved : Text
reserved = chars "/\\:*?\"<>|"

-- A name that is safe as one element of a path.
pub record IsClean (s : Text) : Type 0 where
  pub no_illegal : lacks (is_among reserved) s ≡ true
  pub no_dots : lacks_dots s ≡ true
  pub no_space_before : starts_solid s ≡ true
  pub no_space_behind : ends_solid s ≡ true

-- Whatever a layout is called, its sanitized file name holds none of the nine reserved characters
-- and no two dots in a row, and neither starts nor ends with white space.
pub sanitize_filename-IsClean : (s : Text) → IsClean (sanitize_filename s)
unfolding sanitize_filename trim_space
sanitize_filename-IsClean s =
    let t = remove_each illegal_chars s in
    let u = remove_dots t in
    record {
      no_illegal = lacks-trim_right (is_among illegal_chars) (trim_left u) (
          lacks-trim_left (is_among illegal_chars) u
            (lacks-remove_dots (is_among illegal_chars) t (remove_each-lacks illegal_chars s)));
      no_dots =
          lacks_dots-trim_right (trim_left u) (lacks_dots-trim_left u (remove_dots-lacks_dots t));
      no_space_before = starts_solid-trim_right (trim_left u) (starts_solid-trim_left u);
      no_space_behind = ends_solid-trim_right (trim_left u);
    }
