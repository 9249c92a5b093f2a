-- ===== src/Kicad/Slug/Clash.antt =====
-- Slugs that are alike, and slugs that stay.
use text.Mathlib.TextEquality.{Char-path}
use kle_ng_api.Prelude.{◌≡◌, ◌↔◌, refl, ap, subst, Char, Bool, true, false, [], ◌∷◌, ◌++◌, arith}
use kle_ng_api.Kicad.Names.{Text}
use kle_ng_api.Kicad.Slug.{
  to_lower, is_alnum, slug_loop, is_hyphen, drop_hyphens, keep_unless_hyphen, drop_hyphens_right,
  lower, slugify_sheet,
}
use kle_ng_api.Kicad.Slug.Shape.{is_slug_from, ends_alnum, IsSlug, slugify_sheet-IsSlug}

-- A separator: neither a letter nor a digit once lowered.
abbrev pub IsSeparator : Char → Type 0
IsSeparator c = is_alnum (to_lower c) ≡ false

loop_separators :
    (prev : Bool) (s t : Text) (c d : Char)
    → IsSeparator c
    → IsSeparator d
    → slug_loop prev (lower (s ++ c ∷ t)) ≡ slug_loop prev (lower (s ++ d ∷ t))
unfolding slug_loop lower
loop_separators prev [] t c d hc hd = ground arith
loop_separators prev (x ∷ s) t c d hc hd =
    ground (arith, loop_separators false s t c d hc hd, loop_separators true s t c d hc hd)

-- Sheet names that differ in a separator only have the same slug, so two sheets of one project can
-- get the same render name.
pub slugify_sheet_clash :
    (s t : Text) (c d : Char)
    → IsSeparator c
    → IsSeparator d
    → slugify_sheet (s ++ c ∷ t) ≡ slugify_sheet (s ++ d ∷ t)
unfolding slugify_sheet
slugify_sheet_clash s t c d hc hd =
    ap (λ r. drop_hyphens_right (drop_hyphens r)) (loop_separators false s t c d hc hd)

to_lower_alnum : (c : Char) → is_alnum c ≡ true → to_lower c ≡ c
unfolding to_lower is_alnum
to_lower_alnum c h = ground arith

to_lower_hyphen : (c : Char) → is_hyphen c ≡ true → to_lower c ≡ c
unfolding to_lower
to_lower_hyphen c h = ground arith

hyphen-not-alnum : (c : Char) → is_hyphen c ≡ true → is_alnum c ≡ false
unfolding is_alnum
hyphen-not-alnum c h = ground arith

hyphen_char : (c : Char) → is_hyphen c ≡ true → c ≡ "-"
hyphen_char c h = Char-path c "-" (ground arith)

-- before a slug the loop may have written a hyphen or not
slug_from_false : (s : Text) → is_slug_from true s ≡ true → is_slug_from false s ≡ true
unfolding is_slug_from
slug_from_false [] h = refl
slug_from_false (c ∷ s) h = ground arith

slug_loop_id : (prev : Bool) (s : Text) → is_slug_from prev s ≡ true → slug_loop prev (lower s) ≡ s
unfolding slug_loop lower is_slug_from
slug_loop_id prev [] h = refl
slug_loop_id prev (c ∷ s) h = ground (
  arith,
  to_lower_alnum c,
  to_lower_hyphen c,
  slug_loop_id false s,
  slug_loop_id true s,
  hyphen-not-alnum c,
  hyphen_char c,
)

drop_hyphens_id : (s : Text) → is_slug_from true s ≡ true → drop_hyphens s ≡ s
unfolding drop_hyphens is_slug_from is_alnum
drop_hyphens_id [] h = refl
drop_hyphens_id (c ∷ s) h = ground arith

drop_right_id : (s : Text) → ends_alnum s ≡ true → drop_hyphens_right s ≡ s
unfolding drop_hyphens_right ends_alnum
drop_right_id [] h = refl
drop_right_id (c ∷ []) h = ground arith
drop_right_id (c ∷ d ∷ s) h = ap (keep_unless_hyphen c) (drop_right_id (d ∷ s) h)

-- A name is its own slug exactly if it has the shape of one; so slugs are not changed by a second
-- pass.
pub slugify_sheet_fixed : (s : Text) → (slugify_sheet s ≡ s) ↔ IsSlug s
unfolding slugify_sheet
slugify_sheet_fixed s = (
  λ e. subst IsSlug e (slugify_sheet-IsSlug s),
  λ h.
      rw (slug_loop_id false s (slug_from_false s h.shaped), drop_hyphens_id s h.shaped)
        (drop_right_id s h.closed),
)
