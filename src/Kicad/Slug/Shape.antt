-- ===== src/Kicad/Slug/Shape.antt =====
-- The shape of a slug.
use kle_ng_api.Prelude.{◌≡◌, refl, Char, Bool, true, false, not, ◌&&◌, ◌||◌, [], ◌∷◌, arith}
use kle_ng_api.Kicad.Names.{Text}
use kle_ng_api.Kicad.Slug.{
  is_alnum, slug_loop, is_hyphen, drop_hyphens, keep_unless_hyphen, drop_hyphens_right, lower,
  slugify_sheet,
}

-- letters a-z, digits, and single hyphens; `prev` says that a hyphen stands before
unfoldable pub is_slug_from : Bool → Text → Bool
is_slug_from prev [] = true
is_slug_from prev (c ∷ s) =
    (is_alnum c && is_slug_from false s) || (is_hyphen c && not prev && is_slug_from true s)

slug_loop-is_slug : (prev : Bool) (s : Text) → is_slug_from prev (slug_loop prev s) ≡ true
unfolding is_slug_from slug_loop
slug_loop-is_slug prev [] = refl
slug_loop-is_slug prev (c ∷ s) = ground (arith, slug_loop-is_slug false s, slug_loop-is_slug true s)

drop_hyphens-is_slug :
    (prev : Bool) (s : Text)
    → is_slug_from prev s ≡ true
    → is_slug_from true (drop_hyphens s) ≡ true
unfolding is_slug_from drop_hyphens is_alnum
drop_hyphens-is_slug prev [] h = refl
drop_hyphens-is_slug prev (c ∷ s) h = ground (arith, drop_hyphens-is_slug true s)

-- no hyphen at the end
unfoldable pub ends_alnum : Text → Bool
ends_alnum [] = true
ends_alnum (c ∷ []) = not (is_hyphen c)
ends_alnum (c ∷ d ∷ s) = ends_alnum (d ∷ s)

keep-is_slug :
    (prev : Bool) (c : Char) (s : Text)
    → is_slug_from prev (c ∷ s) ≡ true
    → is_slug_from prev (keep_unless_hyphen c s) ≡ true
unfolding is_slug_from keep_unless_hyphen
keep-is_slug prev c [] h = ground arith
keep-is_slug prev c (d ∷ s) h = h

slug-tail :
    (prev : Bool) (c : Char) (s t : Text)
    → is_slug_from prev (c ∷ s) ≡ true
    → ((p : Bool) → is_slug_from p s ≡ true → is_slug_from p t ≡ true)
    → is_slug_from prev (c ∷ t) ≡ true
unfolding is_slug_from
slug-tail prev c s t h k = ground (arith, k true, k false)

drop_right-is_slug :
    (prev : Bool) (s : Text)
    → is_slug_from prev s ≡ true
    → is_slug_from prev (drop_hyphens_right s) ≡ true
unfolding drop_hyphens_right
drop_right-is_slug prev [] h = h
drop_right-is_slug prev (c ∷ s) h =
    keep-is_slug prev c (drop_hyphens_right s)
      (slug-tail prev c s (drop_hyphens_right s) h (λ p. drop_right-is_slug p s))

keep-ends_alnum :
    (c : Char) (s : Text) → ends_alnum s ≡ true → ends_alnum (keep_unless_hyphen c s) ≡ true
unfolding ends_alnum keep_unless_hyphen
keep-ends_alnum c [] h = ground arith
keep-ends_alnum c (d ∷ s) h = h

drop_right-ends_alnum : (s : Text) → ends_alnum (drop_hyphens_right s) ≡ true
unfolding drop_hyphens_right
drop_right-ends_alnum [] = unfold ends_alnum in refl
drop_right-ends_alnum (c ∷ s) = keep-ends_alnum c (drop_hyphens_right s) (drop_right-ends_alnum s)

-- A text of lower-case letters, digits and single hyphens between them.
pub record IsSlug (s : Text) : Type 0 where
  pub shaped : is_slug_from true s ≡ true
  pub closed : ends_alnum s ≡ true

-- Whatever a sheet is called, its slug consists of a-z, 0-9 and single hyphens, with no hyphen at
-- either end.
pub slugify_sheet-IsSlug : (name : Text) → IsSlug (slugify_sheet name)
unfolding slugify_sheet
slugify_sheet-IsSlug name =
    let t = slug_loop false (lower name) in
    record {
      shaped =
          drop_right-is_slug true (drop_hyphens t)
            (drop_hyphens-is_slug false t (slug_loop-is_slug false (lower name)));
      closed = drop_right-ends_alnum (drop_hyphens t);
    }
