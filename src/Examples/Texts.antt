-- ===== src/Examples/Texts.antt =====
-- Names of layouts and sheets.
use kle_ng_api.Kicad.Names.{Text, chars, sanitize_filename}
use kle_ng_api.Kicad.Names.Clean.{IsClean, sanitize_filename-IsClean}
use kle_ng_api.Kicad.Slug.{slugify_sheet}
use kle_ng_api.Kicad.Slug.Shape.{IsSlug, slugify_sheet-IsSlug}

abbrev odd_name : Text
odd_name = chars " ../My:Board.. "

sanitize_filename-IsClean_example : IsClean (sanitize_filename odd_name)
sanitize_filename-IsClean_example = sanitize_filename-IsClean odd_name

slugify_sheet-IsSlug_example : IsSlug (slugify_sheet (chars "--Key  Matrix (2)"))
slugify_sheet-IsSlug_example = slugify_sheet-IsSlug (chars "--Key  Matrix (2)")
