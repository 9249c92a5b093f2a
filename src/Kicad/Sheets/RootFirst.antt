-- ===== src/Kicad/Sheets/RootFirst.antt =====
-- The order of the schematic renders.
use mathlib.Core.List.{Perm}
use mathlib.Core.List.Perm
use kle_ng_api.Prelude.{
  ◌≡◌, Bool, true, false, String, List, [], ◌∷◌, str_eq, All, Bool-cases, inl, inr, arith, ◌⊎◌,
  Option, Option-cases, ◌++◌, All-append,
}
use kle_ng_api.Go.Strings.{◌<>◌}
use kle_ng_api.Go.FilePath.{dir, join_path}
use kle_ng_api.Common.{RenderFile}
use kle_ng_api.Kicad.Sheets.{
  Files, SheetError, read_file, less, insert_render, sort_renders, sorted_result, export_args,
  project_of, copy_sheets, generate_schematic_image, sheet_render, copy_file, render_target,
}
use kle_ng_api.Kicad.Sheets.Copied.{sort_renders-All}

abbrev pub IsRoot : RenderFile → Type 0
IsRoot r = str_eq r.sheet "" ≡ true

abbrev pub IsChild : RenderFile → Type 0
IsChild r = str_eq r.sheet "" ≡ false

-- Behind a child sheet stand child sheets only.
abbrev pub RootFirst : List RenderFile → Type 0
RootFirst [] = Unit
RootFirst (r ∷ renders) = (IsChild r → All IsChild renders) × RootFirst renders

less-IsChild : (s r : RenderFile) → less s r ≡ true → IsChild s → IsChild r
unfolding less
less-IsChild s r h c = ground arith

not_less-IsChild : (s r : RenderFile) → less s r ≡ false → IsChild r → IsChild s
unfolding less
not_less-IsChild s r h c = ground arith

insert-All :
    (r : RenderFile) (renders : List RenderFile)
    → IsChild r
    → All IsChild renders
    → All IsChild (insert_render r renders)
unfolding insert_render
insert-All r [] h hs = ground arith
insert-All r (s ∷ renders) h hs = ground (arith, insert-All r renders h hs.1)

insert-RootFirst :
    (r : RenderFile) (renders : List RenderFile)
    → RootFirst renders
    → RootFirst (insert_render r renders)
unfolding insert_render less
insert-RootFirst r [] h = (λ _. tt, tt)
insert-RootFirst r (s ∷ renders) h = elim (Bool-cases (less s r)) [
  | inl first ↦
      rw (first, insert_render)
        (
          λ c. insert-All r renders (less-IsChild s r first c) (h.0 c),
          insert-RootFirst r renders h.1,
        )
  | inr not_first ↦
      rw (not_first, insert_render) (λ c. let d = not_less-IsChild s r not_first c in (d, h.0 d), h)
]

insert-Perm :
    (r : RenderFile) (renders : List RenderFile) → Perm (insert_render r renders) (r ∷ renders)
unfolding insert_render
insert-Perm r [] = Perm.rfl
insert-Perm r (s ∷ renders) = elim (Bool-cases (less s r)) [
  | inl first ↦
      rw (first, insert_render)
        (Perm.trans (Perm.cons s (insert-Perm r renders)) (Perm.swap r s renders))
  | inr not_first ↦ rw (not_first, insert_render) Perm.rfl
]

-- The sort keeps the renders it is given, and puts those with an empty sheet in front: none of them
-- stands behind one that has a sheet.
pub sort_renders_lem :
    (renders : List RenderFile)
    → Perm (sort_renders renders) renders × RootFirst (sort_renders renders)
unfolding sort_renders
sort_renders_lem [] = (Perm.rfl, tt)
sort_renders_lem (r ∷ renders) =
    let (same, first) = sort_renders_lem renders in
    (
      Perm.trans (insert-Perm r (sort_renders renders)) (Perm.cons r same),
      insert-RootFirst r (sort_renders renders) first,
    )

abbrev pub IsSchematic : RenderFile → Type 0
IsSchematic r = r.kind ≡ "schematic"

-- a result that holds renders has schematic renders only, those with an empty sheet first
abbrev pub HasRootFirst : (SheetError ⊎ List RenderFile) × Files → Type 0
HasRootFirst (inl e, files) = Unit
HasRootFirst (inr renders, files) = RootFirst renders × All IsSchematic renders

abbrev HasSchematics : (SheetError ⊎ List RenderFile) × Files → Type 0
HasSchematics (inl e, files) = Unit
HasSchematics (inr renders, files) = All IsSchematic renders

sorted-HasRootFirst :
    (r : (SheetError ⊎ List RenderFile) × Files) → HasSchematics r → HasRootFirst (sorted_result r)
sorted-HasRootFirst (inl e, files) h = tt
sorted-HasRootFirst (inr renders, files) h =
    ((sort_renders_lem renders).1, sort_renders-All IsSchematic renders h)

sheet_render-IsSchematic : (project_name svg : String) → IsSchematic (sheet_render project_name svg)
unfolding sheet_render
sheet_render-IsSchematic project_name svg = ground arith

module _ (writable : String → Bool) (export : List String → Files → Bool × String × Files)
    (glob : String → Files → Option (List String)) where
  copy_sheets-HasSchematics :
      (project_name log_dir : String) (svgs : List String) (done : List RenderFile) (files : Files)
      → All IsSchematic done
      → HasSchematics (copy_sheets writable export glob project_name log_dir svgs done files)
  unfolding copy_sheets
  copy_sheets-HasSchematics project_name log_dir [] done files h = h
  copy_sheets-HasSchematics project_name log_dir (svg ∷ svgs) done files h =
      let r = sheet_render project_name svg in
      let copy = copy_file writable svg (render_target log_dir r) files in
      elim (Bool-cases copy.0) [
        | inr failed ↦ rw (failed, copy_sheets) tt
        | inl copied ↦
            rw (copied, copy_sheets)
              (copy_sheets-HasSchematics project_name log_dir svgs (done ++ r ∷ []) copy.1 (
                All-append IsSchematic done (r ∷ []) h
                  (sheet_render-IsSchematic project_name svg, tt)))
      ]

  pub generate_schematic_image-HasRootFirst :
      (schematic_path log_path : String) (files : Files)
      → HasRootFirst (generate_schematic_image writable export glob schematic_path log_path files)
  unfolding generate_schematic_image
  generate_schematic_image-HasRootFirst schematic_path log_path files =
      let files' = (export (export_args schematic_path) files).2 in
      let root_svg = join_path (dir schematic_path ∷ (project_of schematic_path <> ".svg") ∷ []) in
      elim (Option-cases (read_file root_svg files')) [
        | inl e ↦ rw (e, generate_schematic_image) tt
        | inr (root, e) ↦
            elim (Option-cases (glob (join_path (dir schematic_path ∷ "*.svg" ∷ [])) files')) [
              | inl g ↦ rw (e, g, generate_schematic_image) tt
              | inr (svgs, g) ↦
                  rw (e, g, generate_schematic_image)
                    (sorted-HasRootFirst
                      (copy_sheets writable export glob (project_of schematic_path) (dir log_path)
                        svgs [] files')
                      (copy_sheets-HasSchematics (project_of schematic_path) (dir log_path) svgs []
                        files' tt))
            ]
      ]
