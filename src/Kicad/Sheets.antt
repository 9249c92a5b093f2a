-- ===== src/Kicad/Sheets.antt =====
-- `GenerateSchematicImage` of backend/internal/kicad/kicad.go.
pub mod RootFirst
pub mod Copied
use Prim.Native.String.{compare}
use Prim.Native.Nat.{Ordering}
use kle_ng_api.Prelude.{
  Bool, true, false, not, String, Option, none, some, List, [], ◌∷◌, ◌++◌, str_eq, if◌then◌else◌,
  ◌⊎◌, inl, inr,
}
use kle_ng_api.Go.Strings.{◌<>◌, trim_prefix, trim_suffix}
unfoldable pub use kle_ng_api.Go.Files.{read_file}
pub use kle_ng_api.Go.Files.{Files}
use kle_ng_api.Go.FilePath.{base, dir, ext, join_path}
use kle_ng_api.Common.{RenderFile}
use kle_ng_api.Kicad.Names.{chars, of_chars}
use kle_ng_api.Kicad.Slug.{slugify_sheet}

-- What the export may fail with: the `bool` says whether the command failed, the text is its
-- output.
pub data SheetError : Type 0 where
  not_generated : Bool → String → SheetError
  list_failed : SheetError
  copy_failed : String → SheetError

-- `copyFile`: `writable` says whether a file can be written
unfoldable pub copy_file : (String → Bool) → String → String → Files → Bool × Files
copy_file writable src dst files = elim (read_file src files) [
  | none ↦ (false, files)
  | some content ↦ if writable dst then (true, (dst, content) ∷ files) else (false, files)
]

unfoldable pub project_of : String → String
project_of schematic_path = trim_suffix (base schematic_path) (ext schematic_path)

-- the entry of one sheet file
unfoldable pub sheet_render : String → String → RenderFile
sheet_render project_name svg =
    let sheet_file = trim_suffix (base svg) ".svg" in
    if not (str_eq sheet_file project_name)
    then (let sheet =
          of_chars (slugify_sheet (chars (trim_prefix sheet_file (project_name <> "-")))) in
        record { name = "schematic-" <> sheet; kind = "schematic"; sheet = sheet })
    else record { name = "schematic"; kind = "schematic"; sheet = "" }

-- where a render is put, below the directory of the logs
abbrev pub render_target : String → RenderFile → String
render_target log_dir r = join_path (log_dir ∷ (r.name <> ".svg") ∷ [])

-- `less` of the sort: the root sheet first, then by the name of the sheet
unfoldable pub less : RenderFile → RenderFile → Bool
less a b =
    let root_a = str_eq a.sheet "" in
    let root_b = str_eq b.sheet "" in
    let smaller : Bool = elim (compare a.sheet b.sheet) [ Ordering.lt ↦ true | _ ↦ false ] in
    if root_a then not root_b else if root_b then false else smaller

unfoldable pub insert_render : RenderFile → List RenderFile → List RenderFile
unfolding less
insert_render r [] = r ∷ []
insert_render r (s ∷ renders) =
    let rest = insert_render r renders in if less s r then s ∷ rest else r ∷ s ∷ renders

-- `sort.SliceStable`
unfoldable pub sort_renders : List RenderFile → List RenderFile
unfolding insert_render
sort_renders [] = []
sort_renders (r ∷ renders) = insert_render r (sort_renders renders)

-- the sort behind the loop, unless that has failed
abbrev pub sorted_result :
    (SheetError ⊎ List RenderFile) × Files → (SheetError ⊎ List RenderFile) × Files
sorted_result (inl e, files) = (inl e, files)
sorted_result (inr renders, files) = (inr (sort_renders renders), files)

abbrev pub export_args : String → List String
export_args schematic_path =
    "sch"
    ∷ "export"
    ∷ "svg"
    ∷ "--exclude-drawing-sheet"
    ∷ "--output"
    ∷ dir schematic_path
    ∷ schematic_path
    ∷ []

-- `export` is the run of kicad-cli on its arguments: whether it succeeds, its output, and the
-- files then. `glob` lists the files that match a pattern, `none` for an error.
module _ (writable : String → Bool) (export : List String → Files → Bool × String × Files)
    (glob : String → Files → Option (List String)) where
  -- the loop over the sheet files: the entries so far are `done`
  unfoldable pub copy_sheets :
      String
      → String
      → List String
      → List RenderFile
      → Files
      → (SheetError ⊎ List RenderFile) × Files
  unfolding copy_file sheet_render
  copy_sheets project_name log_dir [] done files = (inr done, files)
  copy_sheets project_name log_dir (svg ∷ svgs) done files =
      let r = sheet_render project_name svg in
      let (copied, files') = copy_file writable svg (render_target log_dir r) files in
      let rest = copy_sheets project_name log_dir svgs (done ++ r ∷ []) files' in
      if copied then rest else (inl (copy_failed (trim_suffix (base svg) ".svg")), files')

  unfoldable pub generate_schematic_image :
      String → String → Files → (SheetError ⊎ List RenderFile) × Files
  unfolding read_file project_of copy_sheets sort_renders
  generate_schematic_image schematic_path log_path files =
      let schematic_dir = dir schematic_path in
      let (succeeded, output, files') = export (export_args schematic_path) files in
      let project_name = project_of schematic_path in
      elim (read_file (join_path (schematic_dir ∷ (project_name <> ".svg") ∷ [])) files') [
        | none ↦ (inl (not_generated (not succeeded) output), files')
        | some root ↦ elim (glob (join_path (schematic_dir ∷ "*.svg" ∷ [])) files') [
          | none ↦ (inl list_failed, files')
          | some svgs ↦ sorted_result (copy_sheets project_name (dir log_path) svgs [] files')
        ]
      ]
