-- ===== src/Kicad/Bundle/Table.antt =====
-- Each footprint library is bundled once.
use text.Mathlib.TextLemmas.{append_assoc as text_assoc, append-nil as text-nil}
use Prim.Native.String.append
use kle_ng_api.Prelude.{
  ◌≡◌, sym, Bool, true, String, Option, none, some, List, [], ◌∷◌, has_key, if◌then◌else◌,
  Bool-cases, Option-cases, subst, eq_refl, inl, inr, arith,
}
use kle_ng_api.Go.Strings.{◌<>◌}
use kle_ng_api.Go.FilePath.{join_path}
use kle_ng_api.Kicad.Sheets.{Files, read_file}
use kle_ng_api.Kicad.Bundle.{
  Visit, copy_dir, library_dir, bundled_dir, table_row, bundle_each, bundle_footprint_libraries,
}

-- the nicknames that are not in `seen`, each at its first place
unfoldable pub distinct : List String → List String → List String
distinct seen [] = []
distinct seen (lib ∷ libs) =
    let skipped = distinct seen libs in
    let kept = lib ∷ distinct (lib ∷ seen) libs in if has_key lib seen then skipped else kept

-- the lines of a table: each names a library and gives its place below the project
unfoldable pub rows : List String → String
rows [] = ""
rows (lib ∷ libs) =
    ("   (lib (name \"" <> lib <> "\")(type \"KiCad\")(uri \"${KIPRJMOD}/footprints/" <> lib
      <> ".pretty\")(options \"\")(descr \"\"))\n")
    <> rows libs

-- the table that is made, if one is
abbrev pub TableIs : String → Option String → Type 0
TableIs libs none = Unit
TableIs libs (some t) = t ≡ libs

module _ (writable makeable : String → Bool) (walk : String → Files → List Visit) where
  bundle_each-rows :
      (src_root project_path : String) (libs seen : List String) (done : String) (files : Files)
      → TableIs
          (done <> rows (distinct seen libs))
          (bundle_each writable makeable walk src_root project_path libs seen done files).0
  unfolding bundle_each rows distinct
  bundle_each-rows src_root project_path [] seen done files = sym (text-nil done)
  bundle_each-rows src_root project_path (lib ∷ libs) seen done files =
      let dst = bundled_dir project_path lib in
      let copy = copy_dir writable makeable walk (library_dir src_root lib) dst files in
      elim (Bool-cases (has_key lib seen)) [
        | inl known ↦
            rw (known, bundle_each, distinct)
              (bundle_each-rows src_root project_path libs seen done files)
        | inr new ↦ elim (Bool-cases (makeable dst)) [
          | inr no_dir ↦ rw (new, no_dir, bundle_each) tt
          | inl made ↦ elim (Bool-cases (copy.0)) [
            | inr failed ↦ rw (new, made, failed, bundle_each) tt
            | inl copied ↦
                rw (new, made, copied, bundle_each, distinct)
                  (rw (← text_assoc done (table_row lib) (rows (distinct (lib ∷ seen) libs))) (
                    bundle_each-rows src_root project_path libs (lib ∷ seen) (done <> table_row lib)
                      copy.1))
          ]
        ]
      ]

  -- When the libraries are bundled without an error, the project's fp-lib-table lists each of the
  -- nicknames on one line, with its place below the project, in the order in which they first occur,
  -- however often they do.
  pub bundle_table :
      (src_root project_path : String) (nicknames : List String) (files : Files)
      → let r =
          bundle_footprint_libraries writable makeable walk src_root project_path nicknames files in
        r.0 ≡ true
        → read_file (join_path (project_path ∷ "fp-lib-table" ∷ [])) r.1
          ≡ some ("(fp_lib_table\n   (version 7)\n" <> rows (distinct [] nicknames) <> ")\n")
  unfolding bundle_footprint_libraries read_file
  bundle_table src_root project_path nicknames files done =
      let each = bundle_each writable makeable walk src_root project_path nicknames [] "" files in
      let table_path = join_path (project_path ∷ "fp-lib-table" ∷ []) in
      let all = rows (distinct [] nicknames) in
      let made : TableIs all each.0 =
        subst (λ t. TableIs t each.0) (append.nil all)
          (bundle_each-rows src_root project_path nicknames [] "" files) in
      elim (Option-cases each.0) [
        | inl e ↦ absurd (ground (arith, e))
        | inr (libs, e) ↦
            let same : libs ≡ all = subst (λ o. TableIs all o) e made in
            rw (← same) (ground (arith, e, eq_refl table_path))
      ]
