-- ===== src/Kicad/Bundle.antt =====
-- `bundleFootprintLibraries`, `copyDir` and `GetKicad3rdPartyPath` of backend/internal/kicad/kicad.go.
pub mod Table
use kle_ng_api.Prelude.{
  Bool, true, false, String, Option, none, some, List, [], ◌∷◌, has_key, str_eq, if◌then◌else◌,
}
use kle_ng_api.Go.Strings.{◌<>◌, trim_prefix}
pub use kle_ng_api.Go.Files.{Visit, walk_error, visit}
unfoldable pub use kle_ng_api.Go.Files.{relative}
use kle_ng_api.Go.FilePath.{join_path}
use kle_ng_api.Kicad.Sheets.{Files, read_file, copy_file}

unfoldable pub kicad_3rd_party_path : Option String → Option String
kicad_3rd_party_path home = elim home [
  | none ↦ none
  | some dirname ↦ some (join_path (dirname ∷ ".local/share/kicad/9.0/3rdparty" ∷ []))
]

abbrev pub library_dir : String → String → String
library_dir root lib_nickname = join_path (root ∷ (lib_nickname <> ".pretty") ∷ [])

abbrev pub bundled_dir : String → String → String
bundled_dir project_path lib_nickname =
    join_path (project_path ∷ "footprints" ∷ (lib_nickname <> ".pretty") ∷ [])

-- one line of the table
abbrev pub table_row : String → String
table_row lib_nickname =
    "   (lib (name \"" <> lib_nickname <> "\")(type \"KiCad\")(uri \"${KIPRJMOD}/footprints/"
    <> lib_nickname <> ".pretty\")(options \"\")(descr \"\"))\n"

-- What of the file system may fail: `writable` a write, `makeable` a `MkdirAll`. `walk` lists the
-- visits of a directory.
module _ (writable makeable : String → Bool) (walk : String → Files → List Visit) where
  -- the walk function on each visit; `false` for an error
  unfoldable pub copy_visits : String → String → List Visit → Files → Bool × Files
  unfolding relative copy_file
  copy_visits src dst [] files = (true, files)
  copy_visits src dst (walk_error ∷ visits) files = (false, files)
  copy_visits src dst (visit path true ∷ visits) files =
      let rest = copy_visits src dst visits files in
      if makeable (join_path (dst ∷ relative src path ∷ [])) then rest else (false, files)
  copy_visits src dst (visit path false ∷ visits) files =
      let (copied, files') =
        copy_file writable path (join_path (dst ∷ relative src path ∷ [])) files in
      let rest = copy_visits src dst visits files' in if copied then rest else (false, files')

  unfoldable pub copy_dir : String → String → Files → Bool × Files
  copy_dir src dst files = copy_visits src dst (walk src files) files

  -- the loop over the nicknames: the table so far is `libs`, `none` for an error
  unfoldable pub bundle_each :
      String → String → List String → List String → String → Files → Option String × Files
  unfolding copy_dir
  bundle_each src_root project_path [] bundled libs files = (some libs, files)
  bundle_each src_root project_path (lib ∷ rest) bundled libs files =
      let dst = bundled_dir project_path lib in
      let (copied, files') = copy_dir (library_dir src_root lib) dst files in
      let skipped = bundle_each src_root project_path rest bundled libs files in
      let bundling =
        bundle_each src_root project_path rest (lib ∷ bundled) (libs <> table_row lib) files' in
      if has_key lib bundled
      then skipped
      else if makeable dst
      then (if copied then bundling else (none, files'))
      else (none, files)

  unfoldable pub bundle_footprint_libraries : String → String → List String → Files → Bool × Files
  unfolding bundle_each
  bundle_footprint_libraries src_root project_path lib_nicknames files =
      let (table, files') = bundle_each src_root project_path lib_nicknames [] "" files in
      let table_path = join_path (project_path ∷ "fp-lib-table" ∷ []) in
      elim table [
        | none ↦ (false, files')
        | some libs ↦
            if writable table_path
            then (true, (table_path, "(fp_lib_table\n   (version 7)\n" <> libs <> ")\n") ∷ files')
            else (false, files')
      ]
