-- ===== src/Storage/Zip.antt =====
-- backend/internal/storage/zip.go: an archive is the list of its entries, a name and a content.
pub mod Entries
pub mod Whole
use kle_ng_api.Prelude.{Bool, true, false, String, Option, none, some, List, [], ◌∷◌}
use kle_ng_api.Go.Files.{Files, read_file, Visit, walk_error, visit, relative}

-- an entry in front of those that follow, if they can be made
abbrev pub add_entry :
    String → String → Option (List (String × String)) → Option (List (String × String))
add_entry name content none = none
add_entry name content (some entries) = some ((name, content) ∷ entries)

-- the walk function on each visit; `none` for an error
unfoldable pub zip_visits : String → List Visit → Files → Option (List (String × String))
unfolding read_file relative
zip_visits source_path [] files = some []
zip_visits source_path (walk_error ∷ visits) files = none
zip_visits source_path (visit path true ∷ visits) files = zip_visits source_path visits files
zip_visits source_path (visit path false ∷ visits) files =
    let rest = zip_visits source_path visits files in
    elim (read_file path files) [
      | none ↦ none
      | some content ↦ add_entry (relative source_path path) content rest
    ]

-- `abs` is `filepath.Abs`, `walk` the visits of a directory.
unfoldable pub create_zip_in_memory :
    (String → Option String)
    → (String → Files → List Visit)
    → String
    → Files
    → Option (List (String × String))
unfolding zip_visits
create_zip_in_memory abs walk source_dir files = elim (abs source_dir) [
  | none ↦ none
  | some source_path ↦ zip_visits source_path (walk source_path files) files
]
