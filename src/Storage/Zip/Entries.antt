-- ===== src/Storage/Zip/Entries.antt =====
-- What an archive holds.
use kle_ng_api.Prelude.{
  ◌≡◌, ◌≢◌, All, arith, refl, sym, ap, ap₂, Bool, true, false, String, Option, none, some, List, [],
  ◌∷◌, map, Option-cases, inl, inr,
}
use kle_ng_api.Go.Files.{Files, read_file, Visit, walk_error, visit, relative}
use kle_ng_api.Storage.Zip.{add_entry, zip_visits, create_zip_in_memory}

-- the files of a walk, without the directories
unfoldable pub file_paths : List Visit → List String
file_paths [] = []
file_paths (walk_error ∷ visits) = file_paths visits
file_paths (visit path true ∷ visits) = file_paths visits
file_paths (visit path false ∷ visits) = path ∷ file_paths visits

unfoldable pub has_walk_error : List Visit → Bool
has_walk_error [] = false
has_walk_error (walk_error ∷ visits) = true
has_walk_error (visit path is_dir ∷ visits) = has_walk_error visits

-- The archive holds every file, under its relative path and with its content.
abbrev pub Holds : String → List Visit → Files → Option (List (String × String)) → Type 0
Holds root visits files none = Unit
Holds root visits files (some entries) =
    (has_walk_error visits ≡ false)
    × (map (λ e. e.0) entries ≡ map (relative root) (file_paths visits))
    × (map (λ e. some e.1) entries ≡ map (λ p. read_file p files) (file_paths visits))

dir-Holds :
    (root path : String) (visits : List Visit) (files : Files) (o : Option (List (String × String)))
    → Holds root visits files o
    → Holds root (visit path true ∷ visits) files o
unfolding file_paths has_walk_error
dir-Holds root path visits files none h = tt
dir-Holds root path visits files (some entries) h = h

file-Holds :
    (root path content : String) (visits : List Visit) (files : Files)
    (o : Option (List (String × String)))
    → read_file path files ≡ some content
    → Holds root visits files o
    → Holds root (visit path false ∷ visits) files (add_entry (relative root path) content o)
unfolding file_paths has_walk_error
file-Holds root path content visits files none e h = tt
file-Holds root path content visits files (some entries) e h =
    (h.0, ap (λ t. relative root path ∷ t) h.1, ap₂ (λ x t. x ∷ t) (sym e) h.2)

zip_visits-Holds :
    (root : String) (visits : List Visit) (files : Files)
    → Holds root visits files (zip_visits root visits files)
unfolding zip_visits file_paths has_walk_error
zip_visits-Holds root [] files = (refl, refl, refl)
zip_visits-Holds root (walk_error ∷ visits) files = tt
zip_visits-Holds root (visit path true ∷ visits) files =
    dir-Holds root path visits files (zip_visits root visits files)
      (zip_visits-Holds root visits files)
zip_visits-Holds root (visit path false ∷ visits) files =
    elim (Option-cases (read_file path files)) [
      | inl e ↦ rw (e, zip_visits) tt
      | inr (content, e) ↦
          rw (e, zip_visits)
            (file-Holds root path content visits files (zip_visits root visits files) e
              (zip_visits-Holds root visits files))
    ]

-- An archive that is made holds every file that the walk of the directory visits, in that order,
-- under its path relative to the directory and with its content, and nothing else; the walk has
-- met no error.
pub create_zip_in_memory-Holds :
    (abs : String → Option String) (walk : String → Files → List Visit) (source_dir root : String)
    (files : Files)
    → abs source_dir ≡ some root
    → Holds root (walk root files) files (create_zip_in_memory abs walk source_dir files)
unfolding create_zip_in_memory
create_zip_in_memory-Holds abs walk source_dir root files e =
    rw (e, create_zip_in_memory) (zip_visits-Holds root (walk root files) files)

-- a walk that meets no error, and only files that can be read
abbrev pub IsReadableWalk : List Visit → Files → Type 0
IsReadableWalk visits files =
    (has_walk_error visits ≡ false) × All (λ p. read_file p files ≢ none) (file_paths visits)

zip_visits-made :
    (root : String) (visits : List Visit) (files : Files)
    → IsReadableWalk visits files
    → (entries : List (String × String)) × (zip_visits root visits files ≡ some entries)
unfolding zip_visits file_paths has_walk_error
zip_visits-made root [] files h = ([], refl)
zip_visits-made root (walk_error ∷ visits) files h = absurd (ground (arith, h.0))
zip_visits-made root (visit path true ∷ visits) files h = zip_visits-made root visits files h
zip_visits-made root (visit path false ∷ visits) files h =
    let (entries, made) = zip_visits-made root visits files (h.0, h.1.1) in
    elim (Option-cases (read_file path files)) [
      | inl e ↦ absurd (h.1.0 e)
      | inr (content, e) ↦ ((relative root path, content) ∷ entries, rw (e, made, zip_visits) refl)
    ]

-- over such a walk the archive is made
pub create_zip_in_memory-made :
    (abs : String → Option String) (walk : String → Files → List Visit) (source_dir root : String)
    (files : Files)
    → abs source_dir ≡ some root
    → IsReadableWalk (walk root files) files
    → (entries : List (String × String)) × (create_zip_in_memory abs walk source_dir files
        ≡ some entries)
unfolding create_zip_in_memory
create_zip_in_memory-made abs walk source_dir root files e h =
    let (entries, made) = zip_visits-made root (walk root files) files h in
    (entries, rw (e, create_zip_in_memory) made)
