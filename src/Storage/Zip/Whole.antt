-- ===== src/Storage/Zip/Whole.antt =====
-- An archive of a directory holds every file below it.
use kle_ng_api.Prelude.{
  ◌≡◌, refl, sym, ap, ◌∙◌, subst, ◌⊎◌, inl, inr, true, false, Bool-cases, String, Option, none,
  some, Option-cases, List, [], ◌∷◌, All, All-map, str_eq, eq_iff, has_key, arith,
}
use kle_ng_api.Go.Strings.{◌<>◌, strip_prefix}
use kle_ng_api.Go.Files.{Files, read_file, Visit, walk_error, visit, relative}
use kle_ng_api.Storage.Zip.{add_entry, zip_visits, create_zip_in_memory}
use kle_ng_api.Storage.Zip.Entries.{file_paths}

-- the paths of the files that lie below a directory
unfoldable pub below : String → Files → List String
below root [] = []
below root ((p, content) ∷ files) =
    let rest = below root files in
    elim (strip_prefix (root <> "/") p) [ none ↦ rest | some name ↦ p ∷ rest ]

-- A walk visits every file below its root.
abbrev pub IsWholeWalk : String → List Visit → Files → Type 0
IsWholeWalk root visits files = All (λ p. has_key p (file_paths visits) ≡ true) (below root files)

abbrev pub Listed : String × String → List (String × String) → Type 0
Listed x [] = ⊥
Listed x (y ∷ ys) = (x ≡ y) ⊎ Listed x ys

-- the file of a path is among the entries, under its relative path and with its content
abbrev pub IsArchived : String → Files → List (String × String) → String → Type 0
IsArchived root files entries p =
    (content : String) × (read_file p files ≡ some content)
    × Listed (relative root p, content) entries

abbrev ArchivedIn : String → Files → String → Option (List (String × String)) → Type 0
ArchivedIn root files p none = Unit
ArchivedIn root files p (some entries) = IsArchived root files entries p

here :
    (root p path content : String) (files : Files) (o : Option (List (String × String)))
    → path ≡ p
    → read_file path files ≡ some content
    → ArchivedIn root files p (add_entry (relative root path) content o)
here root p path content files none same found = tt
here root p path content files (some entries) same found = (
  content,
  subst (λ i. read_file i files ≡ some content) same found,
  inl (ap (λ i. (relative root i, content)) (sym same)),
)

further :
    (root p path content : String) (files : Files) (o : Option (List (String × String)))
    → ArchivedIn root files p o
    → ArchivedIn root files p (add_entry (relative root path) content o)
further root p path content files none h = tt
further root p path content files (some entries) (c, found, listed) = (c, found, inr listed)

visited_archived :
    (root p : String) (visits : List Visit) (files : Files)
    → has_key p (file_paths visits) ≡ true
    → ArchivedIn root files p (zip_visits root visits files)
unfolding zip_visits file_paths
visited_archived root p [] files h = absurd (ground (arith, h))
visited_archived root p (walk_error ∷ visits) files h = tt
visited_archived root p (visit path true ∷ visits) files h = visited_archived root p visits files h
visited_archived root p (visit path false ∷ visits) files h =
    elim (Option-cases (read_file path files)) [
      | inl e ↦ rw (e, zip_visits) tt
      | inr (content, e) ↦
          rw (e, zip_visits)
            (elim (Bool-cases (str_eq path p)) [
              | inl same ↦ here root p path content files _ ((eq_iff path p).0 same) e
              | inr other ↦
                  further root p path content files _
                    (visited_archived root p visits files (ground (arith, h, other)))
            ])
    ]

-- if the walk visits them all, then every file below the directory is in the archive
pub create_zip_in_memory-IsArchived :
    (abs : String → Option String) (walk : String → Files → List Visit) (source_dir root : String)
    (files : Files) (entries : List (String × String))
    → abs source_dir ≡ some root
    → IsWholeWalk root (walk root files) files
    → create_zip_in_memory abs walk source_dir files ≡ some entries
    → All (IsArchived root files entries) (below root files)
unfolding create_zip_in_memory
create_zip_in_memory-IsArchived abs walk source_dir root files entries at_root whole made =
    All-map (λ p. has_key p (file_paths (walk root files)) ≡ true) (IsArchived root files entries)
      (below root files)
      (λ p h.
        subst (ArchivedIn root files p) (rw (at_root, create_zip_in_memory) refl ∙ made)
          (visited_archived root p (walk root files) files h))
      whole
