-- ===== src/Go/Files.antt =====
-- Files as the programs meet them: the pairs of a path and a content, the newest first, and what
-- `filepath.Walk` calls its function with.
use kle_ng_api.Prelude.{Bool, String, Option, none, some, List, [], ◌∷◌, str_eq, if◌then◌else◌}
use kle_ng_api.Go.Strings.{◌<>◌, trim_prefix}

abbrev pub Files : Type 0
Files = List (String × String)

-- `os.ReadFile`
unfoldable pub read_file : String → Files → Option String
read_file p [] = none
read_file p ((k, content) ∷ files) =
    let rest = read_file p files in if str_eq k p then some content else rest

-- an error, or a path and whether it is a directory
pub data Visit : Type 0 where
  walk_error : Visit
  visit : String → Bool → Visit

-- a path of a walk behind the walk's root, as `filepath.Rel` gives it
unfoldable pub relative : String → String → String
relative root path = if str_eq path root then "." else trim_prefix path (root <> "/")
