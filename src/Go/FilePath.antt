-- ===== src/Go/FilePath.antt =====
-- `path/filepath` on Unix: `Clean`, `Join`, `Base`, `Ext`, `Dir`.
use kle_ng_api.Prelude.{
  String, ◌≡◌, refl, Bool, true, false, none, some, List, [], ◌∷◌, str_eq, code, ◌==◌,
  if◌then◌else◌,
}
use kle_ng_api.Go.Strings.{◌<>◌, join, split, strip_prefix}

is_rooted : String → Bool
unfolding strip_prefix
is_rooted p = elim (strip_prefix "/" p) [ none ↦ false | some _ ↦ true ]

-- one element of a path on the elements before it, the last one first
push_element : Bool → String → List String → List String
push_element rooted e [] =
    if str_eq e ""
    then []
    else if str_eq e "."
    then []
    else if str_eq e ".."
    then (if rooted then [] else e ∷ [])
    else e ∷ []
push_element rooted e (top ∷ below) =
    if str_eq e ""
    then top ∷ below
    else if str_eq e "."
    then top ∷ below
    else if str_eq e ".."
    then (if str_eq top ".." then e ∷ top ∷ below else below)
    else e ∷ top ∷ below

clean_elements : Bool → List String → List String → List String
unfolding push_element
clean_elements rooted [] stack = stack
clean_elements rooted (e ∷ es) stack = clean_elements rooted es (push_element rooted e stack)

reverse_onto : List String → List String → List String
reverse_onto [] acc = acc
reverse_onto (e ∷ es) acc = reverse_onto es (e ∷ acc)

show_elements : Bool → List String → String
unfolding reverse_onto
show_elements true stack = "/" <> join (reverse_onto stack []) "/"
show_elements false [] = "."
show_elements false (e ∷ stack) = join (reverse_onto (e ∷ stack) []) "/"

-- `filepath.Clean(p)`
unfoldable pub clean : String → String
unfolding is_rooted clean_elements show_elements split join
clean p = let r = is_rooted p in show_elements r (clean_elements r (split p "/") [])

nonempty : List String → List String
nonempty [] = []
nonempty (e ∷ es) = let rest = nonempty es in if str_eq e "" then rest else e ∷ rest

clean_nonempty : List String → String
clean_nonempty [] = ""
clean_nonempty (e ∷ es) = clean (join (e ∷ es) "/")

-- `filepath.Join(elements...)`
unfoldable pub join_path : List String → String
unfolding nonempty clean_nonempty clean
join_path es = clean_nonempty (nonempty es)

last_nonempty : String → List String → String
last_nonempty found [] = found
last_nonempty found (e ∷ es) = last_nonempty (if str_eq e "" then found else e) es

-- `filepath.Base(p)`: the last element
unfoldable pub base : String → String
unfolding last_nonempty split is_rooted
base p =
    if str_eq p ""
    then "."
    else let e = last_nonempty "" (split p "/") in if str_eq e "" then "/" else e

drop_last : List String → List String
drop_last [] = []
drop_last (e ∷ []) = "" ∷ []
drop_last (e ∷ f ∷ es) = e ∷ drop_last (f ∷ es)

-- `filepath.Dir(p)`: all but the last element, cleaned
unfoldable pub dir : String → String
unfolding drop_last clean split join
dir p = clean (join (drop_last (split p "/")) "/")

-- from the last dot behind the last slash on, `found` so far
ext_from : String → String → String
ext_from String.[] found = found
ext_from (String.◌∷◌ c s) found =
    if code c == b'/'
    then ext_from s ""
    else if code c == b'.'
    then ext_from s (String.◌∷◌ c s)
    else ext_from s found

-- `filepath.Ext(p)`
unfoldable pub ext : String → String
unfolding ext_from
ext p = ext_from p ""

ext_test : ext "/tmp/t1/my.board/key.kicad_sch" ≡ ".kicad_sch"
unfolding ext
ext_test = refl

join_path_test : join_path ("/tmp/t1" ∷ "../x/" ∷ "front.svg" ∷ []) ≡ "/tmp/x/front.svg"
unfolding join_path
join_path_test = refl

base_test : base "t1/t1.zip" ≡ "t1.zip"
unfolding base
base_test = refl

dir_test : dir "/tmp/t1/logs/build.log" ≡ "/tmp/t1/logs"
unfolding dir
dir_test = refl
