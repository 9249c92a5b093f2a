-- ===== src/Server/Tracker/Table.antt =====
-- The laws of the last-access table.
use kle_ng_api.Prelude.{
  ℕ, ◌≡◌, refl, String, none, some, [], ◌∷◌, arith, str_eq, eq_iff, if◌then◌else◌,
}
use kle_ng_api.Server.Tracker.{Times, lookup, insert, without}

-- After a write the written task has the new time, every other its old one.
pub lookup-insert :
    (written asked : String) (now : ℕ) (times : Times)
    → lookup asked (insert written now times)
      ≡ (if str_eq written asked then some now else lookup asked times)
unfolding lookup insert
lookup-insert written asked now [] = refl
lookup-insert written asked now ((task_id, last) ∷ times) =
    let earlier = lookup-insert written asked now times in
    ground (arith, earlier, eq_iff task_id asked, eq_iff written asked, eq_iff task_id written)

pub lookup-without :
    (k j : String) (m : Times) → lookup j (without k m) ≡ (if str_eq k j then none else lookup j m)
unfolding lookup without
lookup-without k j [] = ground arith
lookup-without k j ((i, w) ∷ m) =
    ground (arith, lookup-without k j m, eq_iff i k, eq_iff i j, eq_iff k j)

-- No key stands twice.
abbrev pub HasUniqueKeys : Times → Type 0
HasUniqueKeys [] = Unit
HasUniqueKeys ((k, v) ∷ m) = (lookup k m ≡ none) × HasUniqueKeys m

pub insert-HasUniqueKeys :
    (k : String) (v : ℕ) (m : Times) → HasUniqueKeys m → HasUniqueKeys (insert k v m)
unfolding insert lookup
insert-HasUniqueKeys k v [] u = (refl, tt)
insert-HasUniqueKeys k v ((j, w) ∷ m) u =
    ground (arith, insert-HasUniqueKeys k v m, lookup-insert k j v m, eq_iff j k, eq_iff k j)

pub without-HasUniqueKeys : (k : String) (m : Times) → HasUniqueKeys m → HasUniqueKeys (without k m)
unfolding without
without-HasUniqueKeys k [] u = tt
without-HasUniqueKeys k ((j, w) ∷ m) u =
    ground (arith, without-HasUniqueKeys k m, lookup-without k j m, eq_iff j k, eq_iff k j)
