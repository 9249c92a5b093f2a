-- ===== src/Go/Strings/Cut.antt =====
-- What `strings.SplitN(s, sep, 2)` gives: the first separator divides the text.
use Prim.Native.String.append
use text.Mathlib.TextEquality.{Char-path}
use kle_ng_api.Prelude.{
  Char, String, ◌≡◌, refl, ap, false, Option, none, some, arith, Bool-cases, inl, inr,
}
use kle_ng_api.Go.Strings.{◌<>◌, char_eq, contains_char, prepend, cut}

split_some :
    {a b c d : String}
    → ◌≡◌ {A = Option (String × String)} (some (a, b)) (some (c, d))
    → (a ≡ c) × (b ≡ d)
split_some h = (ground arith, ground arith)

-- a cut in front of which one more character stands
prepend-eq_some :
    (c : Char) (o : Option (String × String)) {a b : String}
    → prepend c o ≡ some (a, b)
    → (a' : String) × (o ≡ some (a', b)) × (a ≡ String.◌∷◌ c a')
unfolding prepend
prepend-eq_some c none h = cc
prepend-eq_some c (some (a', b')) h = (a', ground arith, ground arith)

-- The first separator divides the text: the part before it has none.
pub cut-append :
    (s : String) (sep : Char) {a b : String}
    → cut s sep ≡ some (a, b)
    → (s ≡ a <> String.◌∷◌ sep b) × (contains_char a sep ≡ false)
unfolding cut contains_char
cut-append String.[] sep h = cc
cut-append (String.◌∷◌ c s) sep {a} {b} h = elim (Bool-cases (char_eq c sep)) [
  | inl same ↦
      let e : ◌≡◌ {A = Option (String × String)} (some ("", s)) (some (a, b)) = ground arith in
      let (ea, eb) = split_some e in
      let ec : c ≡ sep = Char-path c sep (ground arith) in rw (← ea, ← eb, ec) (rw append.nil, refl)
  | inr other ↦
      let e : prepend c (cut s sep) ≡ some (a, b) = ground arith in
      let (a', found, ea) = prepend-eq_some c (cut s sep) e in
      let (whole, clean) = cut-append s sep found in
      rw ea (rw append.cons (ap (λ t. String.◌∷◌ c t) whole), ground arith)
]
