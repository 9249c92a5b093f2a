-- ===== src/Logstream/Publisher/Trimming.antt =====
-- What MAXLEN takes off a stream.
use kle_ng_api.Prelude.{
  ℕ, ◌-◌, ◌≤◌, ◌≡◌, refl, sym, subst, String, List, [], ◌∷◌, ◌++◌, length, str_eq, eq_refl, eq_iff,
  false, Bool-cases, inl, inr, arith,
}
use kle_ng_api.Logstream.Publisher.{
  Values, Redis, Publisher, max_len, added_to, trimmed_off, trim_to, held, xadd, expire,
  ensure_expire, next_answer, publish,
}
use kle_ng_api.Logstream.Publisher.Expiry.{publish_all}

pub added_to-append :
    (key : String) (xs ys : List (String × Values))
    → added_to key (xs ++ ys) ≡ added_to key xs ++ added_to key ys
unfolding added_to
added_to-append key [] ys = refl
added_to-append key ((k, v) ∷ xs) ys = ground (arith, added_to-append key xs ys)

-- No more is trimmed off a stream than what it has above the 2000.
abbrev pub IsTrimmed : String → Redis → Type 0
IsTrimmed key r = trimmed_off key r.trimmed ≤ length (added_to key r.entries) - max_len

trim_to-most :
    (before wish n m : ℕ) → before ≤ m - max_len → m ≤ n → trim_to before wish n ≤ n - max_len
unfolding trim_to
trim_to-most before wish n m h le = ground arith

-- one entry more, which may be of another stream
length-added_to :
    (key k : String) (v : Values) (entries : List (String × Values))
    → length (added_to key entries) ≤ length (added_to key (entries ++ (k, v) ∷ []))
unfolding added_to
length-added_to key k v [] = omega arith
length-added_to key k v ((j, u) ∷ entries) = ground (arith, length-added_to key k v entries)

xadd_own-IsTrimmed :
    (key : String) (v : Values) (r : Redis) → IsTrimmed key r → IsTrimmed key (xadd key v r).1
unfolding xadd trimmed_off
xadd_own-IsTrimmed key v r h = elim (Bool-cases (next_answer r.answers)) [
  | inr failed ↦ rw failed h
  | inl added ↦
      rw (added, eq_refl key)
        (trim_to-most (trimmed_off key r.trimmed) _ _ (length (added_to key r.entries)) h
          (length-added_to key key v r.entries))
]

xadd_other-IsTrimmed :
    (key k : String) (v : Values) (r : Redis)
    → str_eq k key ≡ false
    → IsTrimmed key r
    → IsTrimmed key (xadd k v r).1
unfolding xadd trimmed_off
xadd_other-IsTrimmed key k v r other h = elim (Bool-cases (next_answer r.answers)) [
  | inr failed ↦ rw failed h
  | inl added ↦ rw (added, other) (omega (arith, h, length-added_to key k v r.entries))
]

xadd-IsTrimmed :
    (key k : String) (v : Values) (r : Redis) → IsTrimmed key r → IsTrimmed key (xadd k v r).1
xadd-IsTrimmed key k v r h = elim (Bool-cases (str_eq k key)) [
  | inl same ↦
      subst (λ i. IsTrimmed key (xadd i v r).1) (sym ((eq_iff k key).0 same))
        (xadd_own-IsTrimmed key v r h)
  | inr other ↦ xadd_other-IsTrimmed key k v r other h
]

ensure_expire-IsTrimmed :
    (key : String) (p : Publisher) (r : Redis)
    → IsTrimmed key r
    → IsTrimmed key (ensure_expire p r).1
unfolding ensure_expire expire
ensure_expire-IsTrimmed key p r h = elim (Bool-cases p.expire_set) [
  | inl set ↦ rw set h
  | inr unset ↦ elim (Bool-cases (next_answer r.answers)) [
    | inl ok ↦ rw (unset, ok) h
    | inr failed ↦ rw (unset, failed) h
  ]
]

pub publish-IsTrimmed :
    (key : String) (v : Values) (p : Publisher) (r : Redis)
    → IsTrimmed key r
    → IsTrimmed key (publish v p r).2
unfolding publish
publish-IsTrimmed key v p r h =
    let added = xadd-IsTrimmed key p.key v r h in
    elim (Bool-cases (xadd p.key v r).0) [
      | inl ok ↦ rw (ok, publish) (ensure_expire-IsTrimmed key p (xadd p.key v r).1 added)
      | inr failed ↦ rw (failed, publish) added
    ]

pub publish_all-IsTrimmed :
    (key : String) (vs : List Values) (p : Publisher) (r : Redis)
    → IsTrimmed key r
    → IsTrimmed key (publish_all vs p r).1
unfolding publish_all
publish_all-IsTrimmed key [] p r h = h
publish_all-IsTrimmed key (v ∷ vs) p r h =
    let (ok, p', r') = publish v p r in
    publish_all-IsTrimmed key vs p' r' (publish-IsTrimmed key v p r h)

-- a stream that was never longer than 2000 entries holds them all
pub held-all :
    (key : String) (r : Redis)
    → IsTrimmed key r
    → length (added_to key r.entries) ≤ max_len
    → held key r ≡ added_to key r.entries
unfolding held
held-all key r h short =
    let none_off : trimmed_off key r.trimmed ≡ 0 = omega (arith, h, short) in rw none_off refl
