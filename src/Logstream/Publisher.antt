-- ===== src/Logstream/Publisher.antt =====
-- `Publisher` and `StreamKey` of backend/internal/logstream/logstream.go. Redis is the streams it
-- holds, the keys whose expiry is armed, a count of the EXPIRE commands, and what it will answer to
-- the commands still to come: `true` for success. With no answer left a command fails. `entries`
-- is all that was ever added; what MAXLEN ~ has taken off the front of a stream is counted apart.
pub mod Expiry
pub mod Trimming
use kle_ng_api.Prelude.{
  ℕ, ◌+◌, ◌-◌, Bool, true, false, String, List, [], ◌∷◌, ◌++◌, length, drop, rest_of, ltb, str_eq,
  if◌then◌else◌, ℤ,
}
use kle_ng_api.Go.Strings.{◌<>◌}
use kle_ng_api.Go.Decimal.{show_int}

abbrev pub source_kbplacer : String
source_kbplacer = "kbplacer"

abbrev pub source_worker : String
source_worker = "worker"

-- the fields of a stream entry
abbrev pub Values : Type 0
Values = List (String × String)

pub record Redis : Type 0 where
  pub answers : List Bool
  pub entries : List (String × Values)  -- the key of the stream and the entry, oldest first
  pub wishes : List ℕ  -- how many old entries the next XADDs would trim off
  pub trimmed : List (String × ℕ)  -- how many are trimmed off a stream, the newest count first
  pub armed : List String
  pub expire_calls : ℕ

unfoldable pub stream_key : String → String
stream_key task_id = "pcb:logs:" <> task_id

pub record Publisher : Type 0 where
  pub key : String
  pub expire_set : Bool

unfoldable pub new_publisher : String → Publisher
new_publisher task_id = record { key = stream_key task_id; expire_set = false }

unfoldable pub next_answer : List Bool → Bool
next_answer [] = false
next_answer (b ∷ bs) = b

unfoldable pub answers_left : List Bool → List Bool
answers_left [] = []
answers_left (b ∷ bs) = bs

abbrev pub max_len : ℕ
max_len = 2000

-- the entries ever added to one stream
unfoldable pub added_to : String → List (String × Values) → List Values
added_to key [] = []
added_to key ((k, v) ∷ entries) =
    let rest = added_to key entries in if str_eq k key then v ∷ rest else rest

-- how many of them are trimmed off
unfoldable pub trimmed_off : String → List (String × ℕ) → ℕ
trimmed_off key [] = 0
trimmed_off key ((k, n) ∷ counts) =
    let rest = trimmed_off key counts in if str_eq k key then n else rest

-- what the stream holds
unfoldable pub held : String → Redis → List Values
held key r = drop (trimmed_off key r.trimmed) (added_to key r.entries)

next_wish : List ℕ → ℕ
next_wish [] = 0
next_wish (n ∷ ns) = n

-- The count after an XADD with MAXLEN ~: Redis may trim as it wishes, but to no less than `max_len`
-- entries, and nothing that is trimmed comes back.
unfoldable pub trim_to : ℕ → ℕ → ℕ → ℕ
trim_to before wish length_now =
    let most = length_now - max_len in
    let wanted = if ltb wish most then wish else most in
    if ltb before wanted then wanted else before

-- `rdb.XAdd`: whether it succeeded
unfoldable pub xadd : String → Values → Redis → Bool × Redis
unfolding next_answer answers_left added_to trimmed_off next_wish trim_to
xadd key values r =
    let used = record r { answers = answers_left r.answers } in
    if next_answer r.answers
    then (
      true,
      (let entries' = r.entries ++ (key, values) ∷ [] in
          let count =
            trim_to (trimmed_off key r.trimmed) (next_wish r.wishes)
              (length (added_to key entries')) in
          record used {
            entries = entries';
            wishes = rest_of r.wishes;
            trimmed = (key, count) ∷ r.trimmed;
          }),
    )
    else (false, used)

-- `rdb.Expire`
unfoldable pub expire : String → Redis → Bool × Redis
unfolding next_answer answers_left
expire key r =
    let used = record r { answers = answers_left r.answers; expire_calls = r.expire_calls + 1 } in
    if next_answer r.answers then (true, record used { armed = key ∷ r.armed }) else (false, used)

unfoldable pub ensure_expire : Publisher → Redis → Publisher × Redis
unfolding expire
ensure_expire p r =
    if p.expire_set
    then (p, r)
    else (let (ok, r') = expire p.key r in (if ok then record p { expire_set = true } else p, r'))

-- an XADD and, if it succeeds, `ensureExpire`; the first part is whether the error is nil
unfoldable pub publish : Values → Publisher → Redis → Bool × Publisher × Redis
unfolding xadd ensure_expire
publish values p r =
    let (ok, r') = xadd p.key values r in
    if ok then (let (p', r'') = ensure_expire p r' in (true, p', r'')) else (false, p, r')

-- the entry that `PublishLine` writes at the Unix time `now`
unfoldable pub line_values : ℤ → String → String → Values
line_values now source line = ("ts", show_int now) ∷ ("source", source) ∷ ("line", line) ∷ []

-- the entry that `PublishEnd` writes
unfoldable pub end_values : String → Values
end_values status = ("event", "end") ∷ ("status", status) ∷ []

unfoldable pub publish_line : ℤ → String → String → Publisher → Redis → Bool × Publisher × Redis
publish_line now source line p r = publish (line_values now source line) p r

unfoldable pub publish_end : String → Publisher → Redis → Bool × Publisher × Redis
publish_end status p r = publish (end_values status) p r
