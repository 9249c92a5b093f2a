-- ===== src/Logstream/Publisher/Expiry.antt =====
-- The expiry of a stream over a whole task: it is armed by the first publish that can, and once.
use kle_ng_api.Prelude.{◌≡◌, refl, ◌∙◌, true, String, List, [], ◌∷◌, arith, eq_refl, has_key}
use kle_ng_api.Logstream.Publisher.{Values, Redis, Publisher, stream_key, new_publisher, publish}

-- the publishes of a task, in turn; the errors are ignored
unfoldable pub publish_all : List Values → Publisher → Redis → Publisher × Redis
publish_all [] p r = (p, r)
publish_all (v ∷ vs) p r = let (ok, p', r') = publish v p r in publish_all vs p' r'

-- A publisher that has set the expiry is one whose key has it, and keeps its task's key.
pub record IsArmed (key : String) (p : Publisher) (r : Redis) : Type 0 where
  pub keyed : p.key ≡ key
  pub armed_if_set : p.expire_set ≡ true → has_key key r.armed ≡ true

publish-IsArmed :
    (key : String) (v : Values) (p : Publisher) (r : Redis)
    → IsArmed key p r
    → IsArmed key (publish v p r).1 (publish v p r).2
unfolding publish
publish-IsArmed key v p r h = ground (arith, eq_refl p.key, eq_refl key)

publish_all-IsArmed :
    (key : String) (vs : List Values) (p : Publisher) (r : Redis)
    → IsArmed key p r
    → IsArmed key (publish_all vs p r).0 (publish_all vs p r).1
unfolding publish_all
publish_all-IsArmed key [] p r h = h
publish_all-IsArmed key (v ∷ vs) p r h =
    let (ok, p', r') = publish v p r in
    publish_all-IsArmed key vs p' r' (publish-IsArmed key v p r h)

new-IsArmed :
    (task_id : String) (r : Redis) → IsArmed (stream_key task_id) (new_publisher task_id) r
unfolding new_publisher
new-IsArmed task_id r = ground arith

-- Whatever Redis answers, a task's publisher that believes the expiry set is right: the stream
-- under the task's key has one.
pub publish_all_armed :
    (task_id : String) (vs : List Values) (r : Redis)
    → (publish_all vs (new_publisher task_id) r).0.expire_set ≡ true
    → has_key (stream_key task_id) (publish_all vs (new_publisher task_id) r).1.armed ≡ true
publish_all_armed task_id vs r h =
    let kept =
      publish_all-IsArmed (stream_key task_id) vs (new_publisher task_id) r
        (new-IsArmed task_id r) in
    kept.armed_if_set h

publish_quiet :
    (v : Values) (p : Publisher) (r : Redis)
    → p.expire_set ≡ true
    → let s = publish v p r in
      (s.1 ≡ p) × (s.2.expire_calls ≡ r.expire_calls) × (s.2.armed ≡ r.armed)
unfolding publish
publish_quiet v p r h = ground arith

-- Once the expiry is set, no later publish sends EXPIRE again, and the publisher is unchanged.
pub publish_all_quiet :
    (vs : List Values) (p : Publisher) (r : Redis)
    → p.expire_set ≡ true
    → let s = publish_all vs p r in
      (s.0 ≡ p) × (s.1.expire_calls ≡ r.expire_calls) × (s.1.armed ≡ r.armed)
unfolding publish_all
publish_all_quiet [] p r h = (refl, refl, refl)
publish_all_quiet (v ∷ vs) p r h =
    let (same, calls, armed) = publish_quiet v p r h in
    let later = publish_all_quiet vs p (publish v p r).2 h in
    rw (same, publish_all) (later.0, later.1 ∙ calls, later.2 ∙ armed)
