-- ===== src/Server/Detector.antt =====
-- The running server of backend/cmd/server/main.go: its handlers and the goroutine that
-- `startAbandonmentDetector` starts share one tracker. Each event is one handler's call or one turn
-- of the detector's loop; the tracker's mutex keeps them apart where they meet.
pub mod Unique
use kle_ng_api.Prelude.{ℕ, Bool, true, false, String, Option, List, [], ◌∷◌, ℤ, if◌then◌else◌}
use kle_ng_api.Server.Http.{Request}
use kle_ng_api.Server.Tracker.{TaskAccessTracker, update_access}
use kle_ng_api.Server.Queue.{Queue}
use kle_ng_api.Server.Tasks.{World, post_new_task, get_task_status, delete_task}
use kle_ng_api.Server.Abandonment.{check_abandoned_tasks}
use kle_ng_api.Server.Startup.{App}

-- the shared state, and whether the detector still runs
pub record Server (Q : Type 0) : Type 0 where
  pub world : World Q
  pub detecting : Bool

-- A request is answered; the detector's ticker fires at a time, or its context is done; the queue
-- moves by itself, as workers take and finish tasks.
pub data Event (Q : Type 0) : Type 0 where
  post : ℕ → Request → Event Q
  status : ℕ → String → Event Q
  cancel : String → Event Q
  logs : ℕ → String → Event Q
  tick : ℕ → Event Q
  shut_down : Event Q
  queue_moves : Q → Event Q

module _ {Q : Type 0} (q : Queue Q) (limit : ℤ) (is_json_object : String → Bool) where
  -- one turn of the detector's loop, which its end leaves
  unfoldable pub detect : ℕ → Server Q → Server Q
  detect now s = if s.detecting then record s { world = check_abandoned_tasks q now s.world } else s

  unfoldable pub handle : Event Q → Server Q → Server Q
  unfolding detect
  handle (post now r) s = record s {
    world = (post_new_task q limit is_json_object now r [] s.world).1;
  }
  handle (status now task_id) s = record s { world = (get_task_status q now task_id [] s.world).1 }
  handle (cancel task_id) s = record s { world = (delete_task q task_id [] s.world).1 }
  handle (logs now task_id) s = record s {
    world = record s.world { tracker = update_access task_id now s.world.tracker };
  }
  handle (tick now) s = detect now s
  handle shut_down s = record s { detecting = false }
  handle (queue_moves queue') s = record s { world = record s.world { queue = queue' } }

  unfoldable pub run : List (Event Q) → Server Q → Server Q
  run [] s = s
  run (e ∷ es) s = run es (handle e s)

-- What the signal handler of `Serve` does, in its order; `handle shut_down` is the first of it.
pub data Closing : Type 0 where
  cancel_detector : Closing
  shut_down_http : Closing
  close_redis : Closing

unfoldable pub on_signal : List Closing
on_signal = cancel_detector ∷ shut_down_http ∷ close_redis ∷ []

-- the server that `NewApp` and the start of `Serve` make
unfoldable pub started : {Q : Type 0} → App → Q → Server Q
started app queue = record {
  world = record { tracker = app.task_access_tracker; queue = queue };
  detecting = true;
}
