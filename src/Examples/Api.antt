-- ===== src/Examples/Api.antt =====
-- Requests to the server.
use kle_ng_api.Prelude.{
  ◌≤◌, ◌≡◌, ◌≢◌, ◌↔◌, ◌⊎◌, refl, Bool, true, String, none, some, [], ◌∷◌, has_key, str_eq,
  if◌then◌else◌, pos,
}
use kle_ng_api.Server.Http.{Request}
use kle_ng_api.Server.Tracker.{Times, lookup, get_abandoned_tasks}
use kle_ng_api.Server.Tasks.{
  World, kicad_task, max_body_size, pending_count, post_new_task, delete_task,
}
use kle_ng_api.Server.Tasks.Outcomes.{
  IsWaiting, post_new_task_accepts, post_new_task_tracks, delete_task_cancels,
}
use kle_ng_api.Server.Abandonment.{check_abandoned_tasks}
use kle_ng_api.Server.Abandonment.Sweep.{is_running, check_abandoned_lookup}
use kle_ng_api.Examples.Queues.{one_task, one_task-frame}

abbrev seen : Times
seen = ("t1", 100) ∷ ("t9", 950) ∷ []

abbrev busy : World Bool
busy = record { tracker = record { last_access = seen; timeout = pos 500 }; queue = true }

check_abandoned_lookup_example :
    lookup "t1" (check_abandoned_tasks one_task 1000 busy).tracker.last_access ≡ (
      if has_key "t1" (get_abandoned_tasks 1000 busy.tracker)
      then (if is_running (one_task.get_task_info "kicad" "t1" busy.queue)
          then lookup "t1" busy.tracker.last_access
          else none)
      else lookup "t1" busy.tracker.last_access)
check_abandoned_lookup_example = check_abandoned_lookup one_task one_task-frame 1000 busy "t1"

abbrev post : Request
post = record {
  method = "POST";
  origin = "https://editor.keyboard-tools.xyz";
  body = "{}";
  body_size = 2;
  body_readable = true;
}

abbrev any_json : String → Bool
any_json body = true

post_new_task_accepts_example :
    ((post_new_task one_task (pos 2) any_json 1000 post [] busy).0.status_code ≡ 202) ↔ (
      (post.method ≡ "POST")
      × (pending_count one_task busy.queue ≤ 2)
      × (post.body_readable ≡ true)
      × (post.body_size ≤ max_body_size)
      × (any_json post.body ≡ true)
      × ((id : String) × ((one_task.enqueue (kicad_task post.body) busy.queue).0 ≡ some id)))
post_new_task_accepts_example = post_new_task_accepts one_task 2 any_json 1000 post [] busy

post_new_task_tracks_example :
    let a = post_new_task one_task (pos 2) any_json 1000 post [] busy in
    ((id : String) × (a.0.status_code ≡ 202)
      × ((one_task.enqueue (kicad_task post.body) busy.queue).0 ≡ some id)
      × (lookup id a.1.tracker.last_access ≡ some 1000)
      × (lookup "t9" a.1.tracker.last_access
          ≡ (if str_eq id "t9" then some 1000 else lookup "t9" busy.tracker.last_access)))
    ⊎ ((a.0.status_code ≢ 202)
        × (a.1.tracker ≡ busy.tracker)
        × (a.0.status_code ≢ 500 → a.1.queue ≡ busy.queue))
post_new_task_tracks_example = post_new_task_tracks one_task 2 any_json 1000 post [] busy "t9"

delete_task_cancels_example :
    IsWaiting one_task (one_task.get_task_info "kicad" "t1" busy.queue)
    × ((one_task.delete_task "kicad" "t1" busy.queue).0 ≡ true)
    × (lookup "t1" (delete_task one_task "t1" [] busy).1.tracker.last_access ≡ none)
unfolding delete_task
delete_task_cancels_example = delete_task_cancels one_task "t1" [] busy refl

abbrev editor : String
editor = "https://editor.keyboard-tools.xyz"
