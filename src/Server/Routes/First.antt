-- ===== src/Server/Routes/First.antt =====
-- Which of the routes a request takes.
use kle_ng_api.Prelude.{
  ◌≡◌, refl, sym, ◌∙◌, inl, inr, Bool, true, false, ◌&&◌, String, Option, none, some, List, ◌∷◌,
  str_eq, eq_iff, Bool-cases, if◌then◌else◌,
}
use kle_ng_api.Server.Routes.{
  post_task, task_status, cancel_task, task_render, task_result, list_workers, show_version, Target,
  answer_preflight, api, task_logs, redirect, Route, routes,
}

abbrev pub method_fits : Option String → String → Bool
method_fits none m = true
method_fits (some k) m = str_eq k m

-- A request of method `m` for the path `p` may come to the target: the table as a specification.
-- `matches` says whether the router takes a path for a template or, with `true`, for one under it.
abbrev pub May : (Bool → String → String → Bool) → String → String → Target → Type 0
May matches m p answer_preflight = (m ≡ "OPTIONS") × (matches true "/api/" p ≡ true)
May matches m p (api post_task) = (m ≡ "POST") × (matches false "/api/pcb" p ≡ true)
May matches m p (api task_status) = (m ≡ "GET") × (matches false "/api/pcb/{task_id}" p ≡ true)
May matches m p (api cancel_task) = (m ≡ "DELETE") × (matches false "/api/pcb/{task_id}" p ≡ true)
May matches m p (api task_render) =
    (m ≡ "GET") × (matches false "/api/pcb/{task_id}/render/{name}" p ≡ true)
May matches m p (api task_result) =
    (m ≡ "GET") × (matches false "/api/pcb/{task_id}/result" p ≡ true)
May matches m p (api list_workers) = (m ≡ "GET") × (matches false "/api/workers" p ≡ true)
May matches m p (api show_version) = (m ≡ "GET") × (matches false "/api/version" p ≡ true)
May matches m p task_logs = (m ≡ "GET") × (matches false "/api/pcb/{task_id}/logs" p ≡ true)
May matches m p redirect = m ≡ "OPTIONS" → matches true "/api/" p ≡ false

both : (a b : Bool) → (a && b) ≡ true → (a ≡ true) × (b ≡ true)
both true b h = (refl, h)
both false b h = cc h

named :
    (o : Option String) (m method : String) → o ≡ some method → method_fits o m ≡ true → m ≡ method
named none m method e h = cc e
named (some k) m method e h = sym ((eq_iff k m).0 h) ∙ cc e

-- an OPTIONS request that the preflight route has not taken
elsewhere :
    {m : String} {prefix : Bool}
    → m ≡ "OPTIONS"
    → (prefix && str_eq "OPTIONS" m) ≡ false
    → prefix ≡ false
elsewhere {m} {prefix = true} e h = absurd (cc ((eq_iff "OPTIONS" m).1 (sym e), h))
elsewhere {prefix = false} e h = refl

-- `dispatch` is the router: the first route whose path and method fit wins.
module _ (matches : Bool → String → String → Bool)
    (dispatch : List Route → String → String → Option Target)
    (everything : (p : String) → matches true "/" p ≡ true)
    (first_wins : (r : Route) (rs : List Route) (m p : String)
      → dispatch (r ∷ rs) m p ≡ (
          if matches r.is_prefix r.path p && method_fits r.method m
          then some r.target
          else dispatch rs m p)) where
  -- One route is tried, and then the others.
  attempt :
      (r : Route) (rs : List Route) (m p : String) (P : Target → Type 0)
      → (matches r.is_prefix r.path p ≡ true → method_fits r.method m ≡ true → P r.target)
      → ((matches r.is_prefix r.path p && method_fits r.method m) ≡ false
          → (t : Target) × (dispatch rs m p ≡ some t) × P t)
      → (t : Target) × (dispatch (r ∷ rs) m p ≡ some t) × P t
  attempt r rs m p P taken passed =
      elim (Bool-cases (matches r.is_prefix r.path p && method_fits r.method m)) [
        | inl fits ↦
            let (path_fits, method_ok) = both _ _ fits in
            (r.target, first_wins r rs m p ∙ rw fits refl, taken path_fits method_ok)
        | inr misses ↦ let (t, e, h) = passed misses in (t, first_wins r rs m p ∙ rw misses e, h)
      ]

  -- the common kind of route
  attempt_method :
      (r : Route) (rs : List Route) (m p method : String) (P : Target → Type 0)
      → r.method ≡ some method
      → (m ≡ method → matches r.is_prefix r.path p ≡ true → P r.target)
      → ((t : Target) × (dispatch rs m p ≡ some t) × P t)
      → (t : Target) × (dispatch (r ∷ rs) m p ≡ some t) × P t
  attempt_method r rs m p method P e taken passed =
      attempt r rs m p P (λ path_fits fits. taken (named r.method m method e fits) path_fits)
        (λ _. passed)

  -- Every request has a target, and one that it may come to: a task is created only by a POST to
  -- its path and cancelled only by a DELETE, and a preflight request under /api/ never comes to a
  -- handler or the redirection.
  pub dispatch_routes :
      (m p : String) → (t : Target) × (dispatch routes m p ≡ some t) × May matches m p t
  unfolding routes
  dispatch_routes m p =
      let P = May matches m p in
      attempt _ _ m p P (λ path_fits fits. (sym ((eq_iff "OPTIONS" m).0 fits), path_fits))
        λ no_preflight.
          attempt_method _ _ m p "POST" P refl (λ e h. (e, h))
            (attempt_method _ _ m p "GET" P refl (λ e h. (e, h))
              (attempt_method _ _ m p "GET" P refl (λ e h. (e, h))
                (attempt_method _ _ m p "DELETE" P refl (λ e h. (e, h))
                  (attempt_method _ _ m p "GET" P refl (λ e h. (e, h))
                    (attempt_method _ _ m p "GET" P refl (λ e h. (e, h))
                      (attempt_method _ _ m p "GET" P refl (λ e h. (e, h))
                        (attempt_method _ _ m p "GET" P refl (λ e h. (e, h))
                          (attempt _ _ m p P (λ _ _ e. elsewhere e no_preflight)
                            (λ none_left. absurd (cc (none_left, everything p)))))))))))
