-- ===== src/Server/Cors/Policy.antt =====
-- Which origins a browser is told to trust.
use kle_ng_api.Prelude.{
  ◌≡◌, ◌↔◌, ◌≢◌, ◌⊎◌, refl, sym, ◌∙◌, Bool, true, false, String, [], str_eq, eq_iff, Bool-cases,
  inl, inr,
}
use kle_ng_api.Server.Http.{Headers, Request, Handler, get_header, set_header}
use kle_ng_api.Server.Logs.{check_ws_origin}
use kle_ng_api.Server.Cors.{
  permissive, restricted, allow_origin, enable_cors_with_origin, only_headers, disable_cors,
  with_cors, preflight,
}

-- What a browser makes of the response headers: whether it gives the answer to a page of the
-- request's origin.
abbrev pub Trusts : Request → Headers → Type 0
unfolding get_header
Trusts r h =
    let named = get_header "Access-Control-Allow-Origin" h in
    (named ≡ "*") ⊎ ((named ≡ r.origin) × (r.origin ≢ ""))

star_ne : ¬ ◌≡◌ {A = String} "" "*"
star_ne e = cc e

permissive_trusted : (r : Request) → Trusts r (permissive [])
unfolding permissive get_header set_header
permissive_trusted r = inl refl

allow_origin_trusted :
    (allowed : String) (r : Request)
    → allowed ≢ ""
    → Trusts r (allow_origin allowed r []) ↔ (r.origin ≡ allowed)
unfolding allow_origin restricted get_header set_header
allow_origin_trusted allowed r h = elim (Bool-cases (str_eq r.origin allowed)) [
  | inl same ↦
      let e : r.origin ≡ allowed = (eq_iff r.origin allowed).0 same in
      (λ _. e, λ _. rw (same, allow_origin) (inr (refl, λ z. h (sym e ∙ z))))
  | inr other ↦ (
    rw (other, allow_origin)
        (λ t. elim t [ inl c ↦ absurd (star_ne c) | inr (c, d) ↦ absurd (d (sym c)) ]),
    λ e. absurd (cc (other, (eq_iff r.origin allowed).1 e)),
  )
]

-- The server trusts an origin in one way only: outside production every page gets the answers of
-- the API, in production exactly those of the configured origin. So say the headers that a wrapped
-- handler is called with, those of the preflight answer, and the test of the WebSocket upgrade.
-- In production a request of method OPTIONS is answered 200 without the handler.
pub cors_policy :
    {W : Type 0} (production : Bool) (allowed : String) (handler : Handler W) (r : Request) (w : W)
    → allowed ≢ ""
    → (Trusts r (preflight production allowed r []).headers
        ↔ (check_ws_origin production allowed r ≡ true))
      × (((production ≡ true)
            × (r.method ≡ "OPTIONS")
            × (with_cors production allowed handler r [] w
                ≡ (preflight production allowed r [], w)))
          ⊎ ((with_cors production allowed handler r [] w
              ≡ handler r (preflight production allowed r []).headers w)))
unfolding preflight with_cors check_ws_origin only_headers enable_cors_with_origin disable_cors
cors_policy true allowed handler r w h =
    let (to, back) = allow_origin_trusted allowed r h in
    let (test_to, test_back) = eq_iff r.origin allowed in
    (
      (λ t. test_back (to t), λ e. back (test_to e)),
      elim (Bool-cases (str_eq r.method "OPTIONS")) [
        | inl same ↦
            inl (refl, (eq_iff r.method "OPTIONS").0 same, rw (same, enable_cors_with_origin) refl)
        | inr other ↦ inr (rw (other, enable_cors_with_origin) refl)
      ],
    )
cors_policy false allowed handler r w h = ((λ _. refl, λ _. permissive_trusted r), inr refl)
