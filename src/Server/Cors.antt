-- ===== src/Server/Cors.antt =====
-- The CORS wrappers of backend/cmd/server/main.go and the preflight handler that `Serve` installs.
pub mod Policy
use kle_ng_api.Prelude.{Bool, String, str_eq, if◌then◌else◌}
use kle_ng_api.Server.Http.{Headers, Request, Response, Handler, no_body, set_header}

unfoldable pub permissive : Headers → Headers
permissive h =
    set_header "Access-Control-Allow-Headers" "*" (
      set_header "Access-Control-Allow-Methods" "*"
        (set_header "Access-Control-Allow-Origin" "*" h))

unfoldable pub restricted : String → Headers → Headers
restricted origin h = set_header "Access-Control-Max-Age" "86400" (
    set_header "Access-Control-Allow-Headers" "Content-Type" (
      set_header "Access-Control-Allow-Methods" "GET, POST, DELETE, OPTIONS"
        (set_header "Access-Control-Allow-Origin" origin h)))

unfoldable pub allow_origin : String → Request → Headers → Headers
unfolding restricted
allow_origin allowed r h = if str_eq r.origin allowed then restricted r.origin h else h

-- the answer of a preflight request
unfoldable pub only_headers : Headers → Response
only_headers h = record { status_code = 200; headers = h; body = no_body }

module _ {W : Type 0} where
  -- `disableCors`
  unfoldable pub disable_cors : Handler W → Handler W
  disable_cors handler r h w = handler r (permissive h) w

  -- `enableCorsWithOrigin`
  unfoldable pub enable_cors_with_origin : Handler W → String → Handler W
  unfolding allow_origin only_headers
  enable_cors_with_origin handler allowed r h w =
      let h' = allow_origin allowed r h in
      if str_eq r.method "OPTIONS" then (only_headers h', w) else handler r h' w

  -- how `Serve` wraps each handler
  unfoldable pub with_cors : Bool → String → Handler W → Handler W
  unfolding disable_cors enable_cors_with_origin
  with_cors production allowed handler =
      if production then enable_cors_with_origin handler allowed else disable_cors handler

-- the handler of OPTIONS requests under `/api/`
unfoldable pub preflight : Bool → String → Request → Headers → Response
unfolding allow_origin permissive only_headers
preflight production allowed r h =
    only_headers (if production then allow_origin allowed r h else permissive h)
