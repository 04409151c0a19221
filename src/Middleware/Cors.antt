-- ===== src/Middleware/Cors.antt =====
-- pkg/middleware/cors.go
use go_microservice.Prelude.{String, Bool, List, ◌==◌, ◌&&◌, if◌then◌else◌, contains, not}
use go_microservice.Http.{get_header, Handler, Conn, returned, set_header, add_header, write_header}

module _ {W : Type 0} where
  -- the `switch` on the allowed origins
  allow_origin : Bool → List String → String → Conn W → Conn W
  allow_origin allow_all allowed origin c =
      if allow_all
      then set_header "Access-Control-Allow-Origin" "*" c
      else if not (origin == "") && contains allowed origin
      then add_header "Vary" "Origin" (set_header "Access-Control-Allow-Origin" origin c)
      else c

  unfoldable pub cors : List String → Handler W → Handler W
  unfolding allow_origin
  cors allowed next r c =
      let c₁ = allow_origin (contains allowed "*") allowed (get_header r "Origin") c in
      let c₂ = set_header "Access-Control-Allow-Methods" "GET, POST, PUT, DELETE, OPTIONS" c₁ in
      let c₃ = set_header "Access-Control-Allow-Headers" "Content-Type, Authorization" c₂ in
      if r.method == "OPTIONS" then (returned, write_header 200 c₃) else next r c₃
