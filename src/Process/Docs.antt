-- ===== src/Process/Docs.antt =====
-- services/docs/cmd/api/main.go: a file server for the static directory. log.Fatal ends the process
-- with exit code 1.
use go_microservice.Prelude.{String, ◌≡◌, refl, ◌==◌, if◌then◌else◌}
use go_microservice.Prelude.Text.{◌⧺◌}
use go_microservice.Apperror.{Error}
use go_microservice.Effect.{Result, ok, err}
use go_microservice.Config.{Env}
use go_microservice.Process.{Process}

-- `sub` is fs.Sub of the embedded files, `serve` registers a file server over them for "/" and runs
-- http.ListenAndServe, which returns only with an error.
pub record Platform (W F : Type 0) : Type 0 where
  pub env : Env
  pub sub : (dir : String) → Result F
  pub log : Error → W → W
  pub serve : (addr : String) → F → W → Error × W

module _ {W F : Type 0} (p : Platform W F) where
  fatal : Error → Process W
  fatal e w = (1, p.log e w)

  listening : String → Result F → Process W
  unfolding fatal
  listening port (err e) w = fatal e w
  listening port (ok files) w = let (e, w') = p.serve (":" ⧺ port) files w in fatal e w'

  unfoldable main : Process W
  unfolding listening
  main =
      let given = p.env "PORT" in
      let port = if given == "" then "8080" else given in listening port (p.sub "static")

  listening-fails : (port : String) (r : Result F) (w : W) → (listening port r w).0 ≡ 1
  unfolding listening
  listening-fails port (err e) w = refl
  listening-fails port (ok files) w = refl

  -- The docs server never ends with exit code 0: there is no shutdown on a signal.
  main-fails : (w : W) → (main w).0 ≡ 1
  unfolding main
  main-fails w = listening-fails _ (p.sub "static") w
