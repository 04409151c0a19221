-- ===== src/Process.antt =====
-- services/*/cmd/api/main.go: how a process starts, serves until it is told to stop, and ends. A
-- process ends with an exit code; what the libraries and the runtime do is a record of calls.
pub mod Users
pub mod Notifications
pub mod Auth
pub mod Exit
pub mod Docs
use go_microservice.Prelude.{ℕ, String}
use go_microservice.Prelude.Int.{ℤ}
use go_microservice.Apperror.{Error}
use go_microservice.Effect.{Result, ok, err, Prog}
use go_microservice.Http.{Handler}

abbrev pub Process : Type 0 → Type 0
Process W = W → ℕ × W

-- What ends the wait in main: SIGINT or SIGTERM, or a server that fails and exits the process
-- itself.
pub data Happening : Type 0 where
  signalled : Happening
  failed : (what : String) → Error → Happening

-- slog.Error, and net/http's server: `shutdown` waits for the requests in flight, for 15 seconds
-- at most.
pub record Runtime (W : Type 0) : Type 0 where
  pub log_error : (message : String) → Error → W → W
  pub shutdown : Prog W (Unit {0})

module _ {W : Type 0} (os : Runtime W) where
  needed : {A : Type 0} → String → Result A × W → (A → Process W) → ℕ × W
  needed message (err e, w) k = (1, os.log_error message e w)
  needed message (ok a, w) k = k a w

  -- `x, err := call(); if err != nil { slog.Error(message, "error", err); os.Exit(1) }`
  unfoldable pub need : {A : Type 0} → String → Prog W A → (A → Process W) → Process W
  unfolding needed
  need message m k w = needed message (m w) k

  after_try : String → Result (Unit {0}) × W → W
  after_try message (ok u, w) = w
  after_try message (err e, w) = os.log_error message e w

  -- an error that is only logged
  unfoldable pub try : String → Prog W (Unit {0}) → W → W
  unfolding after_try
  try message m w = after_try message (m w)

  stopped : (W → W) → Result (Unit {0}) × W → ℕ × W
  stopped close (ok u, w) = (0, close w)
  stopped close (err e, w) = (1, close (os.log_error "server forced to shutdown" e w))

  -- The end of main: the other listener is stopped, the HTTP server is shut down, and the broker's
  -- connection is closed. The first two run side by side, and main waits for both.
  unfoldable pub stop : (stop_other close : W → W) → Process W
  unfolding stopped
  stop stop_other close w = stopped close (os.shutdown (stop_other w))

  -- `<-quit`, unless a server ends the process first
  ended : Process W → Happening × W → ℕ × W
  ended at_signal (signalled, w) = at_signal w
  ended at_signal (failed what e, w) = (1, os.log_error what e w)

  unfoldable pub wait : (W → Happening × W) → Process W → Process W
  unfolding ended
  wait serving at_signal w = ended at_signal (serving w)
