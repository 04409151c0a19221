-- ===== src/Logger.antt =====
-- pkg/logger/logger.go: the two process-wide loggers, which Init replaces together. A logger is its
-- writer and the lowest level that it emits; `S` stands for the writers. The loggers of a request
-- and ParseLevel are in Http.
use go_microservice.Prelude.{◌≡◌, refl, none, some, String}
use go_microservice.Http.{
  Context, Level, level_info, LoggerRef, default_logger, with_request_id, from_context,
  with_context,
}

pub record Logger (S : Type 0) : Type 0 where
  pub writer : S
  pub level : Level

-- the package's default and slog's
pub record Loggers (S : Type 0) : Type 0 where
  pub default : Logger S
  pub slog_default : Logger S

module _ {S : Type 0} where
  -- defaultLogger before Init, for os.Stdout
  unfoldable default_logger_on : S → Logger S
  default_logger_on stdout = record { writer = stdout; level = level_info }

  unfoldable init : S → Level → Loggers S → Logger S × Loggers S
  init w level s =
      let l : Logger S = record { writer = w; level = level } in
      (l, record { default = l; slog_default = l })

  -- L
  unfoldable process_logger : Loggers S → Logger S
  process_logger s = s.default

  -- where the lines of a logger go: With keeps the handler
  resolve : Loggers S → LoggerRef → Logger S
  unfolding process_logger
  resolve s default_logger = process_logger s
  resolve s (with_request_id id) = process_logger s

  -- After Init, whatever was set up before, a line of a request goes to the new logger, with and
  -- without a request's own logger in the context.
  init-resolve :
      (w : S) (level : Level) (s : Loggers S) (ctx : Context) (id : String)
      → let (l, s') = init w level s in
        (resolve s' (from_context (some (record ctx { logger = none }))) ≡ l)
        × (resolve s' (from_context (some (with_context ctx (with_request_id id)))) ≡ l)
        × (resolve s' (from_context none) ≡ s'.slog_default)
  unfolding init resolve from_context with_context
  init-resolve w level s ctx id = (refl, refl, refl)
