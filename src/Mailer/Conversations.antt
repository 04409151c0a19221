-- ===== src/Mailer/Conversations.antt =====
-- The calls that Send makes, in their order, whichever of them fails.
use go_microservice.Prelude.{List}
use go_microservice.Effect.{◌>>◌}
