-- ===== src/Lib.antt =====
-- A model of the Go services of this repository: pkg (the shared packages) and services/auth,
-- services/user and services/notification. A client reaches auth and user over HTTP; auth asks user
-- over gRPC for users and keeps refresh tokens in Redis; user publishes an event for every user that
-- it inserts; notification consumes the events from RabbitMQ, mails, and keeps an audit row for each.
--
-- Conventions. A Go function that returns (T, error) is a `Prog W T` of Effect: a function of the
-- world `W` that returns `ok` or `err` and the new world, so what was done before an error stays done.
-- Databases, Redis, the broker, the mail server, bcrypt, JWT, uuid.NewString and the clock are
-- arguments of the definitions that call them; what they are documented to do is in the records named
-- ...Laws, which Tests shows to hold of concrete ones. `int` and time.Duration are ℤ of Prelude.Int;
-- where the code does arithmetic on them it wraps at 64 bits. A text is a string of characters.
--
-- Files and the code that they model:
--   Prelude             lists, strings, strconv.Atoi and Itoa, 64-bit integers
--   Apperror            pkg/apperror/apperror.go, and the error values of other packages
--   Effect, Http        results with a world; net/http's requests and writers, and the context
--                       functions of pkg/logger/logger.go; Http.Mux is what the routers use of
--                       http.ServeMux
--   Logger              pkg/logger/logger.go: the process-wide loggers
--   Response            pkg/response/response.go
--   Contract            services/docs/static/openapi.yaml: the schemas of the answers, and the handlers
--                       and routers of the services against them
--   Serving, Health     the steps that all HTTP handlers share; services/*/internal/health/handler.go
--   Middleware          pkg/middleware: chain, auth, CORS, access log, panic recovery, rate limit,
--                       request id; and the stack of services/*/internal/router/router.go
--   Routers             services/*/internal/router: the routes of the three services
--   Grpc                pkg/grpcmiddleware, and the chains of interceptors in services/user/cmd/api
--                       and services/auth/cmd/api
--   Rabbitmq            pkg/messaging/rabbitmq: consumer, envelope, publisher, topology, and in
--                       Rabbitmq.Channels how they are opened; Rabbitmq.Lifecycle is a delivery's way
--                       through the broker
--   Mailer              pkg/mailer/smtp.go: the SMTP dialogue and the text of a message
--   Token               pkg/token/jwt.go and issuer.go
--   Request             pkg/request/request.go and pkg/validation/validator.go
--   Auth                services/auth/internal/auth: service, repository and HTTP handlers;
--                       Auth.Account is auth over user, through gRPC and the interceptors of user's
--                       server, validation included, down to the users table, and
--                       Auth.Registrations is Register requests that are served at the same time
--   Notification        services/notification/internal/notification with its HTTP handlers, and the
--                       callbacks in services/notification/cmd/api; Notification.Concurrent is
--                       deliveries that are handled at the same time
--   Schedule            workers that take turns on one world, for concurrent requests and deliveries
--   Welcome             the way of an event from user's publisher to notification's mail
--   Pagination, Query   pkg/pagination, pkg/query and pkg/query/gorm
--   Users               services/user/internal/user: repository, service and HTTP handlers, the event
--                       publisher of internal/platform/messaging; Users.Rpc is grpc_server.go and
--                       auth's client services/auth/internal/clients/user/client.go
--   Config              pkg/config/env.go and services/*/internal/config/config.go
--   Process             services/*/cmd/api/main.go and services/*/internal/app/app.go: start, wait, stop;
--                       Process.Docs is services/docs/cmd/api/main.go
--   Platform            services/*/internal/platform and pkg/messaging/rabbitmq/connection.go
--   Tests               concrete worlds, handlers and brokers, and runs on them
--
-- The consumer's loop is a function of the list of deliveries, and the loops of the code are
-- structural recursion on what they walk. Fuel stands in two places, neither of them a loop of the
-- code: in Rabbitmq.Lifecycle it counts the calls of handle for one delivery, of which maxRetries + 1
-- are enough; in Mailer.Headers it counts the lines that a reader takes, of which a message has six.
--
-- The body of an HTTP response is a list of JSON trees and of net/http's own texts; the text of a JSON
-- tree, the Allow header of a 405 and the escapes in a redirect's page are left out.
--
-- Not modelled: generated protobuf code, and what is only written to the log for information. In
-- Process the calls of the libraries that main makes, or that Platform makes for it, are parameters.
-- The concurrency of the program is modelled where a property
-- depends on it: Auth.Race orders the steps of two requests, and Notification.Concurrent and
-- Auth.Registrations take any schedule of the turns of n workers, a turn being one call that the
-- others can see. The two goroutines that stop a service are run one after the other.
mod Prelude
pub mod Apperror
pub mod Effect
pub mod Http
pub mod Response
pub mod Middleware
pub mod Rabbitmq
pub mod Auth
pub mod Notification
pub mod Pagination
pub mod Query
pub mod Users
pub mod Config
pub mod Request
pub mod Serving
pub mod Routers
pub mod Health
pub mod Grpc
pub mod Mailer
pub mod Token
pub mod Contract
pub mod Logger
pub mod Schedule
pub mod Welcome
pub mod Platform
pub mod Process
mod Tests
