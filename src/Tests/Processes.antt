-- ===== src/Tests/Processes.antt =====
-- The user service's process, started with docker-compose's configuration and stopped by a signal.
use go_microservice.Prelude.{ℕ, suc, some, none, true, ◌≡◌, refl}
use go_microservice.Apperror.{foreign, plain, Error}
use go_microservice.Effect.{ok, err}
use go_microservice.Http.{zero_time}
use go_microservice.Process.{Runtime, signalled, need, try, stop, wait}
use go_microservice.Process.Users.{Bindings, Platform, main, serving, serve_app}
use go_microservice.Tests.Config.{env, parse_duration, loads}
use go_microservice.Tests.Users.{db, status_error}

abbrev pub os : Runtime ℕ
os = record { log_error = λ m e w. w; shutdown = λ w. (ok tt, suc w) }

abbrev unreadable : Error
unreadable = foreign plain "unexpected end of JSON input"

abbrev bindings : Bindings
bindings = record {
  decode_create = λ s. err unreadable;
  decode_update = λ s. err unreadable;
  decode_empty = λ s. none;
  check_create = λ r. none;
  check_update = λ r. none;
}

abbrev pub platform : Platform ℕ (Unit {0}) (Unit {0}) (Unit {0}) (Unit {0}) (Unit {0})
platform = record {
  env = env;
  parse_duration = parse_duration;
  clean = λ s. s;
  new_uuid = λ w. ("r1", w);
  bindings = bindings;
  sql = record {
    query_escape = λ s. s;
    gorm_open = λ dsn w. (ok tt, w);
    sql_db = λ d w. (ok tt, w);
    set_max_open_conns = λ d n w. w;
    set_max_idle_conns = λ d n w. w;
    set_conn_max_lifetime = λ d n w. w;
    set_conn_max_idle_time = λ d n w. w;
    ping = λ d w. (ok tt, w);
  };
  gorm = λ d. db;
  ping = λ d w. (ok tt, w);
  amqp_dial = λ url w. (ok tt, w);
  close_amqp = λ q w. (ok tt, w);
  amqp = record {
    channel = λ q w. (ok tt, w);
    confirm = λ c n w. (ok tt, w);
    qos = λ c n s g w. (ok tt, w);
    declare = λ c d w. (ok tt, w);
    close = λ c w. (ok tt, w);
  };
  confirm_channel =
      λ c. record { publish_deferred = λ x k m w. (ok 1, suc w); wait = λ n w. (ok true, w) };
  marshal = λ e. ok "{}";
  marshal_payload = λ p. ok "{}";
  now = λ w. (zero_time, w);
  format_time = λ t. "0001-01-01T00:00:00Z";
  parse_time = λ s. some zero_time;
  status_error = status_error;
  listen = λ a w. (ok tt, w);
  serve = λ l g a h w. (signalled, w);
  graceful_stop = λ w. w;
}

exits_with_zero : (main os platform 0).0 ≡ 0
unfolding main serve_app serving need try stop wait
exits_with_zero = rw loads refl
