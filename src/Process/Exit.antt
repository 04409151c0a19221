-- ===== src/Process/Exit.antt =====
-- When the processes end with exit code 0.
use go_microservice.Prelude.{String, ◌≡◌, refl, arith}
use go_microservice.Effect.{Result, ok, err, Prog}
use go_microservice.Process.{
  Process, Happening, signalled, failed, Runtime, need, needed, stop, stopped, wait, ended,
}
use go_microservice.Process.Users
use go_microservice.Process.Users.{serving, serve_app}
use go_microservice.Users.{EventPublisher}
use go_microservice.Config.Services.{UserConfig, load_user_config}

module _ {W : Type 0} (os : Runtime W) where
  needed-zero :
      {A : Type 0} (message : String) (r : Result A × W) (k : A → Process W)
      → (needed os message r k).0 ≡ 0
      → (a : A) × ((r.0 ≡ ok a) × ((k a r.1).0 ≡ 0))
  unfolding needed
  needed-zero message (ok a, w) k h = (a, (refl, h))
  needed-zero message (err e, w) k h = absurd (omega (arith, h))

  need-zero :
      {A : Type 0} (message : String) (m : Prog W A) (k : A → Process W) (w : W)
      → (need os message m k w).0 ≡ 0
      → (a : A) × (((m w).0 ≡ ok a) × ((k a (m w).1).0 ≡ 0))
  unfolding need
  need-zero message m k w h = needed-zero message (m w) k h

  ended-zero :
      (at_signal : Process W) (p : Happening × W)
      → (ended os at_signal p).0 ≡ 0
      → (p.0 ≡ signalled) × ((at_signal p.1).0 ≡ 0)
  unfolding ended
  ended-zero at_signal (signalled, w) h = (refl, h)
  ended-zero at_signal (failed what e, w) h = absurd (omega (arith, h))

  stopped-zero :
      (close : W → W) (r : Result (Unit {0}) × W) → (stopped os close r).0 ≡ 0 → r.0 ≡ ok tt
  unfolding stopped
  stopped-zero close (ok tt, w) h = refl
  stopped-zero close (err e, w) h = absurd (omega (arith, h))

  wait-zero :
      (serving : W → Happening × W) (at_signal : Process W) (w : W)
      → (wait os serving at_signal w).0 ≡ 0
      → ((serving w).0 ≡ signalled) × ((at_signal (serving w).1).0 ≡ 0)
  unfolding wait
  wait-zero serving at_signal w h = ended-zero at_signal (serving w) h

  stop-zero :
      (stop_other close : W → W) (w : W)
      → (stop os stop_other close w).0 ≡ 0
      → (os.shutdown (stop_other w)).0 ≡ ok tt
  unfolding stop
  stop-zero stop_other close w h = stopped-zero close (os.shutdown (stop_other w)) h

module _ {W D S Q C L : Type 0} (os : Runtime W) (p : Users.Platform W D S Q C L) where
  -- The servers ran, with what Build made of an accepted configuration, until a signal came, and the
  -- HTTP server was then shut down without an error.
  pub record Served : Type 0 where
    cfg : UserConfig
    db : D
    publisher : EventPublisher C
    lis : L
    before : W
    accepted : load_user_config p.parse_duration p.env ≡ ok cfg
    signal : (serving os p cfg db publisher lis before).0 ≡ signalled
    down : (os.shutdown (p.graceful_stop (serving os p cfg db publisher lis before).1)).0 ≡ ok tt

  -- The user service's process ends with exit code 0 only if its configuration was accepted, its
  -- servers ran, with the handlers that Build assembled, until a signal came, and the HTTP server
  -- was then shut down without an error.
  main-Served : (w : W) → (Users.main os p w).0 ≡ 0 → Served
  unfolding Users.main serve_app
  main-Served w h =
      let (cfg, (accepted, h₁)) = need-zero os "loading config" _ _ w h in
      let (db, (_, h₂)) = need-zero os _ _ _ _ h₁ in
      let (conn, (_, h₃)) = need-zero os _ _ _ _ h₂ in
      let (publisher, (_, h₄)) = need-zero os _ _ _ _ h₃ in
      let (lis, (_, h₅)) = need-zero os _ _ _ _ h₄ in
      let (signal, h₆) = wait-zero os (serving os p cfg db publisher lis) _ _ h₅ in
      record {
        cfg = cfg;
        db = db;
        publisher = publisher;
        lis = lis;
        before = _;
        accepted = accepted;
        signal = signal;
        down = stop-zero os p.graceful_stop _ _ h₆;
      }
