-- ===== src/Notification/Concurrent.antt =====
-- services/notification: deliveries of one event that are handled at the same time. A worker stops
-- at each call of HandleUserCreated that another worker can see: the count, the mail, the insert.
pub mod Settled
use go_microservice.Prelude.{
  ℕ, zero, suc, ◌+◌, ◌-◌, ◌≤◌, ◌<◌, String, Bool, true, false, ◌≡◌, refl, ◌∙◌, ap, List, [], ◌∷◌,
  Option, none, some, ◌⊎◌, inl, inr, ◌==◌, if◌then◌else◌, nat_eq, arith, length, Bool-cases,
  eq_refl,
}
use go_microservice.Schedule.{run}
use go_microservice.Apperror.{Error, wrap}
use go_microservice.Effect.{Result, ok, err, Prog, inspect}
use go_microservice.Notification.{
  Table, Message, UserCreatedPayload, new_row, user_created, status_sent, create,
  exists_by_event_id, conflict_is_ok, handle_user_created, notify,
}
use go_microservice.Notification.Idempotence.{
  TableLaws, exists-recorded, create_row, recorded-create_row, welcome,
}

pub data Worker : Type 0 where
  waiting cleared mailed : Worker
  finished : Result (Unit {0}) → Worker

module _ {W : Type 0} (db : Table W) (render : String → Result String)
    (send : Message → Prog W (Unit {0})) (ev : String) (p : UserCreatedPayload) where
  looked_up : Result Bool × W → Worker × W
  looked_up (ok true, w) = (finished (ok tt), w)
  looked_up (ok false, w) = (cleared, w)
  looked_up (err e, w) = (finished (err e), w)

  was_sent : Result (Unit {0}) × W → Worker × W
  was_sent (ok u, w) = (mailed, w)
  was_sent (err e, w) = (finished (err (wrap "sending welcome email" e)), w)

  rendered : Result String → W → Worker × W
  unfolding was_sent
  rendered (ok body) w =
      was_sent (send (record { to = p.email; subject = "Welcome!"; body = body }) w)
  rendered (err e) w = (finished (err (wrap "rendering welcome email" e)), w)

  -- one turn of a worker
  unfoldable pub advance : Worker → W → Worker × W
  unfolding looked_up rendered
  advance waiting w = looked_up (exists_by_event_id db ev w)
  advance cleared w = rendered (render p.name) w
  advance mailed w =
      let row = new_row ev user_created p.email status_sent "" in
      let (r, w') = inspect (create db row) (conflict_is_ok db) w in (finished r, w')
  advance (finished r) w = (finished r, w)

  -- Three turns of a worker that is alone are HandleUserCreated.
  abbrev pub Alone : W → Type 0
  Alone w =
      run advance (0 ∷ 0 ∷ 0 ∷ []) (waiting ∷ [], w)
      ≡ (let out = handle_user_created db render send ev p w in (finished out.0 ∷ [], out.1))

  pub run-handle_user_created : (w : W) → Alone w
  unfolding run advance handle_user_created notify
  run-handle_user_created w = looked (exists_by_event_id db ev w) refl
    where
      sent :
          (body : String) (w' : W) (o : Result (Unit {0}) × W)
          → exists_by_event_id db ev w ≡ (ok false, w')
          → render p.name ≡ ok body
          → send (record { to = p.email; subject = "Welcome!"; body = body }) w' ≡ o
          → Alone w
      sent body w' (ok u, w₂) h g e = rw (h, g) (rw e refl)
      sent body w' (err x, w₂) h g e = rw (h, g) (rw e refl)

      text :
          (w' : W) (o : Result String)
          → exists_by_event_id db ev w ≡ (ok false, w')
          → render p.name ≡ o
          → Alone w
      text w' (ok body) h g = sent body w' _ h g refl
      text w' (err x) h g = rw (h, g) refl

      looked : (o : Result Bool × W) → exists_by_event_id db ev w ≡ o → Alone w
      looked (ok true, w') h = rw h refl
      looked (ok false, w') h = text w' (render p.name) h refl
      looked (err e, w') h = rw h refl
