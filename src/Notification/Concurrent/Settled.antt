-- ===== src/Notification/Concurrent/Settled.antt =====
-- services/notification: every interleaving of deliveries of one event.
use go_microservice.Prelude.{
  ℕ, ◌-◌, ◌≤◌, ◌<◌, String, Bool, true, false, ◌≡◌, refl, ◌∙◌, List, [], ◌∷◌, ◌⊎◌, inl, inr, ◌==◌,
  arith, length, Bool-cases, eq_refl, All,
}
use go_microservice.Apperror.{Error, wrap}
use go_microservice.Effect.{Result, ok, err, Prog}
use go_microservice.Notification.{
  Table, Message, UserCreatedPayload, new_row, user_created, status_sent,
}
use go_microservice.Notification.Idempotence.{TableLaws, exists-recorded, recorded-create_row}
use go_microservice.Schedule.{turns, copies, run, Rules, Ended, run-ends, length-copies, All-copies}
use go_microservice.Notification.Concurrent.{
  Worker, waiting, cleared, mailed, finished, was_sent, rendered, advance, Alone,
  run-handle_user_created,
}

abbrev pub left : Worker → ℕ
left waiting = 3
left cleared = 2
left mailed = 1
left (finished r) = 0

-- the mail was not made or not accepted
abbrev pub Unmailed : Error → Type 0
Unmailed e =
    (cause : Error) × ((e ≡ wrap "rendering welcome email" cause)
      ⊎ (e ≡ wrap "sending welcome email" cause))

module _ {W : Type 0} (db : Table W) (recorded : W → String → Bool) (law : TableLaws db recorded)
    (render : String → Result String) (send : Message → Prog W (Unit {0}))
    (send_keeps : (m : Message) (w : W) (j : String) → recorded (send m w).1 j ≡ recorded w j)
    (ev : String) (p : UserCreatedPayload) where
  -- a delivery is acknowledged only if its event has a row, and fails only for its mail
  abbrev Sound : W → Worker → Type 0
  Sound w (finished (ok u)) = recorded w ev ≡ true
  Sound w (finished (err e)) = Unmailed e
  Sound w k = Unit {0}

  -- the row of the event stays, and so do the other events' rows
  record Extends (w w' : W) : Type 0 where
    same_event : recorded w ev ≡ true → recorded w' ev ≡ true
    others : (j : String) → (ev == j) ≡ false → recorded w' j ≡ recorded w j

  Extends-trans : (a b c : W) → Extends a b → Extends b c → Extends a c
  Extends-trans a b c h k = record {
    same_event = λ e. k.same_event (h.same_event e);
    others = λ j e. k.others j e ∙ h.others j e;
  }

  Extends-refl : (w : W) → Extends w w
  Extends-refl w = record { same_event = λ e. e; others = λ j e. refl }

  record Good (k : Worker) (w : W) (o : Worker × W) : Type 0 where
    extends : Extends w o.1
    sound : Sound w k → Sound o.1 o.0
    nearer : left o.0 ≤ left k - 1

  was_sent-Good :
      (w : W) (o : Result (Unit {0}) × W)
      → ((j : String) → recorded o.1 j ≡ recorded w j)
      → Good cleared w (was_sent db render send ev p o)
  unfolding was_sent
  was_sent-Good w (ok u, w') kept = record {
    extends = record { same_event = λ e. kept ev ∙ e; others = λ j e. kept j };
    sound = λ s. tt;
    nearer = omega arith;
  }
  was_sent-Good w (err e, w') kept = record {
    extends = record { same_event = λ h. kept ev ∙ h; others = λ j h. kept j };
    sound = λ s. (e, inr refl);
    nearer = omega arith;
  }

  rendered-Good : (o : Result String) (w : W) → Good cleared w (rendered db render send ev p o w)
  unfolding rendered
  rendered-Good (ok body) w = was_sent-Good w (send _ w) (send_keeps _ w)
  rendered-Good (err e) w = record {
    extends = Extends-refl w;
    sound = λ s. (e, inl refl);
    nearer = omega arith;
  }

  advance-Good : (k : Worker) (w : W) → Good k w (advance db render send ev p k w)
  unfolding advance
  advance-Good waiting w =
      rw (exists-recorded db recorded law ev w) (elim (Bool-cases (recorded w ev)) [
        | inl old ↦
            rw old (record { extends = Extends-refl w; sound = λ s. old; nearer = omega arith })
        | inr new ↦
            rw new (record { extends = Extends-refl w; sound = λ s. tt; nearer = omega arith })
      ])
  advance-Good cleared w = rendered-Good (render p.name) w
  advance-Good mailed w =
      let row = new_row ev user_created p.email status_sent "" in
      let (done, rows) = recorded-create_row db recorded law row w in
      let there : recorded (advance db render send ev p mailed w).1 ev ≡ true =
        rows ev ∙ rw eq_refl refl in
      rw done (record {
        extends = record { same_event = λ e. there; others = λ j e. rows j ∙ rw e refl };
        sound = λ s. there;
        nearer = omega arith;
      })
  advance-Good (finished r) w = record {
    extends = Extends-refl w;
    sound = λ s. s;
    nearer = omega arith;
  }

  Sound-Extends : (k : Worker) (w w' : W) → Extends w w' → Sound w k → Sound w' k
  Sound-Extends (finished (ok u)) w w' h s = h.same_event s
  Sound-Extends (finished (err e)) w w' h s = s
  Sound-Extends waiting w w' h s = tt
  Sound-Extends cleared w w' h s = tt
  Sound-Extends mailed w w' h s = tt

  rules : Rules (advance db render send ev p) left Extends Sound
  rules = record {
    same = Extends-refl;
    compose = Extends-trans;
    keep = Sound-Extends;
    extends = λ k w. (advance-Good k w).extends;
    sound = λ k w. (advance-Good k w).sound;
    nearer = λ k w. (advance-Good k w).nearer;
  }

  -- acknowledged, and then the event has a row, or failed for the mail
  abbrev pub Settled : W → Worker → Type 0
  Settled w k =
      ((k ≡ finished (ok tt)) × (recorded w ev ≡ true))
      ⊎ ((e : Error) × (k ≡ finished (err e)) × Unmailed e)

  Settled-Sound : (w : W) (k : Worker) → left k ≡ 0 → Sound w k → Settled w k
  Settled-Sound w (finished (ok u)) h s = inl (refl, s)
  Settled-Sound w (finished (err e)) h s = inr (e, refl, s)
  Settled-Sound w waiting h s = absurd (omega arith)
  Settled-Sound w cleared h s = absurd (omega arith)
  Settled-Sound w mailed h s = absurd (omega arith)

  All-Settled :
      (ks : List Worker) (w : W)
      → All (Ended (advance db render send ev p) left Extends Sound rules w) ks
      → All (Settled w) ks
  All-Settled [] w all = tt
  All-Settled (k ∷ ks) w (e, all) = (Settled-Sound w k e.0 e.1, All-Settled ks w all)

  -- While the audit table's database answers and sending a mail leaves that table alone: however
  -- the deliveries of one event interleave at their calls of the database and of the mail server,
  -- once each has had three turns each is acknowledged or has failed for its mail, never for
  -- another delivery; if one is acknowledged, the event has a row; and the rows of the other events
  -- are what they were. Three turns of one that is alone are HandleUserCreated.
  pub run-settles :
      (n : ℕ) (is : List ℕ) (w : W)
      → ((j : ℕ) → j < n → 3 ≤ turns j is)
      → let out = run (advance db render send ev p) is (copies n waiting, w) in
        (length out.0 ≡ n)
        × All (Settled out.1) out.0
        × ((j : String) → (ev == j) ≡ false → recorded out.1 j ≡ recorded w j)
        × ((w' : W) → Alone db render send ev p w')
  run-settles n is w enough =
      let ks = copies n waiting in
      let size = length-copies n waiting in
      let (same, extends, ended) =
        run-ends (advance db render send ev p) left Extends Sound rules 3 ks is w
          (All-copies (Sound w) n waiting tt) (All-copies (λ k. left k ≤ 3) n waiting (omega arith))
          (λ j lt. enough j (omega (arith, size))) in
      let out = run (advance db render send ev p) is (ks, w) in
      (
        same ∙ size,
        All-Settled out.0 out.1 ended,
        extends.others,
        run-handle_user_created db render send ev p,
      )
