-- ===== src/Notification/Idempotence.antt =====
-- services/notification: what HandleUserCreated and RecordFailure do to the audit table.
use go_microservice.Prelude.{
  ℕ, suc, String, Bool, true, false, ◌≡◌, refl, ◌∙◌, ap, sym, ◌==◌, eq_iff, arith, if◌then◌else◌,
  Bool-cases, inl, inr,
}
use go_microservice.Prelude.Int.{pos}
use go_microservice.Apperror.{Error, foreign, pg_error, wrap, from, as_app, find_kind}
use go_microservice.Effect.{Result, ok, err, Prog, rescue_of_ok, rescue_of_err}
use go_microservice.Notification.{
  Notification, Table, Message, UserCreatedPayload, new_row, user_created, status_sent,
  status_failed, create, exists_by_event_id, conflict_is_ok, record_failure, handle_user_created,
  notify,
}

-- The database while it answers: `recorded w ev` tells if there is a row with event_id `ev`; the
-- UNIQUE constraint makes a second insert fail with SQLSTATE 23505.
pub record TableLaws {W : Type 0} (db : Table W) (recorded : W → String → Bool) : Type 0 where
  pub count_none :
      (ev : String) (w : W) → recorded w ev ≡ false → db.count_event ev w ≡ (ok (pos 0), w)
  pub count_some :
      (ev : String) (w : W)
      → recorded w ev ≡ true
      → (n : ℕ) × (db.count_event ev w ≡ (ok (pos (suc n)), w))
  pub insert_new :
      (n : Notification) (w : W)
      → recorded w n.event_id ≡ false
      → (m : Notification) × ((db.insert n w).0 ≡ ok m)
        × ((ev : String)
            → recorded (db.insert n w).1 ev ≡ (if n.event_id == ev then true else recorded w ev))
  pub insert_again :
      (n : Notification) (w : W)
      → recorded w n.event_id ≡ true
      → (text : String) × (db.insert n w ≡ (err (foreign (pg_error "23505") text), w))

module _ {W : Type 0} (db : Table W) (recorded : W → String → Bool)
    (law : TableLaws db recorded) where
  pub exists-recorded : (ev : String) (w : W) → exists_by_event_id db ev w ≡ (ok (recorded w ev), w)
  unfolding exists_by_event_id
  exists-recorded ev w = elim (Bool-cases (recorded w ev)) [
    | inl old ↦ let (n, e) = law.count_some ev w old in rw (e, old) (ground arith)
    | inr new ↦ rw (law.count_none ev w new, new)
  ]

  abbrev pub create_row : Notification → W → Result (Unit {0}) × W
  create_row n w = let (r, w') = create db n w in conflict_is_ok db r w'

  pub create_row-new :
      (n : Notification) (w : W)
      → recorded w n.event_id ≡ false
      → create_row n w ≡ (ok tt, (db.insert n w).1)
  unfolding create conflict_is_ok
  create_row-new n w e = let (m, made, _) = law.insert_new n w e in ground (arith, made)

  pub create_row-again :
      (n : Notification) (w : W) → recorded w n.event_id ≡ true → create_row n w ≡ (ok tt, w)
  unfolding create conflict_is_ok from as_app find_kind
  create_row-again n w e = let (text, e') = law.insert_again n w e in rw e'

  -- An event that has a row is handled by doing nothing: no mail, no row, no error.
  pub handle_recorded :
      (render : String → Result String) (send : Message → Prog W (Unit {0})) (ev : String)
      (p : UserCreatedPayload) (w : W)
      → recorded w ev ≡ true
      → handle_user_created db render send ev p w ≡ (ok tt, w)
  unfolding handle_user_created
  handle_recorded render send ev p w e = rw (exists-recorded, e)

  recorded_twice :
      (old : String) (w : W) (ev : String)
      → recorded w old ≡ true
      → recorded w ev ≡ (if old == ev then true else recorded w ev)
  recorded_twice old w ev e = elim (Bool-cases (old == ev)) [
    | inl same ↦ rw same (ap (recorded w) (sym ((eq_iff old ev).0 same)) ∙ e)
    | inr other ↦ rw other
  ]

  -- after the row is written, whether it is new or old
  pub recorded-create_row :
      (n : Notification) (w : W)
      → ((create_row n w).0 ≡ ok tt)
        × ((ev : String)
            → recorded (create_row n w).1 ev ≡ (if n.event_id == ev then true else recorded w ev))
  recorded-create_row n w = elim (Bool-cases (recorded w n.event_id)) [
    | inl old ↦ rw (create_row-again n w old) (refl, λ ev. recorded_twice n.event_id w ev old)
    | inr new ↦
        let (m, made, rows) = law.insert_new n w new in rw (create_row-new n w new) (refl, rows)
  ]

  -- RecordFailure succeeds and leaves a row for its event; the other events' rows stay.
  pub record_failure_lem :
      (ev type recipient reason : String) (w : W)
      → ((record_failure db ev type recipient reason w).0 ≡ ok tt)
        × ((j : String)
            → recorded (record_failure db ev type recipient reason w).1 j
              ≡ (if ev == j then true else recorded w j))
  unfolding record_failure
  record_failure_lem ev type recipient reason w =
      recorded-create_row (new_row ev type recipient status_failed reason) w

  module _ (render : String → Result String) (send : Message → Prog W (Unit {0})) where
    -- the mail that HandleUserCreated sends
    abbrev pub welcome : UserCreatedPayload → String → Message
    welcome p body = record { to = p.email; subject = "Welcome!"; body = body }

    -- If the mail is refused, HandleUserCreated returns the sender's error, wrapped, and writes no
    -- row.
    pub handle_unsent :
        (ev : String) (p : UserCreatedPayload) (w : W) (body : String) (e : Error)
        → recorded w ev ≡ false
        → render p.name ≡ ok body
        → (send (welcome p body) w).0 ≡ err e
        → handle_user_created db render send ev p w
          ≡ (err (wrap "sending welcome email" e), (send (welcome p body) w).1)
    unfolding handle_user_created notify
    handle_unsent ev p w body e new text refused =
        rw (exists-recorded, new) (rw text (rescue_of_err (send (welcome p body) w) _ _ e refused))

    pub notify_sent :
        (ev : String) (p : UserCreatedPayload) (w : W) (body : String)
        → render p.name ≡ ok body
        → (send (welcome p body) w).0 ≡ ok tt
        → notify db render send ev p w
          ≡ create_row (new_row ev user_created p.email status_sent "") (send (welcome p body) w).1
    unfolding notify
    notify_sent ev p w body text sent = rw text (rescue_of_ok (send (welcome p body) w) _ _ tt sent)
