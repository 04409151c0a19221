-- ===== src/Notification/Once.antt =====
-- services/notification: the mails of one event, however often it is delivered.
use go_microservice.Prelude.{ℕ, suc, ◌+◌, String, Bool, true, List, [], ◌∷◌, ◌≡◌, ◌⊎◌}
use go_microservice.Apperror.{Error}
use go_microservice.Effect.{Result, ok, err, Prog}
use go_microservice.Notification.{
  Notification, Table, Message, UserCreatedPayload, record_failure, handle_user_created,
}
use go_microservice.Notification.Idempotence.{TableLaws}

-- What the consumer calls for one event: its handler at a delivery, and the hook when the retries
-- are exhausted.
pub data Call : Type 0 where
  deliver : UserCreatedPayload → Call
  exhaust : (type recipient reason : String) → Call

module _ {W : Type 0} (db : Table W) (render : String → Result String)
    (send : Message → Prog W (Unit {0})) (ev : String) where
  unfoldable pub perform : Call → W → W
  perform (deliver p) w = (handle_user_created db render send ev p w).1
  perform (exhaust type recipient reason) w = (record_failure db ev type recipient reason w).1

  unfoldable pub performed : List Call → W → W
  unfolding perform
  performed [] w = w
  performed (c ∷ cs) w = performed cs (perform c w)

-- `mails` counts the mails that the mail server accepted, and `late` those among them whose Send
-- failed all the same, as Send of pkg/mailer does when Quit fails; nothing else changes them.
pub record CountsMails {W : Type 0} (db : Table W) (send : Message → Prog W (Unit {0}))
    (mails late : W → ℕ) : Type 0 where
  pub accepted :
      (m : Message) (w : W)
      → (send m w).0 ≡ ok tt
      → (mails (send m w).1 ≡ suc (mails w)) × (late (send m w).1 ≡ late w)
  pub failed :
      (m : Message) (w : W) (e : Error)
      → (send m w).0 ≡ err e
      → ((mails (send m w).1 ≡ mails w) × (late (send m w).1 ≡ late w))
        ⊎ ((mails (send m w).1 ≡ suc (mails w)) × (late (send m w).1 ≡ suc (late w)))
  pub inserted :
      (n : Notification) (w : W)
      → (mails (db.insert n w).1 ≡ mails w) × (late (db.insert n w).1 ≡ late w)

module _ {W : Type 0} (db : Table W) (recorded : W → String → Bool) (law : TableLaws db recorded)
    (render : String → Result String) (send : Message → Prog W (Unit {0})) (mails late : W → ℕ)
    (counts : CountsMails db send mails late) (ev : String) where
  -- no mail was accepted on the way but late ones, or one more
  abbrev Balanced : W → W → Type 0
  Balanced w w' = mails w' + late w ≡ mails w + late w'

  abbrev OneMore : W → W → Type 0
  OneMore w w' = mails w' + late w ≡ suc (mails w + late w')

  AtMostOne : W → W → Type 0
  AtMostOne start w = Balanced start w ⊎ (OneMore start w × (recorded w ev ≡ true))
