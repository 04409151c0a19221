-- ===== src/Tests/Once.antt =====
-- One event delivered three times, over a table that counts the mails.
use go_microservice.Prelude.{
  ℕ, zero, suc, List, String, [], ◌∷◌, Bool, true, false, ◌≡◌, refl, ◌==◌, if◌then◌else◌,
}
use go_microservice.Prelude.Int.{pos}
use go_microservice.Apperror.{find_kind, from, as_app, foreign, pg_error, plain}
use go_microservice.Effect.{Result, ok, err, Prog}
use go_microservice.Notification.{
  Table, Message, Notification, UserCreatedPayload, handle_user_created, notify, create,
  exists_by_event_id, record_failure,
}
use go_microservice.Notification.Once.{Call, perform, deliver, exhaust, performed}

-- the rows' event ids, and how many mails went out, in time and late
pub record Log : Type 0 where
  pub rows : String → Bool
  pub mails : ℕ
  pub late : ℕ

abbrev recorded : Log → String → Bool
recorded w ev = w.rows ev

abbrev inserted : Bool → Notification → Prog Log Notification
inserted true n w = (err (foreign (pg_error "23505") "duplicate key"), w)
inserted false n w = (ok n, record w { rows = λ ev. if n.event_id == ev then true else w.rows ev })

abbrev db : Table Log
db = record {
  insert = λ n w. inserted (w.rows n.event_id) n w;
  count_event = λ ev w. (ok (pos (if w.rows ev then 1 else 0)), w);
  first = λ id w. (err (foreign plain "no rows"), w);
  count = λ q w. (ok (pos 0), w);
  find = λ q o l w. (ok [], w);
}

-- The server takes the second mail and then loses the connection, so that Quit fails.
abbrev sent_at : ℕ → Prog Log (Unit {0})
sent_at zero w = (err (foreign plain "EOF"), record w { mails = suc w.mails; late = suc w.late })
sent_at (suc n) w = (ok tt, record w { mails = suc w.mails })

abbrev sends : Message → Prog Log (Unit {0})
sends m w = sent_at w.late w

abbrev render : String → Result String
render name = ok name

abbrev payload : UserCreatedPayload
payload = record { id = pos 7; name = "Ada"; email = "ada@x.org" }

abbrev start : Log
start = record { rows = λ ev. false; mails = 5; late = 0 }

-- the first Send fails late, and the retry sends a second mail
abbrev calls : List Call
calls = deliver payload ∷ deliver payload ∷ exhaust "user.created" "ada@x.org" "down" ∷ []

abbrev out : Log
out = performed db render sends "e2" calls start

mailed_twice : (out.mails ≡ 7) × (out.late ≡ 1)
unfolding performed perform handle_user_created notify create exists_by_event_id record_failure
    find_kind from as_app
mailed_twice = (refl, refl)
