-- ===== src/Tests/Concurrent.antt =====
-- Two deliveries of one event whose counts, mails and inserts alternate.
use go_microservice.Prelude.{
  ℕ, zero, suc, ◌≤◌, ◌<◌, String, false, ◌≡◌, refl, List, [], ◌∷◌, ◌==◌, length, All, arith,
}
use go_microservice.Schedule.{turns, copies, run}
use go_microservice.Notification.Concurrent.{Worker, waiting, advance, Alone}
use go_microservice.Notification.Concurrent.Settled.{Settled, run-settles}
use go_microservice.Tests.Notification.{Rows, recorded, db, db_laws, rows, render, sends, payload}

abbrev alternating : List ℕ
alternating = 0 ∷ 1 ∷ 0 ∷ 1 ∷ 0 ∷ 1 ∷ []

enough : (j : ℕ) → j < 2 → 3 ≤ turns j alternating
enough zero h = omega arith
enough (suc zero) h = omega arith
enough (suc (suc j)) h = absurd (omega arith)

abbrev out : List Worker × Rows
out = run (advance db render sends "e2" payload) alternating (copies 2 waiting, rows)

run-settles_example :
    (length out.0 ≡ 2)
    × All (Settled db recorded db_laws render sends (λ m w j. refl) "e2" payload out.1) out.0
    × ((j : String) → ("e2" == j) ≡ false → recorded out.1 j ≡ recorded rows j)
    × ((w' : Rows) → Alone db render sends "e2" payload w')
run-settles_example =
    run-settles db recorded db_laws render sends (λ m w j. refl) "e2" payload 2 alternating rows
      enough
