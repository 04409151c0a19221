-- ===== src/Auth/Registrations/Unique.antt =====
-- services/auth: every interleaving of Register requests for one email.
use go_microservice.Prelude.{
  ℕ, suc, ◌+◌, ◌-◌, ◌≤◌, ◌<◌, String, Bool, true, false, ◌≡◌, refl, ap, ◌∙◌, ◌⊎◌, inl, inr, List,
  Option, none, some, [], ◌∷◌, ◌==◌, eq_refl, if◌then◌else◌, arith, length, All, Bool-cases,
}
use go_microservice.Apperror.{Error, app, internal, invalid_input, error_text}
use go_microservice.Effect.{Result, ok, err}
use go_microservice.Schedule.{turns, run, Rules, Ended, run-ends, run-balance, total}
use go_microservice.Auth.{User, Service}
use go_microservice.Auth.Account.{taken}
use go_microservice.Auth.Account.Directory.{DirectoryLaws}
use go_microservice.Auth.Registrations.{
  Worker, asking, hashing, creating, finished, was_hashed, advance, Alone, run-register,
}

abbrev pub left : Worker → ℕ
left (asking name password) = 3
left (hashing name password) = 2
left (creating name h) = 1
left (finished r) = 0

abbrev pub succeeded : Worker → ℕ
succeeded (finished (ok u)) = 1
succeeded _ = 0

-- names and passwords, all with one email
abbrev pub requests : List (String × String) → List Worker
requests [] = []
requests ((name, password) ∷ rs) = asking name password ∷ requests rs

length-requests : (rs : List (String × String)) → length (requests rs) ≡ length rs
length-requests [] = refl
length-requests ((name, password) ∷ rs) = ap suc (length-requests rs)

requests-short : (rs : List (String × String)) → All (λ k. left k ≤ 3) (requests rs)
requests-short [] = tt
requests-short ((name, password) ∷ rs) = (omega arith, requests-short rs)

requests-new : (rs : List (String × String)) → total succeeded (requests rs) ≡ 0
requests-new [] = refl
requests-new ((name, password) ∷ rs) = omega (arith, requests-new rs)

module _ {W : Type 0} (s : Service W) (has : W → String → Bool) (email : String)
    (refuses : (name hashed : String) → Option Error) (law : DirectoryLaws s.repo has email refuses)
    (hash_keeps : (p : String) (w : W) (other : String)
      → has (s.hash p w).1 other ≡ has w other) where
  abbrev there : W → ℕ
  there w = if has w email then 1 else 0

  -- a refusal is a conflict with a user that is there, the validation's of a user to create, or the
  -- hash's error
  abbrev pub Refused : W → Error → Type 0
  Refused w e =
      ((e ≡ taken) × (has w email ≡ true))
      ⊎ ((name hashed : String) × (v : Error) × (refuses name hashed ≡ some v)
          × (e ≡ app (invalid_input (error_text v))))
      ⊎ ((c : Error) × (e ≡ app (internal c)))

  abbrev Sound : W → Worker → Type 0
  Sound w (finished (ok u)) = has w email ≡ true
  Sound w (finished (err e)) = Refused w e
  Sound w k = Unit {0}

  record Extends (w w' : W) : Type 0 where
    stays : has w email ≡ true → has w' email ≡ true
    others : (j : String) → (email == j) ≡ false → has w' j ≡ has w j

  Extends-trans : (a b c : W) → Extends a b → Extends b c → Extends a c
  Extends-trans a b c h k = record {
    stays = λ e. k.stays (h.stays e);
    others = λ j e. k.others j e ∙ h.others j e;
  }

  Extends-refl : (w : W) → Extends w w
  Extends-refl w = record { stays = λ e. e; others = λ j e. refl }

  Sound-Extends : (k : Worker) (w w' : W) → Extends w w' → Sound w k → Sound w' k
  Sound-Extends (finished (ok u)) w w' h s = h.stays s
  Sound-Extends (finished (err e)) w w' h (inl (x, y)) = inl (x, h.stays y)
  Sound-Extends (finished (err e)) w w' h (inr x) = inr x
  Sound-Extends (asking n p) w w' h s = tt
  Sound-Extends (hashing n p) w w' h s = tt
  Sound-Extends (creating n p) w w' h s = tt

  record Good (k : Worker) (w : W) (o : Worker × W) : Type 0 where
    extends : Extends w o.1
    sound : Sound w k → Sound o.1 o.0
    nearer : left o.0 ≤ left k - 1
    balance : succeeded o.0 + there w ≡ succeeded k + there o.1

  was_hashed-Good :
      (name password : String) (w : W) (o : Result String × W)
      → ((other : String) → has o.1 other ≡ has w other)
      → Good (hashing name password) w (was_hashed s email name o)
  unfolding was_hashed
  was_hashed-Good name password w (ok h, w') kept = record {
    extends = record { stays = λ e. kept email ∙ e; others = λ j e. kept j };
    sound = λ x. tt;
    nearer = omega arith;
    balance = rw (kept email) refl;
  }
  was_hashed-Good name password w (err e, w') kept = record {
    extends = record { stays = λ h. kept email ∙ h; others = λ j h. kept j };
    sound = λ x. inr (inr (e, refl));
    nearer = omega arith;
    balance = rw (kept email) refl;
  }

  creating-Good :
      (name h : String) (w : W) (v : Option Error)
      → refuses name h ≡ v
      → Good (creating name h) w (advance s email (creating name h) w)
  unfolding advance
  creating-Good name h w (some v) bad = rw (law.create_refused name h v w bad) (record {
    extends = Extends-refl w;
    sound = λ x. inr (inl (name, h, v, bad, refl));
    nearer = omega arith;
    balance = refl;
  })
  creating-Good name h w none fine = elim (Bool-cases (has w email)) [
    | inl old ↦ rw (law.create_again name h w fine old) (record {
      extends = Extends-refl w;
      sound = λ x. inl (refl, old);
      nearer = omega arith;
      balance = refl;
    })
    | inr new ↦
        let (u, w', made, rows) = law.create_new name h w fine new in
        let now : has w' email ≡ true = rows email ∙ rw eq_refl refl in
        rw made (record {
          extends = record { stays = λ e. now; others = λ j e. rows j ∙ rw e refl };
          sound = λ x. now;
          nearer = omega arith;
          balance = rw (new, now) refl;
        })
  ]

  advance-Good : (k : Worker) (w : W) → Good k w (advance s email k w)
  unfolding advance
  advance-Good (asking name password) w = rw (law.exists w) (elim (Bool-cases (has w email)) [
    | inl old ↦ rw old (record {
      extends = Extends-refl w;
      sound = λ x. inl (refl, old);
      nearer = omega arith;
      balance = refl;
    })
    | inr new ↦
        rw new (record {
          extends = Extends-refl w;
          sound = λ x. tt;
          nearer = omega arith;
          balance = refl;
        })
  ])
  advance-Good (hashing name password) w =
      was_hashed-Good name password w (s.hash password w) (hash_keeps password w)
  advance-Good (creating name h) w = creating-Good name h w (refuses name h) refl
  advance-Good (finished r) w = record {
    extends = Extends-refl w;
    sound = λ x. x;
    nearer = omega arith;
    balance = refl;
  }

  rules : Rules (advance s email) left Extends Sound
  rules = record {
    same = Extends-refl;
    compose = Extends-trans;
    keep = Sound-Extends;
    extends = λ k w. (advance-Good k w).extends;
    sound = λ k w. (advance-Good k w).sound;
    nearer = λ k w. (advance-Good k w).nearer;
  }

  -- the answer to a request
  abbrev pub Answered : W → Worker → Type 0
  Answered w k =
      ((u : User) × (k ≡ finished (ok u)) × (has w email ≡ true))
      ⊎ ((e : Error) × (k ≡ finished (err e)) × Refused w e)

  Answered-Sound : (w : W) (k : Worker) → left k ≡ 0 → Sound w k → Answered w k
  Answered-Sound w (finished (ok u)) h x = inl (u, refl, x)
  Answered-Sound w (finished (err e)) h x = inr (e, refl, x)
  Answered-Sound w (asking n p) h x = absurd (omega arith)
  Answered-Sound w (hashing n p) h x = absurd (omega arith)
  Answered-Sound w (creating n p) h x = absurd (omega arith)

  All-Answered :
      (ks : List Worker) (w : W)
      → All (Ended (advance s email) left Extends Sound rules w) ks
      → All (Answered w) ks
  All-Answered [] w all = tt
  All-Answered (k ∷ ks) w (e, all) = (Answered-Sound w k e.0 e.1, All-Answered ks w all)

  requests-Sound : (rs : List (String × String)) (w : W) → All (Sound w) (requests rs)
  requests-Sound [] w = tt
  requests-Sound ((name, password) ∷ rs) w = (tt, requests-Sound rs w)

  -- Every interleaving answers each request, and lets one of them succeed at most.
  pub run-registers :
      (rs : List (String × String)) (is : List ℕ) (w : W)
      → has w email ≡ false
      → ((j : ℕ) → j < length rs → 3 ≤ turns j is)
      → let out = run (advance s email) is (requests rs, w) in
        (length out.0 ≡ length rs)
        × All (Answered out.1) out.0
        × (total succeeded out.0 ≡ (if has out.1 email then 1 else 0))
        × ((j : String) → (email == j) ≡ false → has out.1 j ≡ has w j)
        × ((name password : String) (w' : W) → Alone s email name password w')
  run-registers rs is w free enough =
      let ks = requests rs in
      let size = length-requests rs in
      let out = run (advance s email) is (ks, w) in
      let (same, extends, ended) =
        run-ends (advance s email) left Extends Sound rules 3 ks is w (requests-Sound rs w)
          (requests-short rs) (λ j lt. enough j (omega (arith, size))) in
      let before : there w ≡ 0 = rw free refl in
      (
        same ∙ size,
        All-Answered out.0 out.1 ended,
        omega (
          arith,
          run-balance (advance s email) succeeded there (λ k v. (advance-Good k v).balance) is ks w,
          requests-new rs,
          before,
        ),
        extends.others,
        run-register s email,
      )
