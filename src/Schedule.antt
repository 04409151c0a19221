-- ===== src/Schedule.antt =====
-- Workers that take turns on a shared world: a schedule is the list of the places whose turn it is.
-- The services' concurrent requests and deliveries are such workers.
use go_microservice.Prelude.{
  ℕ, zero, suc, ◌+◌, ◌-◌, ◌≤◌, ◌<◌, ◌≡◌, refl, ap, ◌∙◌, List, [], ◌∷◌, if◌then◌else◌, nat_eq, arith,
  length, All,
}

abbrev pub turns : ℕ → List ℕ → ℕ
turns i [] = 0
turns i (j ∷ js) = (if nat_eq i j then 1 else 0) + turns i js

-- n workers in one state
abbrev pub copies : {K : Type 0} → ℕ → K → List K
copies zero k = []
copies (suc n) k = k ∷ copies n k

module _ {K : Type 0} (score : K → ℕ) where
  abbrev pub total : List K → ℕ
  total [] = 0
  total (k ∷ ks) = score k + total ks

  abbrev score_at : ℕ → List K → ℕ
  score_at i [] = 0
  score_at zero (k ∷ ks) = score k
  score_at (suc i) (k ∷ ks) = score_at i ks

  score_at-le : (b j : ℕ) (ks : List K) → All (λ k. score k ≤ b) ks → score_at j ks ≤ b
  score_at-le b j [] all = omega arith
  score_at-le b zero (k ∷ ks) (h, all) = h
  score_at-le b (suc j) (k ∷ ks) (h, all) = score_at-le b j ks all

pub length-copies : {K : Type 0} (n : ℕ) (k : K) → length (copies n k) ≡ n
length-copies zero k = refl
length-copies (suc n) k = ap suc (length-copies n k)

pub All-copies : {K : Type 0} (P : K → Type 0) (n : ℕ) (k : K) → P k → All P (copies n k)
All-copies P zero k h = tt
All-copies P (suc n) k h = (h, All-copies P n k h)

module _ {K W : Type 0} (advance : K → W → K × W) where
  -- a turn of the i-th worker
  unfoldable pub turn : ℕ → List K × W → List K × W
  turn i ([], w) = ([], w)
  turn zero (k ∷ ks, w) = let (k', w') = advance k w in (k' ∷ ks, w')
  turn (suc i) (k ∷ ks, w) = let (ks', w') = turn i (ks, w) in (k ∷ ks', w')

  unfoldable pub run : List ℕ → List K × W → List K × W
  unfolding turn
  run [] s = s
  run (i ∷ is) s = run is (turn i s)

  -- What every turn keeps: a relation of worlds, what a worker knows, and that it gets nearer to
  -- its end, where `left` is the number of turns that it still needs.
  pub record Rules (left : K → ℕ) (Extends : W → W → Type 0) (Sound : W → K → Type 0) : Type 0 where
    pub same : (w : W) → Extends w w
    pub compose : (a b c : W) → Extends a b → Extends b c → Extends a c
    pub keep : (k : K) (w w' : W) → Extends w w' → Sound w k → Sound w' k
    pub extends : (k : K) (w : W) → Extends w (advance k w).1
    pub sound : (k : K) (w : W) → Sound w k → Sound (advance k w).1 (advance k w).0
    pub nearer : (k : K) (w : W) → left (advance k w).0 ≤ left k - 1

  module _ (left : K → ℕ) (Extends : W → W → Type 0) (Sound : W → K → Type 0)
      (rules : Rules left Extends Sound) where
    record Progress (ks : List K) (w : W) (taken : ℕ → ℕ) (o : List K × W) : Type 0 where
      extends : Extends w o.1
      sound : All (Sound w) ks → All (Sound o.1) o.0
      nearer : (j : ℕ) → score_at left j o.0 ≤ score_at left j ks - taken j
      kept : length o.0 ≡ length ks

    All-Sound : (ks : List K) (w w' : W) → Extends w w' → All (Sound w) ks → All (Sound w') ks
    All-Sound [] w w' h all = tt
    All-Sound (k ∷ ks) w w' h (s, all) = (rules.keep k w w' h s, All-Sound ks w w' h all)

    abbrev hit : ℕ → ℕ → ℕ
    hit i j = if nat_eq j i then 1 else 0

    nearer-first :
        (k' k : K) (ks : List K)
        → left k' ≤ left k - 1
        → (j : ℕ) → score_at left j (k' ∷ ks) ≤ score_at left j (k ∷ ks) - hit 0 j
    nearer-first k' k ks h zero = ground arith
    nearer-first k' k ks h (suc j) = ground arith

    nearer-rest :
        (k : K) (ks' ks : List K) (i : ℕ)
        → ((j : ℕ) → score_at left j ks' ≤ score_at left j ks - hit i j)
        → (j : ℕ) → score_at left j (k ∷ ks') ≤ score_at left j (k ∷ ks) - hit (suc i) j
    nearer-rest k ks' ks i h zero = ground arith
    nearer-rest k ks' ks i h (suc j) = ground (arith, h j)

    turn-Progress : (i : ℕ) (ks : List K) (w : W) → Progress ks w (hit i) (turn i (ks, w))
    unfolding turn
    turn-Progress i [] w = record {
      extends = rules.same w;
      sound = λ s. s;
      nearer = λ j. omega arith;
      kept = refl;
    }
    turn-Progress zero (k ∷ ks) w = record {
      extends = rules.extends k w;
      sound = λ s. (rules.sound k w s.0, All-Sound ks w _ (rules.extends k w) s.1);
      nearer = nearer-first _ k ks (rules.nearer k w);
      kept = refl;
    }
    turn-Progress (suc i) (k ∷ ks) w =
        let t = turn-Progress i ks w in
        record {
          extends = t.extends;
          sound = λ s. (rules.keep k w _ t.extends s.0, t.sound s.1);
          nearer = nearer-rest k _ ks i t.nearer;
          kept = ap suc t.kept;
        }

    run-Progress :
        (is : List ℕ) (ks : List K) (w : W) → Progress ks w (λ j. turns j is) (run is (ks, w))
    unfolding run
    run-Progress [] ks w = record {
      extends = rules.same w;
      sound = λ s. s;
      nearer = λ j. omega arith;
      kept = refl;
    }
    run-Progress (i ∷ is) ks w =
        let t = turn-Progress i ks w in
        let mid = turn i (ks, w) in
        let r = run-Progress is mid.0 mid.1 in
        record {
          extends = rules.compose w mid.1 _ t.extends r.extends;
          sound = λ s. r.sound (t.sound s);
          nearer = λ j. omega (arith, t.nearer j, r.nearer j);
          kept = r.kept ∙ t.kept;
        }

    -- a worker that needs no more turns, and what it knows
    abbrev pub Ended : W → K → Type 0
    Ended w k = (left k ≡ 0) × Sound w k

    All-Ended :
        (ks : List K) (w : W)
        → ((j : ℕ) → j < length ks → score_at left j ks ≡ 0)
        → All (Sound w) ks
        → All (Ended w) ks
    All-Ended [] w h all = tt
    All-Ended (k ∷ ks) w h (s, all) =
        ((h 0 (omega arith), s), All-Ended ks w (λ j lt. h (suc j) (omega arith)) all)

    -- Workers that need at most `b` turns have all ended, once each has had `b`.
    pub run-ends :
        (b : ℕ) (ks : List K) (is : List ℕ) (w : W)
        → All (Sound w) ks
        → All (λ k. left k ≤ b) ks
        → ((j : ℕ) → j < length ks → b ≤ turns j is)
        → let out = run is (ks, w) in
          (length out.0 ≡ length ks) × Extends w out.1 × All (Ended out.1) out.0
    run-ends b ks is w sound short enough =
        let r = run-Progress is ks w in
        let out = run is (ks, w) in
        (
          r.kept,
          r.extends,
          All-Ended out.0 out.1
              (λ j lt. omega (
                arith,
                r.nearer j,
                score_at-le left b j ks short,
                enough j (omega (arith, r.kept)),
              ))
              (r.sound sound),
        )

  -- What each turn takes from the workers it gives to the world, and back.
  module _ (score : K → ℕ) (there : W → ℕ)
      (balance : (k : K) (w : W)
        → score (advance k w).0 + there w ≡ score k + there (advance k w).1) where
    turn-balance :
        (i : ℕ) (ks : List K) (w : W)
        → total score (turn i (ks, w)).0 + there w ≡ total score ks + there (turn i (ks, w)).1
    unfolding turn
    turn-balance i [] w = refl
    turn-balance zero (k ∷ ks) w = omega (arith, balance k w)
    turn-balance (suc i) (k ∷ ks) w = omega (arith, turn-balance i ks w)

    pub run-balance :
        (is : List ℕ) (ks : List K) (w : W)
        → total score (run is (ks, w)).0 + there w ≡ total score ks + there (run is (ks, w)).1
    unfolding run
    run-balance [] ks w = refl
    run-balance (i ∷ is) ks w =
        let mid = turn i (ks, w) in omega (arith, turn-balance i ks w, run-balance is mid.0 mid.1)
