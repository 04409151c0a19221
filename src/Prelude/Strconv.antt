-- ===== src/Prelude/Strconv.antt =====
-- strconv.Atoi and strconv.Itoa for the 64-bit `int`.
use Prim.Native.Char.{Char, code}
use Prim.Native.String.{String, [], ◌∷◌}
use Prim.Native.Nat.{ℕ, zero, suc, ◌+◌, ◌-◌, ◌*◌, ◌/◌, ◌%◌, ◌<◌}
use mathlib.Core.Path.{◌≡◌, refl, ap, ◌∙◌}
use mathlib.Core.Logic.{inl, inr}
use mathlib.Core.Bool.{◌&&◌}
use mathlib.Core.Option.{Option, none, some}
use native.Mathlib.Omega.{arith}
use go_microservice.Prelude.Tests.{Bool-cases, nat_eq, leb, ltb, if◌then◌else◌}
use go_microservice.Prelude.Int.{ℤ, pos, negsuc, sub_ℕ, word_mod, word_half, IsInt64}

pub data NumError : Type 0 where
  err_syntax err_range : NumError

-- A run of decimal digits, read from the left: the first character that is no digit, or the first
-- place where the number passes an unsigned word, ends it.
pub data Digits : Type 0 where
  bad too_big : Digits
  number : ℕ → Digits

digits : ℕ → String → Digits
digits n [] = number n
digits n (c ∷ s) =
    let n' = n * 10 + (code c - 48) in
    let rest = digits n' s in
    if leb 48 (code c) && leb (code c) 57 then (if ltb n' word_mod then rest else too_big) else bad

unsigned : String → Digits
unfolding digits
unsigned [] = bad
unsigned (c ∷ s) = digits 0 (c ∷ s)

-- Atoi returns a value beside its error: 0 if the text is no number, and the nearest int64 if the
-- number does not fit.
positive : Digits → ℤ × Option NumError
positive bad = (pos 0, some err_syntax)
positive too_big = (pos (word_half - 1), some err_range)
positive (number n) =
    if ltb n word_half then (pos n, none) else (pos (word_half - 1), some err_range)

negative : Digits → ℤ × Option NumError
negative bad = (pos 0, some err_syntax)
negative too_big = (negsuc (word_half - 1), some err_range)
negative (number n) =
    if leb n word_half then (sub_ℕ 0 n, none) else (negsuc (word_half - 1), some err_range)

unfoldable pub atoi : String → ℤ × Option NumError
unfolding unsigned positive negative
atoi [] = (pos 0, some err_syntax)
atoi (c ∷ s) =
    if nat_eq (code c) b'-'
    then negative (unsigned s)
    else if nat_eq (code c) b'+'
    then positive (unsigned s)
    else positive (unsigned (c ∷ s))

digit : ℕ → Char
digit zero = "0"
digit (suc zero) = "1"
digit (suc (suc zero)) = "2"
digit (suc (suc (suc zero))) = "3"
digit (suc (suc (suc (suc zero)))) = "4"
digit (suc (suc (suc (suc (suc zero))))) = "5"
digit (suc (suc (suc (suc (suc (suc zero)))))) = "6"
digit (suc (suc (suc (suc (suc (suc (suc zero))))))) = "7"
digit (suc (suc (suc (suc (suc (suc (suc (suc zero)))))))) = "8"
digit (suc (suc (suc (suc (suc (suc (suc (suc (suc n))))))))) = "9"

-- One round takes the last digit off, so `suc n` rounds are more than enough for `n`.
decimal : ℕ → ℕ → String → String
decimal zero n acc = acc
decimal (suc f) n acc =
    let rest = decimal f (n / 10) (digit (n % 10) ∷ acc) in if ltb n 10 then digit n ∷ acc else rest

unfoldable pub itoa : ℤ → String
unfolding decimal digit
itoa (pos n) = decimal (suc n) n ""
itoa (negsuc n) = "-" ∷ decimal (suc (suc n)) (suc n) ""

code-digit : (d : ℕ) → d < 10 → code (digit d) ≡ 48 + d
unfolding digit
code-digit zero h = refl
code-digit (suc zero) h = refl
code-digit (suc (suc zero)) h = refl
code-digit (suc (suc (suc zero))) h = refl
code-digit (suc (suc (suc (suc zero)))) h = refl
code-digit (suc (suc (suc (suc (suc zero))))) h = refl
code-digit (suc (suc (suc (suc (suc (suc zero)))))) h = refl
code-digit (suc (suc (suc (suc (suc (suc (suc zero))))))) h = refl
code-digit (suc (suc (suc (suc (suc (suc (suc (suc zero)))))))) h = refl
code-digit (suc (suc (suc (suc (suc (suc (suc (suc (suc n))))))))) h = omega arith

digits-digit :
    (m d : ℕ) (s : String)
    → d < 10
    → m * 10 + d < word_mod
    → digits m (digit d ∷ s) ≡ digits (m * 10 + d) s
unfolding digits
digits-digit m d s h k =
    let n' = m * 10 + (code (digit d) - 48) in
    let same : n' ≡ m * 10 + d = omega (arith, code-digit d h) in
    rw same (ground (arith, code-digit d h))

digits-decimal :
    (f n : ℕ) (acc : String) → n < f → n < word_mod → digits 0 (decimal f n acc) ≡ digits n acc
unfolding decimal
digits-decimal zero n acc h k = absurd (omega arith)
digits-decimal (suc f) n acc h k = elim (Bool-cases (ltb n 10)) [
  | inl last ↦
      rw last
        (digits-digit 0 n acc (ground arith) (omega arith) ∙ ap (λ m. digits m acc) (omega arith))
  | inr more ↦ rw more (
      digits-decimal f (n / 10) (digit (n % 10) ∷ acc) (ground arith) (ground arith)
      ∙ digits-digit (n / 10) (n % 10) acc (omega arith) (omega arith)
      ∙ ap (λ m. digits m acc) (omega arith))
]

-- A printed number begins with a digit.
abbrev BeginsWithDigit : String → Type 0
BeginsWithDigit t = (e : ℕ) × (s : String) × (e < 10) × (t ≡ digit e ∷ s)

decimal-digit-BeginsWithDigit :
    (f n d : ℕ) (acc : String) → d < 10 → BeginsWithDigit (decimal f n (digit d ∷ acc))
unfolding decimal
decimal-digit-BeginsWithDigit zero n d acc h = (d, acc, h, refl)
decimal-digit-BeginsWithDigit (suc f) n d acc h = elim (Bool-cases (ltb n 10)) [
  | inl last ↦ rw last (n, digit d ∷ acc, ground arith, refl)
  | inr more ↦
      rw more (decimal-digit-BeginsWithDigit f (n / 10) (n % 10) (digit d ∷ acc) (omega arith))
]

decimal-BeginsWithDigit : (n : ℕ) → BeginsWithDigit (decimal (suc n) n "")
unfolding decimal
decimal-BeginsWithDigit n = elim (Bool-cases (ltb n 10)) [
  | inl last ↦ rw last (n, "", ground arith, refl)
  | inr more ↦ rw more (decimal-digit-BeginsWithDigit n (n / 10) (n % 10) "" (omega arith))
]

unsigned-decimal : (n : ℕ) → n < word_mod → unsigned (decimal (suc n) n "") ≡ number n
unsigned-decimal n h =
    let (e, s, small, begins) = decimal-BeginsWithDigit n in
    let read : digits 0 (decimal (suc n) n "") ≡ number n =
      unfold digits in digits-decimal (suc n) n "" (omega arith) h in
    rw begins (unfold unsigned in rw begins at read)

-- A text that begins with a digit has no sign.
atoi-digit : (e : ℕ) (s : String) → e < 10 → atoi (digit e ∷ s) ≡ positive (unsigned (digit e ∷ s))
unfolding atoi
atoi-digit e s h = ground (arith, code-digit e h)

-- Reading back a printed int64 gives it, with no error.
pub atoi-itoa : (z : ℤ) → IsInt64 z → atoi (itoa z) ≡ (z, none)
unfolding itoa
atoi-itoa (pos n) h =
    let (e, s, small, begins) = decimal-BeginsWithDigit n in
    rw begins (
      rw (atoi-digit e s small, ← begins, unsigned-decimal n (omega arith))
        (unfold positive in ground arith))
atoi-itoa (negsuc n) h = unfold atoi in rw (unsigned-decimal (suc n) (omega arith)) (ground arith)
