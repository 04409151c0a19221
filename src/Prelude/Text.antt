-- ===== src/Prelude/Text.antt =====
-- The functions of Go's package strings that the code calls, on texts as lists of code points.
use Prim.Native.Nat.{ℕ}
use Prim.Native.Char.{Char, code}
use Prim.Native.String
use Prim.Native.String.{String, [], ◌∷◌}
use mathlib.Core.Path.{◌≡◌, refl, ap, sym, ◌∙◌}
use mathlib.Core.Logic.{◌≢◌, inl, inr}
use mathlib.Core.Bool.{Bool, false, ◌||◌, ◌&&◌}
use mathlib.Core.List.{List, [], ◌∷◌}
use mathlib.Core.Option.{Option, none, some}
use text.Mathlib.Text.{◌==◌}
use text.Mathlib.TextEquality.{eq_iff}
use text.Mathlib.TextLemmas.{append_cancel_left}
use go_microservice.Prelude.Tests.{Bool-cases, nat_eq, leb, if◌then◌else◌}

infixr 66 ◌⧺◌
abbrev pub ◌⧺◌ : String → String → String
s ⧺ t = String.◌++◌ s t

-- unicode.IsSpace
abbrev pub is_space : ℕ → Bool
is_space n =
    (leb 9 n && leb n 13)
    || nat_eq n 32
    || nat_eq n 0x85
    || nat_eq n 0xa0
    || nat_eq n 0x1680
    || (leb 0x2000 n && leb n 0x200a)
    || nat_eq n 0x2028
    || nat_eq n 0x2029
    || nat_eq n 0x202f
    || nat_eq n 0x205f
    || nat_eq n 0x3000

-- Both halves of strings.TrimSpace. On the way back from the end, a character is kept if it is no
-- space or if something behind it is kept.
pub trim_left : String → String
trim_left [] = []
trim_left (c ∷ s) = let rest = trim_left s in if is_space (code c) then rest else c ∷ s

trim_keep : Char → String → String
trim_keep c [] = if is_space (code c) then [] else c ∷ []
trim_keep c (d ∷ s) = c ∷ d ∷ s

pub trim_right : String → String
unfolding trim_keep
trim_right [] = []
trim_right (c ∷ s) = trim_keep c (trim_right s)

unfoldable pub trim_space : String → String
unfolding trim_left trim_right
trim_space s = trim_right (trim_left s)

-- strings.Split(s, sep) for a separator of one ASCII character: never empty, and "" gives one "".
push_first : Char → List String → List String
push_first c [] = (c ∷ []) ∷ []
push_first c (p ∷ ps) = (c ∷ p) ∷ ps

unfoldable pub split : ℕ → String → List String
unfolding push_first
split sep [] = "" ∷ []
split sep (c ∷ s) =
    let rest = split sep s in if nat_eq (code c) sep then "" ∷ rest else push_first c rest

-- strings.SplitN(s, sep, 2)[0]
unfoldable pub before : ℕ → String → String
before sep [] = []
before sep (c ∷ s) = let rest = before sep s in if nat_eq (code c) sep then [] else c ∷ rest

-- strings.CutPrefix
unfoldable pub cut_prefix : String → String → Option String
cut_prefix [] s = some s
cut_prefix (c ∷ p) [] = none
cut_prefix (c ∷ p) (d ∷ s) =
    let rest = cut_prefix p s in if nat_eq (code c) (code d) then rest else none

pub ne-eq_false : (a b : String) → a ≢ b → (a == b) ≡ false
ne-eq_false a b h = elim (Bool-cases (a == b)) [
  | inl same ↦ absurd (h ((eq_iff a b).0 same))
  | inr other ↦ other
]

-- Two texts with one beginning differ if their endings do.
pub append-ne : (s t u : String) → t ≢ u → s ⧺ t ≢ s ⧺ u
append-ne s t u h e = h (append_cancel_left s t u e)

pub append-== : (s t u : String) → (s ⧺ t == s ⧺ u) ≡ (t == u)
append-== s t u = elim (Bool-cases (t == u)) [
  | inl same ↦ rw same ((eq_iff _ _).1 (ap (λ x. s ⧺ x) ((eq_iff t u).0 same)))
  | inr differ ↦ elim (Bool-cases (s ⧺ t == s ⧺ u)) [
    | inl e ↦ e ∙ sym ((eq_iff t u).1 (append_cancel_left s t u ((eq_iff _ _).0 e)))
    | inr e ↦ e ∙ sym differ
  ]
]

trims : trim_space "  a b \t" ≡ "a b"
unfolding trim_space
trims = refl

splits : split b',' "a,,b" ≡ "a" ∷ "" ∷ "b" ∷ []
unfolding split
splits = refl
