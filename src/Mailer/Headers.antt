-- ===== src/Mailer/Headers.antt =====
-- The text of a message, and a reader of it: the header lines up to the first empty one, each ended
-- by CR LF, and the body behind that.
use Prim.Native.Char.{Char, code}
use Prim.Native.String.{[], ◌∷◌}
use text.Mathlib.TextLemmas.{nil-append, cons-append, append_assoc, append-nil}
use mathlib.Core.List.{[], ◌∷◌}
use go_microservice.Prelude.{
  ap, All, length, ℕ, zero, suc, String, not, ◌&&◌, arith, Bool, true, false, ◌≡◌, refl, ap, ◌∙◌,
  List, Option, none, some, if◌then◌else◌, nat_eq,
}
use go_microservice.Prelude.Text.{◌⧺◌}
use go_microservice.Notification.{Message}
use go_microservice.Mailer.{build_message}

-- strings.Cut at "\r\n"
unfoldable push : Char → Option (String × String) → Option (String × String)
push c none = none
push c (some (l, t)) = some (c ∷ l, t)

unfoldable after_cr : String → Option String
after_cr [] = none
after_cr (c ∷ s) = if nat_eq (code c) 10 then some s else none

unfoldable ended : Char → Option String → Option (String × String) → Option (String × String)
ended c none rest = push c rest
ended c (some t) rest = some ([], t)

unfoldable cut_line : String → Option (String × String)
unfolding push after_cr ended
cut_line [] = none
cut_line (c ∷ s) =
    let rest = cut_line s in if nat_eq (code c) 13 then ended c (after_cr s) rest else push c rest

unfoldable with_line : String → Option (List String × String) → Option (List String × String)
with_line l none = none
with_line l (some (ls, t)) = some (l ∷ ls, t)

unfoldable read_line :
    (String → Option (List String × String))
    → Option (String × String)
    → Option (List String × String)
unfolding with_line
read_line rest none = none
read_line rest (some ([], t)) = some ([], t)
read_line rest (some (c ∷ l, t)) = with_line (c ∷ l) (rest t)

-- at most `n` lines
unfoldable pub read_headers : ℕ → String → Option (List String × String)
unfolding read_line cut_line
read_headers zero s = none
read_headers (suc n) s = read_line (read_headers n) (cut_line s)

unfoldable pub NoCr : String → Type 0
NoCr [] = Unit
NoCr (c ∷ s) = (nat_eq (code c) 13 ≡ false) × NoCr s

before_line : String → Option (String × String) → Option (String × String)
before_line s none = none
before_line s (some (l, t)) = some (s ⧺ l, t)

before_nothing : (o : Option (String × String)) → o ≡ before_line [] o
unfolding before_line
before_nothing none = refl
before_nothing (some (l, t)) = rw nil-append refl

push-before :
    (c : Char) (s : String) (o : Option (String × String))
    → push c (before_line s o) ≡ before_line (c ∷ s) o
unfolding before_line push
push-before c s none = refl
push-before c s (some (l, t)) = rw cons-append refl

cut_line-append : (s t : String) → NoCr s → cut_line (s ⧺ t) ≡ before_line s (cut_line t)
unfolding NoCr before_line cut_line
cut_line-append [] t h = rw nil-append (before_nothing (cut_line t))
cut_line-append (c ∷ s) t h =
    rw (cons-append, h.0, cut_line-append s t h.1) (push-before c s (cut_line t))

NoCr-append : (s t : String) → NoCr s → NoCr t → NoCr (s ⧺ t)
unfolding NoCr
NoCr-append [] t hs ht = rw nil-append ht
NoCr-append (c ∷ s) t hs ht = rw cons-append (hs.0, NoCr-append s t hs.1 ht)

end_line : (t : String) → cut_line ("\r\n" ⧺ t) ≡ some ([], t)
unfolding cut_line ended after_cr
end_line t =
    let cr : "\r\n" ⧺ t ≡ "\r" ∷ ("\n" ⧺ t) = cons-append "\r" "\n" t in
    let lf : "\n" ⧺ t ≡ "\n" ∷ ("" ⧺ t) = cons-append "\n" "" t in rw (cr, lf, nil-append) refl

read_headers-line :
    (n : ℕ) (l : String) (c : Char) (l' t : String)
    → l ≡ c ∷ l'
    → NoCr l
    → read_headers (suc n) (l ⧺ "\r\n" ⧺ t) ≡ with_line l (read_headers n t)
unfolding read_headers read_line before_line
read_headers-line n l c l' t e h =
    rw (cut_line-append l ("\r\n" ⧺ t) h, end_line t, append-nil l, e) refl

abbrev pub header_lines : (from_name from_address : String) → Message → List String
header_lines from_name from_address msg =
    ("From: " ⧺ from_name ⧺ " <" ⧺ from_address ⧺ ">")
    ∷ ("To: " ⧺ msg.to)
    ∷ ("Subject: " ⧺ msg.subject)
    ∷ "MIME-Version: 1.0"
    ∷ "Content-Type: text/html; charset=\"UTF-8\""
    ∷ []

-- One line each, then an empty one, then the body.
abbrev in_lines : List String → String → String
in_lines [] body = "\r\n" ⧺ body
in_lines (l ∷ ls) body = l ⧺ "\r\n" ⧺ in_lines ls body

build_message-in_lines :
    (n a : String) (msg : Message)
    → build_message n a msg ≡ in_lines (header_lines n a msg) msg.body
unfolding build_message
build_message-in_lines n a msg =
    let mime : (t : String) → "MIME-Version: 1.0\r\n" ⧺ t ≡ "MIME-Version: 1.0" ⧺ "\r\n" ⧺ t =
      append_assoc "MIME-Version: 1.0" "\r\n" in
    let close : (t : String) → ">\r\n" ⧺ t ≡ ">" ⧺ "\r\n" ⧺ t = append_assoc ">" "\r\n" in
    let type : (t : String)
        → "Content-Type: text/html; charset=\"UTF-8\"\r\n" ⧺ t
          ≡ "Content-Type: text/html; charset=\"UTF-8\"" ⧺ "\r\n" ⧺ t =
      append_assoc "Content-Type: text/html; charset=\"UTF-8\"" "\r\n" in
    rw (mime, close, type) (simp append_assoc)

unfoldable pub no_cr : String → Bool
no_cr [] = true
no_cr (c ∷ s) = not (nat_eq (code c) 13) && no_cr s

pub no_cr-NoCr : (s : String) → no_cr s ≡ true → NoCr s
unfolding no_cr NoCr
no_cr-NoCr [] h = tt
no_cr-NoCr (c ∷ s) h = (ground arith, no_cr-NoCr s (ground arith))

unfoldable HeaderLine : String → Type 0
HeaderLine l = ((c : Char) × (l' : String) × (l ≡ c ∷ l')) × NoCr l

read_headers-in_lines :
    (ls : List String) (body : String)
    → All HeaderLine ls
    → read_headers (suc (length ls)) (in_lines ls body) ≡ some (ls, body)
unfolding HeaderLine read_headers read_line
read_headers-in_lines [] body h = rw (end_line body) refl
read_headers-in_lines (l ∷ ls) body (((c, l', e), full), h) =
    read_headers-line (suc (length ls)) l c l' (in_lines ls body) e full
    ∙ ap (with_line l) (read_headers-in_lines ls body h)

labelled : (c : Char) (label s : String) → NoCr (c ∷ label) → NoCr s → HeaderLine ((c ∷ label) ⧺ s)
unfolding HeaderLine
labelled c label s hl hs = ((c, label ⧺ s, cons-append c label s), NoCr-append (c ∷ label) s hl hs)

-- A reader that takes lines up to the first empty one finds in a built message its five header lines
-- and its body, where no name, address or subject holds a carriage return.
pub read_headers-build_message :
    (from_name from_address : String) (msg : Message)
    → NoCr from_name
    → NoCr from_address
    → NoCr msg.to
    → NoCr msg.subject
    → read_headers 6 (build_message from_name from_address msg)
      ≡ some (header_lines from_name from_address msg, msg.body)
unfolding HeaderLine no_cr
read_headers-build_message n a msg hn ha ht hs =
    let head : NoCr (n ⧺ " <" ⧺ a ⧺ ">") =
      NoCr-append n _ hn
        (NoCr-append " <" _ (no_cr-NoCr " <" refl) (NoCr-append a _ ha (no_cr-NoCr ">" refl))) in
    rw (build_message-in_lines n a msg) (
      read_headers-in_lines (header_lines n a msg) msg.body (
        labelled "F" "rom: " _ (no_cr-NoCr "From: " refl) head,
        (
          labelled "T" "o: " _ (no_cr-NoCr "To: " refl) ht,
          (
            labelled "S" "ubject: " _ (no_cr-NoCr "Subject: " refl) hs,
            (
              (("M", "IME-Version: 1.0", refl), no_cr-NoCr "MIME-Version: 1.0" refl),
              (
                (
                  ("C", "ontent-Type: text/html; charset=\"UTF-8\"", refl),
                  no_cr-NoCr "Content-Type: text/html; charset=\"UTF-8\"" refl,
                ),
                tt,
              ),
            ),
          ),
        ),
      ))
