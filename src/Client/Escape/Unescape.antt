-- ===== src/Client/Escape/Unescape.antt =====
-- Reading an escaped text back, for what the text of a payload tells.
use sigfs.Base.{
  ℕ, ◌+◌, ◌-◌, ◌*◌, ◌<◌, ◌≡◌, refl, ap, ◌∙◌, List, [], ◌∷◌, ◌++◌, Option, none, some, arith, ◌==◌,
  if◌then◌else◌, All, length,
}
use sigfs.Client.Escape.{short_escape, escape_string, printed}
use sigfs.Client.Escape.Exact.{escape_of, escaped, IsAscii, zeros, printed-escape_string}

-- What was read of an escape sequence.
pub data Mode : Type 0 where
  plain backslash : Mode
  one_digit two_digits : ℕ → Mode

abbrev letter : ℕ → Option ℕ
letter e =
    if e == 34
    then some 34
    else if e == 92
    then some 92
    else if e == 110
    then some 10
    else if e == 114
    then some 13
    else if e == 116
    then some 9
    else none

abbrev cons : ℕ → Option (List ℕ) → Option (List ℕ)
cons c none = none
cons c (some cs) = some (c ∷ cs)

-- A backslash with a letter, or with three digits, stands for one character.
unfoldable pub unescape : Mode → List ℕ → Option (List ℕ)
unescape plain [] = some []
unescape backslash [] = none
unescape (one_digit n) [] = none
unescape (two_digits n) [] = none
unescape plain (c ∷ cs) =
    let sequence = unescape backslash cs in
    let rest = cons c (unescape plain cs) in if c == 92 then sequence else rest
unescape backslash (c ∷ cs) = elim (letter c) [
  | some d ↦ cons d (unescape plain cs)
  | none ↦ unescape (one_digit (c - 48)) cs
]
unescape (one_digit n) (c ∷ cs) = unescape (two_digits (n * 10 + (c - 48))) cs
unescape (two_digits n) (c ∷ cs) = cons (n * 10 + (c - 48)) (unescape plain cs)

unescape-escape_of :
    (c : ℕ) (rest : List ℕ)
    → IsAscii c
    → unescape plain (escape_of c ++ rest) ≡ cons c (unescape plain rest)
unfolding unescape short_escape
unescape-escape_of c rest h = ground arith

unescape-escaped : (cs : List ℕ) → All IsAscii cs → unescape plain (escaped cs) ≡ some cs
unfolding unescape
unescape-escaped [] h = refl
unescape-escaped (c ∷ cs) h =
    unescape-escape_of c (escaped cs) h.0 ∙ ap (cons c) (unescape-escaped cs h.1)

-- On a buffer of zeros that is more than four times as long as a payload of ASCII characters:
-- escape_string returns, and reading the escape sequences of the text that is printed gives the
-- payload back.
pub unescape-escape_string :
    (cs : List ℕ) (n : ℕ)
    → All IsAscii cs
    → 4 * length cs < n
    → (t : List ℕ) × (printed (escape_string (zeros n) cs) ≡ some t) × (unescape plain t ≡ some cs)
unescape-escape_string cs n h room =
    (escaped cs, printed-escape_string cs n h room, unescape-escaped cs h)
