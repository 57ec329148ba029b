-- ===== src/Client/Escape.antt =====
-- example/sigfs_subscribe.cc, escape_string and hex_string: the text that the subscriber prints for a
-- payload. A char is a byte here, and the source's char is signed: a byte from 128 on is negative.
-- The part of the buffer before buf + offset is not written to any more, so the loops take the
-- part from there on: `offset >= buf_sz` is that nothing is left.
pub mod Exact
pub mod Unescape
pub mod Stale
pub mod Never
use sigfs.Base.{
  ℕ, zero, suc, ◌+◌, ◌-◌, ◌/◌, ◌%◌, Bool, ◌&&◌, List, [], ◌∷◌, ◌++◌, Option, none, some, ltb, leb,
  ◌==◌, if◌then◌else◌, take, drop,
}

-- How one of the functions ends: with the buffer that it returns, by exit(1), by a write past the
-- buffer's end, or by a read past the memory of the data.
pub data End : Type 0 where
  returned : List ℕ → End
  exited overrun overread : End

-- The part of the buffer that a round leaves behind.
unfoldable pub behind : ℕ → List ℕ → End → End
behind k buf (returned rest) = returned (take k buf ++ rest)
behind k buf exited = exited
behind k buf overrun = overrun
behind k buf overread = overread

-- A text with its final zero, at the front of a buffer; `none` if it does not fit.
unfoldable pub write_string : List ℕ → List ℕ → Option (List ℕ)
write_string text [] = none
write_string [] (b ∷ bs) = some (0 ∷ bs)
write_string (c ∷ cs) (b ∷ bs) = elim (write_string cs bs) [
  | none ↦ none
  | some rest ↦ some (c ∷ rest)
]

-- strcat: the text goes behind the string that the buffer holds, to where its zero is.
unfoldable pub strcat : List ℕ → List ℕ → Option (List ℕ)
unfolding write_string
strcat text [] = none
strcat text (zero ∷ bs) = write_string text (zero ∷ bs)
strcat text (suc b ∷ bs) = elim (strcat text bs) [ none ↦ none | some rest ↦ some (suc b ∷ rest) ]

-- What printf("%s") shows of a buffer; `none` if it holds no zero.
unfoldable pub c_string : List ℕ → Option (List ℕ)
c_string [] = none
c_string (zero ∷ bs) = some []
c_string (suc b ∷ bs) = elim (c_string bs) [ none ↦ none | some rest ↦ some (suc b ∷ rest) ]

-- The text that is printed for a buffer that was returned.
unfoldable pub printed : End → Option (List ℕ)
unfolding c_string
printed (returned buf) = c_string buf
printed exited = none
printed overrun = none
printed overread = none

-- isprint, in the C locale
abbrev pub is_print : ℕ → Bool
is_print c = leb 32 c && ltb c 127

-- The characters with an escape of their own: what follows the backslash.
unfoldable pub short_escape : ℕ → Option ℕ
short_escape c =
    if c == 34
    then some 34
    else if c == 92
    then some 92
    else if c == 10
    then some 110
    else if c == 13
    then some 114
    else if c == 9
    then some 116
    else none

abbrev pub digits : ℕ → List ℕ
digits n = (48 + n / 100) ∷ (48 + n / 10 % 10) ∷ (48 + n % 10) ∷ []

-- sprintf("%.3d") of a char
unfoldable pub decimal : ℕ → List ℕ
decimal c = if ltb c 128 then digits c else 45 ∷ digits (256 - c)

-- The switch: what it writes to buf + offset, and by how much offset grows.
unfoldable pub put : ℕ → List ℕ → Option (List ℕ)
unfolding short_escape strcat write_string decimal
put c [] = none
put c (b ∷ bs) = elim (short_escape c) [
  | some e ↦ strcat (92 ∷ e ∷ []) (b ∷ bs)
  | none ↦ if is_print c then some (c ∷ bs) else write_string (92 ∷ decimal c) (b ∷ bs)
]

unfoldable pub width : ℕ → ℕ
unfolding short_escape
width c = elim (short_escape c) [ some e ↦ 2 | none ↦ if is_print c then 1 else 4 ]

-- escape_string, on the buffer and the data_len bytes of the data
unfoldable pub escape_string : List ℕ → List ℕ → End
unfolding behind
escape_string [] [] = overrun
escape_string (b ∷ bs) [] = returned (0 ∷ bs)
escape_string [] (c ∷ cs) = exited
escape_string (b ∷ bs) (c ∷ cs) = elim (put c (b ∷ bs)) [
  | none ↦ overrun
  | some buf ↦ behind (width c) buf (escape_string (drop (width c) buf) cs)
]

abbrev hex_digit : ℕ → ℕ
hex_digit n = if ltb n 10 then 48 + n else 55 + n

-- sprintf("%.2X") of a char, which is made an int
unfoldable pub hex : ℕ → List ℕ
hex c =
    let low : List ℕ = hex_digit (c / 16) ∷ hex_digit (c % 16) ∷ [] in
    if ltb c 128 then low else 70 ∷ 70 ∷ 70 ∷ 70 ∷ 70 ∷ 70 ∷ low

-- The loop of hex_string, whose test `len` does not change: `memory` is all that can be read from
-- the data on.
unfoldable pub hex_loop : List ℕ → List ℕ → End
unfolding behind
hex_loop [] memory = exited
hex_loop (b ∷ bs) [] = overread
hex_loop (b ∷ bs) (c ∷ cs) = elim (write_string (hex c) (b ∷ bs)) [
  | none ↦ overrun
  | some buf ↦ behind 1 buf (hex_loop (drop 1 buf) cs)
]

-- hex_string
unfoldable pub hex_string : List ℕ → List ℕ → ℕ → End
unfolding hex_loop
hex_string buf memory len = if len == 0 then returned buf else hex_loop buf memory
