-- ===== src/Tests/Texts.antt =====
-- The texts of the subscriber program on small payloads.
use sigfs.Base.{ℕ, ◌≡◌, ◌↔◌, refl, List, [], ◌∷◌, some, arith, All}
use sigfs.Client.Escape.{returned, printed, short_escape, escape_string, hex_string}
use sigfs.Client.Escape.Exact.{IsAscii, zeros}
use sigfs.Client.Escape.Unescape.{plain, unescape, unescape-escape_string}
use sigfs.Client.Escape.Stale.{IsPlain, escape_string_stale, escape_string_high}
use sigfs.Client.Escape.Never.{hex_string_never}

-- "A", a newline and a bell.
abbrev bell : List ℕ
bell = 65 ∷ 10 ∷ 7 ∷ []

bell-IsAscii : All IsAscii bell
bell-IsAscii = (omega arith, (omega arith, (omega arith, tt)))

unescape-escape_string_example :
    (t : List ℕ) × (printed (escape_string (zeros 13) bell) ≡ some t)
    × (unescape plain t ≡ some bell)
unescape-escape_string_example = unescape-escape_string bell 13 bell-IsAscii (omega arith)

abbrev letters : List ℕ
letters = 65 ∷ 66 ∷ 67 ∷ []

letters-IsPlain : All IsPlain letters
unfolding short_escape
letters-IsPlain = ((refl, refl), ((refl, refl), ((refl, refl), tt)))

letter-IsPlain : All IsPlain (68 ∷ [])
unfolding short_escape
letter-IsPlain = ((refl, refl), tt)

newline : short_escape 10 ≡ some 110
unfolding short_escape
newline = refl

-- After "ABC", "D" with a newline is printed as "DBC".
escape_string_stale_example :
    (buf : List ℕ) × (escape_string (0 ∷ 0 ∷ 0 ∷ 0 ∷ 0 ∷ 0 ∷ []) letters ≡ returned buf)
    × (printed (escape_string buf (68 ∷ 10 ∷ [])) ≡ some (68 ∷ 66 ∷ 67 ∷ []))
escape_string_stale_example =
    escape_string_stale (65 ∷ []) 66 (67 ∷ []) (68 ∷ []) 10 110 (0 ∷ 0 ∷ 0 ∷ []) 0 0 0 []
      letters-IsPlain letter-IsPlain newline refl refl

escape_string_high_example :
    printed (escape_string (0 ∷ 0 ∷ 0 ∷ 0 ∷ 0 ∷ 0 ∷ []) (255 ∷ []))
    ≡ printed (escape_string (0 ∷ 0 ∷ 0 ∷ 0 ∷ 0 ∷ 0 ∷ []) (250 ∷ []))
escape_string_high_example =
    escape_string_high 255 250 0 0 0 0 0 0 [] (omega arith) (omega arith) (omega arith)
      (omega arith) refl

abbrev room : List ℕ
room = 0 ∷ 0 ∷ 0 ∷ []

abbrev two : ℕ
two = 2

hex_string_never_example :
    (hex_string room letters two ≡ returned room) ↔ ((two ≡ 0) × (room ≡ room))
hex_string_never_example = hex_string_never room letters room two
