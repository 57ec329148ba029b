-- ===== src/Client/Escape/Exact.antt =====
-- escape_string on a buffer of zeros, for payloads of ASCII characters.
use sigfs.Base.{
  ℕ, zero, suc, ◌-◌, ◌*◌, ◌≤◌, ◌<◌, ◌≡◌, refl, sym, ap, ◌∙◌, List, [], ◌∷◌, ◌++◌, none, some, arith,
  if◌then◌else◌, length, take, drop, replicate, All, All-append, append_assoc, length-replicate,
  take-append_length, drop-append_length,
}
use sigfs.Client.Escape.{
  returned, behind, write_string, strcat, c_string, short_escape, is_print, digits, decimal, put,
  width, printed, escape_string,
}

-- The text for one ASCII character.
abbrev pub escape_of : ℕ → List ℕ
escape_of c = elim (short_escape c) [
  | some e ↦ 92 ∷ e ∷ []
  | none ↦ if is_print c then c ∷ [] else 92 ∷ digits c
]

abbrev pub escaped : List ℕ → List ℕ
escaped [] = []
escaped (c ∷ cs) = escape_of c ++ escaped cs

abbrev pub IsAscii : ℕ → Type 0
IsAscii c = c < 128

abbrev pub zeros : ℕ → List ℕ
zeros n = replicate n 0

length-escape_of : (c : ℕ) → length (escape_of c) ≡ width c
unfolding width short_escape
length-escape_of c = ground arith

width_bounds : (c : ℕ) → (1 ≤ width c) × (width c ≤ 4)
unfolding width short_escape
width_bounds c = ground arith

same_zeros : (m n : ℕ) → m ≡ n → zeros m ≡ zeros n
same_zeros m n e = ap zeros e

drop-zeros : (k n : ℕ) → drop k (zeros n) ≡ zeros (n - k)
drop-zeros zero n = same_zeros n (n - zero) (omega arith)
drop-zeros (suc k) zero = same_zeros 0 (zero - suc k) (omega arith)
drop-zeros (suc k) (suc n) = drop-zeros k n ∙ same_zeros (n - k) (suc n - suc k) (omega arith)

-- A character that is written to zeros.
put-zeros :
    (c n : ℕ) → IsAscii c → 4 < n → put c (zeros n) ≡ some (escape_of c ++ drop (width c) (zeros n))
unfolding put width strcat write_string decimal short_escape
put-zeros c zero a h = absurd (omega arith)
put-zeros c (suc zero) a h = absurd (omega arith)
put-zeros c (suc (suc zero)) a h = absurd (omega arith)
put-zeros c (suc (suc (suc zero))) a h = absurd (omega arith)
put-zeros c (suc (suc (suc (suc zero)))) a h = absurd (omega arith)
put-zeros c (suc (suc (suc (suc (suc n))))) a h = ground arith

-- A round whose text is `text`, behind which the loop ends with `rest`.
pub round :
    (c : ℕ) (cs room after text rest : List ℕ)
    → put c room ≡ some (text ++ after)
    → 0 < length room
    → length text ≡ width c
    → escape_string after cs ≡ returned rest
    → escape_string room (c ∷ cs) ≡ returned (text ++ rest)
unfolding escape_string behind
round c cs [] after text rest e room w r = absurd (omega arith)
round c cs (b ∷ bs) after text rest e room w r =
    rw (escape_string, e)
      (ap (λ k. behind (width c) (text ++ after) (escape_string (drop k (text ++ after)) cs))
          (sym w)
        ∙ ap (λ b. behind (width c) (text ++ after) (escape_string b cs))
            (drop-append_length text after)
        ∙ ap (behind (width c) (text ++ after)) r
        ∙ ap (λ k. returned (take k (text ++ after) ++ rest)) (sym w)
        ∙ ap (λ t. returned (t ++ rest)) (take-append_length text after))

-- On a buffer of zeros with four places for each character and one more.
escape_string-zeros :
    (cs : List ℕ) (n : ℕ)
    → All IsAscii cs
    → 4 * length cs < n
    → (m : ℕ) × (escape_string (zeros n) cs ≡ returned (escaped cs ++ zeros (suc m)))
unfolding escape_string
escape_string-zeros [] zero a h = absurd (omega arith)
escape_string-zeros [] (suc n) a h = (n, refl)
escape_string-zeros (c ∷ cs) n (first, a) h =
    let (m, rest) = escape_string-zeros cs (n - width c) a (omega (arith, width_bounds c)) in
    (
      m,
      round c cs (zeros n) (drop (width c) (zeros n)) (escape_of c) (escaped cs ++ zeros (suc m))
            (put-zeros c n first (omega arith)) (omega (arith, length-replicate {A = ℕ} n 0))
            (length-escape_of c) (ap (λ b. escape_string b cs) (drop-zeros (width c) n) ∙ rest)
          ∙ ap returned (sym (append_assoc (escape_of c) (escaped cs) (zeros (suc m)))),
    )

abbrev pub NonZero : ℕ → Type 0
NonZero c = 0 < c

-- A string ends at its zero.
pub c_string-append : (t rest : List ℕ) → All NonZero t → c_string (t ++ (0 ∷ rest)) ≡ some t
unfolding c_string
c_string-append [] rest h = refl
c_string-append (zero ∷ t) rest h = absurd (omega arith)
c_string-append (suc c ∷ t) rest h = rw (c_string, c_string-append t rest h.1) refl

escape_of-NonZero : (c : ℕ) → All NonZero (escape_of c)
unfolding short_escape
escape_of-NonZero c = ground arith

escaped-NonZero : (cs : List ℕ) → All NonZero (escaped cs)
escaped-NonZero [] = tt
escaped-NonZero (c ∷ cs) =
    All-append NonZero (escape_of c) (escaped cs) (escape_of-NonZero c) (escaped-NonZero cs)

-- On a buffer of zeros, what is printed is the text of each character, one after the other.
pub printed-escape_string :
    (cs : List ℕ) (n : ℕ)
    → All IsAscii cs
    → 4 * length cs < n
    → printed (escape_string (zeros n) cs) ≡ some (escaped cs)
unfolding printed
printed-escape_string cs n a h =
    let (m, e) = escape_string-zeros cs n a h in
    ap printed e ∙ c_string-append (escaped cs) (zeros m) (escaped-NonZero cs)
