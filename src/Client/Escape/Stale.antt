-- ===== src/Client/Escape/Stale.antt =====
-- escape_string on a buffer that holds the text of an earlier signal, and on bytes that are no
-- ASCII characters.
use sigfs.Base.{
  ℕ, zero, suc, ◌+◌, ◌-◌, ◌%◌, ◌/◌, ◌≤◌, ◌<◌, ◌≡◌, refl, sym, ap, ap₂, ◌∙◌, true, List, [], ◌∷◌,
  ◌++◌, none, some, arith, length, take, All, All-append, All-suffix, append_assoc, append-nil,
}
use sigfs.Client.Escape.{
  returned, write_string, strcat, short_escape, is_print, decimal, put, width, escape_string,
  c_string, printed, behind,
}
use sigfs.Client.Escape.Exact.{NonZero, round, c_string-append}

-- A character that is printed as it is.
abbrev pub IsPlain : ℕ → Type 0
IsPlain c = (short_escape c ≡ none) × (is_print c ≡ true)

pub plain-NonZero : (cs : List ℕ) → All IsPlain cs → All NonZero cs
plain-NonZero [] h = tt
plain-NonZero (c ∷ cs) h = (ground (arith, h.0), plain-NonZero cs h.1)

put_plain : (c b : ℕ) (bs : List ℕ) → IsPlain c → put c (b ∷ bs) ≡ some (c ∷ bs)
unfolding put
put_plain c b bs h = ground (arith, h)

width_plain : (c : ℕ) → IsPlain c → 1 ≡ width c
unfolding width
width_plain c h = ground (arith, h)

-- Plain characters replace what the buffer held in their places.
plain_prefix :
    (p old buf cs r : List ℕ)
    → All IsPlain p
    → length old ≡ length p
    → escape_string buf cs ≡ returned r
    → escape_string (old ++ buf) (p ++ cs) ≡ returned (p ++ r)
plain_prefix [] [] buf cs r h l e = e
plain_prefix [] (o ∷ old) buf cs r h l e = absurd (omega arith)
plain_prefix (c ∷ p) [] buf cs r h l e = absurd (omega arith)
plain_prefix (c ∷ p) (o ∷ old) buf cs r h l e =
    round c (p ++ cs) (o ∷ old ++ buf) (old ++ buf) (c ∷ []) (p ++ r)
      (put_plain c o (old ++ buf) h.0) (omega arith) (width_plain c h.0)
      (plain_prefix p old buf cs r h.1 (omega arith) e)

pub plain_text :
    (p old : List ℕ) (b : ℕ) (rest : List ℕ)
    → All IsPlain p
    → length old ≡ length p
    → escape_string (old ++ (b ∷ rest)) p ≡ returned (p ++ (0 ∷ rest))
unfolding escape_string
plain_text p old b rest h l =
    ap (escape_string (old ++ (b ∷ rest))) (sym (append-nil p))
    ∙ plain_prefix p old (b ∷ rest) [] (0 ∷ rest) h l refl

-- Two characters go behind the string that is there.
strcat_behind :
    (s : List ℕ) (x y a b : ℕ) (rest : List ℕ)
    → All NonZero s
    → strcat (x ∷ y ∷ []) (s ++ (0 ∷ a ∷ b ∷ rest)) ≡ some (s ++ (x ∷ y ∷ 0 ∷ rest))
unfolding strcat write_string
strcat_behind [] x y a b rest h = refl
strcat_behind (zero ∷ s) x y a b rest h = absurd (omega arith)
strcat_behind (suc c ∷ s) x y a b rest h = rw (strcat, strcat_behind s x y a b rest h.1) refl

put_short :
    (c e b : ℕ) (bs : List ℕ)
    → short_escape c ≡ some e
    → put c (b ∷ bs) ≡ strcat (92 ∷ e ∷ []) (b ∷ bs)
unfolding put
put_short c e b bs h = rw (put, h) refl

width_short : (c e : ℕ) → short_escape c ≡ some e → width c ≡ 2
unfolding width
width_short c e h = rw (width, h) refl

-- The final zero.
ended :
    (ss : List ℕ) (x : ℕ) (rest : List ℕ)
    → (after : List ℕ) × (escape_string (ss ++ (x ∷ rest)) [] ≡ returned (0 ∷ after))
unfolding escape_string
ended [] x rest = (rest, refl)
ended (s ∷ ss) x rest = (ss ++ (x ∷ rest), refl)

-- A character with an escape of its own, where the buffer holds a string.
stale_escape :
    (c e s a b : ℕ) (ss rest : List ℕ)
    → short_escape c ≡ some e
    → All NonZero (s ∷ ss)
    → (after : List ℕ) × (escape_string (s ∷ ss ++ (0 ∷ a ∷ b ∷ rest)) (c ∷ [])
        ≡ returned (take 2 (s ∷ ss ++ (92 ∷ e ∷ [])) ++ (0 ∷ after)))
unfolding escape_string behind
stale_escape c e s a b [] rest h n = (
  0 ∷ rest,
  rw
      (
        escape_string,
        put_short c e s (0 ∷ a ∷ b ∷ rest) h ∙ strcat_behind (s ∷ []) 92 e a b rest n,
        width_short c e h,
      )
      refl,
)
stale_escape c e s a b (t ∷ ss) rest h n =
    let (after, f) = ended ss 92 (e ∷ 0 ∷ rest) in
    (
      after,
      rw
          (
            escape_string,
            put_short c e s (t ∷ ss ++ (0 ∷ a ∷ b ∷ rest)) h
                ∙ strcat_behind (s ∷ t ∷ ss) 92 e a b rest n,
            width_short c e h,
          )
          (ap (behind 2 (s ∷ t ∷ ss ++ (92 ∷ e ∷ 0 ∷ rest))) f),
    )

take-NonZero :
    (c e s : ℕ) (ss : List ℕ)
    → short_escape c ≡ some e
    → All NonZero (s ∷ ss)
    → All NonZero (take 2 (s ∷ ss ++ (92 ∷ e ∷ [])))
take-NonZero c e s [] h n = (n.0, (omega arith, tt))
take-NonZero c e s (t ∷ ss) h n = (n.0, (n.1.0, tt))

-- escape_string puts a payload of printable characters without escapes into a buffer with room for
-- it and two bytes behind its zero, and then, into that buffer, one of fewer such characters and a
-- last one that is written as a backslash and a letter: what is printed for the second are its
-- first characters, and then the next two bytes of the first payload, or its last one and a
-- backslash if there is no second.
pub escape_string_stale :
    (old : List ℕ) (s : ℕ) (ss p : List ℕ) (c e : ℕ) (room : List ℕ) (x a b : ℕ) (rest : List ℕ)
    → All IsPlain (old ++ (s ∷ ss))
    → All IsPlain p
    → short_escape c ≡ some e
    → length p ≡ length old
    → length room ≡ length (old ++ (s ∷ ss))
    → (buf : List ℕ) × (escape_string (room ++ (x ∷ a ∷ b ∷ rest)) (old ++ (s ∷ ss)) ≡ returned buf)
      × (printed (escape_string buf (p ++ (c ∷ []))) ≡ some (p ++ take 2 (s ∷ ss ++ (92 ∷ e ∷ []))))
unfolding printed
escape_string_stale old s ss p c e room x a b rest plain h f l fits =
    let tail = take 2 (s ∷ ss ++ (92 ∷ e ∷ [])) in
    let n = plain-NonZero (s ∷ ss) (All-suffix IsPlain old (s ∷ ss) plain) in
    let (after, shown) = stale_escape c e s a b ss rest f n in
    (
      (old ++ (s ∷ ss)) ++ (0 ∷ a ∷ b ∷ rest),
      plain_text (old ++ (s ∷ ss)) room x (a ∷ b ∷ rest) plain fits,
      ap (λ buf. printed (escape_string buf (p ++ (c ∷ []))))
            (append_assoc old (s ∷ ss) (0 ∷ a ∷ b ∷ rest))
          ∙ ap printed (
              plain_prefix p old (s ∷ ss ++ (0 ∷ a ∷ b ∷ rest)) (c ∷ []) (tail ++ (0 ∷ after)) h
                (sym l) shown)
          ∙ ap c_string (sym (append_assoc p tail (0 ∷ after)))
          ∙ c_string-append (p ++ tail) after
              (All-append NonZero p tail (plain-NonZero p h) (take-NonZero c e s ss f n)),
    )

-- A byte that is no ASCII character, on a buffer of six places or more.
high_text :
    (c b0 b1 b2 b3 b4 b5 : ℕ) (rest : List ℕ)
    → 128 ≤ c
    → c < 256
    → printed (escape_string (b0 ∷ b1 ∷ b2 ∷ b3 ∷ b4 ∷ b5 ∷ rest) (c ∷ []))
      ≡ some (92 ∷ 45 ∷ (48 + (256 - c) / 100) ∷ (48 + (256 - c) / 10 % 10) ∷ [])
unfolding printed escape_string behind put width short_escape decimal write_string c_string
high_text c b0 b1 b2 b3 b4 b5 rest low high = ground arith

-- Two characters from 128 on whose negative values have the same tens and hundreds are printed
-- alike by escape_string, each as the whole payload, into a buffer of six bytes or more.
pub escape_string_high :
    (c d b0 b1 b2 b3 b4 b5 : ℕ) (rest : List ℕ)
    → 128 ≤ c
    → c < 256
    → 128 ≤ d
    → d < 256
    → (256 - c) / 10 ≡ (256 - d) / 10
    → printed (escape_string (b0 ∷ b1 ∷ b2 ∷ b3 ∷ b4 ∷ b5 ∷ rest) (c ∷ []))
      ≡ printed (escape_string (b0 ∷ b1 ∷ b2 ∷ b3 ∷ b4 ∷ b5 ∷ rest) (d ∷ []))
escape_string_high c d b0 b1 b2 b3 b4 b5 rest c_low c_high d_low d_high same =
    high_text c b0 b1 b2 b3 b4 b5 rest c_low c_high
    ∙ ap some (ap₂ (λ x y. 92 ∷ 45 ∷ (48 + x) ∷ (48 + y) ∷ []) (omega arith) (omega arith))
    ∙ sym (high_text d b0 b1 b2 b3 b4 b5 rest d_low d_high)
