-- ===== src/Client/Escape/Never.antt =====
-- hex_string, whose loop has no end.
use sigfs.Base.{
  ℕ, zero, suc, ◌≡◌, ◌≢◌, ◌↔◌, refl, sym, ap, ◌∙◌, List, [], ◌∷◌, arith, drop, Option-cases, inl,
  inr,
}
use sigfs.Client.Escape.{
  End, returned, exited, overrun, overread, behind, write_string, hex, hex_loop, hex_string,
}

behind_never :
    (k : ℕ) (buf out : List ℕ) (e : End)
    → ((rest : List ℕ) → e ≢ returned rest)
    → behind k buf e ≢ returned out
unfolding behind
behind_never k buf out (returned rest) h e = h rest (cc)
behind_never k buf out exited h e = cc e
behind_never k buf out overrun h e = cc e
behind_never k buf out overread h e = cc e

hex_loop_never : (memory buf out : List ℕ) → hex_loop buf memory ≢ returned out
unfolding hex_loop
hex_loop_never memory [] out e = cc e
hex_loop_never [] (b ∷ bs) out e = cc e
hex_loop_never (c ∷ cs) (b ∷ bs) out e = elim (Option-cases (write_string (hex c) (b ∷ bs))) [
  | inl f ↦ cc (e, f)
  | inr (buf, f) ↦
      behind_never 1 buf out (hex_loop (drop 1 buf) cs)
        (λ rest. hex_loop_never cs (drop 1 buf) rest) (sym (rw (hex_loop, f) refl) ∙ e)
]

-- hex_string returns for an empty payload alone, with the buffer as it was; for any other, whatever
-- the sizes of the buffer and of the memory, it does not return.
pub hex_string_never :
    (buf memory out : List ℕ) (len : ℕ)
    → (hex_string buf memory len ≡ returned out) ↔ ((len ≡ 0) × (out ≡ buf))
unfolding hex_string
hex_string_never buf memory out zero = (λ e. (refl, cc e), λ h. ap returned (sym h.1))
hex_string_never buf memory out (suc len) =
    (λ e. absurd (hex_loop_never memory buf out (more len ∙ e)), λ h. absurd (omega (arith, h.0)))
  where
    more : (len : ℕ) → hex_loop buf memory ≡ hex_string buf memory (suc len)
    more len = ground arith
