-- ===== src/Run/Received.antt =====
-- What a subscriber has read, against what was published.
use native.Mathlib.Decide.{dec_lt}
use sigfs.Base.{
  ℕ, zero, suc, ◌+◌, ◌-◌, ◌^◌, ◌≤◌, ◌<◌, ◌≡◌, refl, sym, ap, ◌∙◌, subst, List, [], ◌∷◌, ◌++◌, some,
  arith, length, drop, get_elem?, All, get_elem?-append_left, drop-eq-cons, lt_of_get_elem?,
  length-drop, length-append,
}
use sigfs.Common.{sizeof_signal}
use sigfs.Queue.Runs.{IsSized}
use sigfs.Read.Gathering.{Sent, sent_bytes}
use sigfs.Read.Fitting.{fitting, fitting_none, fitting_some, tagged}
use sigfs.Client.{read_signals}
use sigfs.Client.Parse.{IsSent, read_signals-sent_bytes}

-- Signals with ids from `lo` on and below `hi`, in ascending order, each with the payload that was
-- published under its id: the signal `id` is the one at position id - 1 of the history.
abbrev pub Genuine : List (List ℕ) → ℕ → ℕ → List Sent → Type 0
Genuine log lo hi [] = lo ≤ hi
Genuine log lo hi ((h, p) ∷ got) =
    (lo ≤ h.signal_id)
    × (get_elem? log (h.signal_id - 1) ≡ some p)
    × Genuine log (h.signal_id + 1) hi got

pub Genuine-lower :
    (log : List (List ℕ)) (lo lo' hi : ℕ) (got : List Sent)
    → lo' ≤ lo
    → Genuine log lo hi got
    → Genuine log lo' hi got
Genuine-lower log lo lo' hi [] le g = omega (arith, le, g)
Genuine-lower log lo lo' hi ((h, p) ∷ got) le (first, here, rest) =
    (omega (arith, le, first), here, rest)

pub Genuine-append :
    (log : List (List ℕ)) (lo mid mid' hi : ℕ) (got more : List Sent)
    → Genuine log lo mid got
    → mid ≤ mid'
    → Genuine log mid' hi more
    → Genuine log lo hi (got ++ more)
Genuine-append log lo mid mid' hi [] more g le m =
    Genuine-lower log mid' lo hi more (omega (arith, g, le)) m
Genuine-append log lo mid mid' hi ((h, p) ∷ got) more (first, here, rest) le m =
    (first, here, Genuine-append log (h.signal_id + 1) mid mid' hi got more rest le m)

-- Later publications change nothing that was published.
pub Genuine-published :
    (log ps : List (List ℕ)) (lo hi : ℕ) (got : List Sent)
    → Genuine log lo hi got
    → Genuine (log ++ ps) lo hi got
Genuine-published log ps lo hi [] g = g
Genuine-published log ps lo hi ((h, p) ∷ got) (first, here, rest) = (
  first,
  get_elem?-append_left log ps (h.signal_id - 1) (lt_of_get_elem? log (h.signal_id - 1) here)
      ∙ here,
  Genuine-published log ps (h.signal_id + 1) hi got rest,
)

-- What a read replies is genuine, for a read from the signal behind position i.
tagged_after :
    (log rest : List (List ℕ)) (lost i budget size : ℕ)
    → drop i log ≡ rest
    → let ps = fitting budget size rest in
      Genuine log (suc i) (suc i + length ps) (tagged lost (suc i) ps)
unfolding fitting
tagged_after log rest lost i zero size e = omega arith
tagged_after log [] lost i (suc b) size e = omega arith
tagged_after log (p ∷ rest) lost i (suc b) size e =
    let (a, at, shape) = drop-eq-cons log i (omega (arith, ap length e, length-drop i log)) in
    let same : a ≡ p = cc (e, shape) in
    let next : drop (suc i) log ≡ rest = cc (e, shape) in
    elim (dec_lt size (sizeof_signal + length p)) [
      | yes small ↦ subst (Run_of (suc i)) (sym (fitting_none b size p rest small)) (omega arith)
      | no fits ↦ subst (Run_of (suc i)) (sym (fitting_some b size p rest fits)) (
        omega arith,
        ap (get_elem? log) (omega arith) ∙ at ∙ ap some same,
        subst (λ hi. Genuine log (suc i + 1) hi (tagged lost (suc i + 1) ps)) (omega arith)
            (subst (λ j. Genuine log j (suc (suc i) + length ps) (tagged lost j ps)) (omega arith)
              (tagged_after log rest lost (suc i) b size next)),
      )
    ]
  where
    ps : List (List ℕ)
    ps = fitting b size rest

    Run_of : ℕ → List (List ℕ) → Type 0
    Run_of id ps = Genuine log id (id + length ps) (tagged lost id ps)

pub tagged-Genuine :
    (log : List (List ℕ)) (lost id budget size : ℕ)
    → 0 < id
    → let ps = fitting budget size (drop (id - 1) log) in
      Genuine log id (id + length ps) (tagged lost id ps)
tagged-Genuine log lost id budget size low =
    subst (λ j. Genuine log j (j + length ps) (tagged lost j ps)) (omega (arith, low))
      (tagged_after log (drop (id - 1) log) lost (id - 1) budget size refl)
  where
    ps : List (List ℕ)
    ps = fitting budget size (drop (id - 1) log)

-- The fields of the signals that are replied fit their types.
pub tagged-IsSent :
    (ps : List (List ℕ)) (lost id : ℕ)
    → All IsSized ps
    → lost < 2 ^ 32
    → id + length ps < 2 ^ 64
    → All IsSent (tagged lost id ps)
tagged-IsSent [] lost id sized few below = tt
tagged-IsSent (p ∷ ps) lost id (small, sized) few below = (
  record { lost_fits = few; id_fits = omega (arith, below); size_fits = small; sized = refl },
  tagged-IsSent ps lost (id + 1) sized few (omega (arith, below)),
)

length-sent_bytes : (sent : List Sent) → length sent ≤ length (sent_bytes sent)
length-sent_bytes [] = omega arith
length-sent_bytes ((h, p) ∷ sent) =
    omega (arith, length-append p (sent_bytes sent), length-sent_bytes sent)

-- A subscriber's loop, with as many rounds as the reply has bytes, reads all its signals.
pub read_back :
    (sent : List Sent)
    → All IsSent sent
    → read_signals (length (sent_bytes sent)) (sent_bytes sent) ≡ some sent
read_back sent fits =
    read_signals-sent_bytes (length (sent_bytes sent)) sent fits (length-sent_bytes sent)

pub All-fitting :
    (b size : ℕ) (ps : List (List ℕ)) → All IsSized ps → All IsSized (fitting b size ps)
unfolding fitting
All-fitting zero size ps h = tt
All-fitting (suc b) size [] h = tt
All-fitting (suc b) size (p ∷ ps) (small, h) = ground (arith, All-fitting b size ps h, small)
