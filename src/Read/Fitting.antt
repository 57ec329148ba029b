-- ===== src/Read/Fitting.antt =====
-- The signals that one read replies, of those that are pending, and the headers that they get.
use sigfs.Base.{
  ℕ, zero, suc, ◌+◌, ◌<◌, ◌≡◌, refl, ap, ◌∙◌, List, [], ◌∷◌, ◌++◌, arith, length, ltb, lt→ltb,
  not_lt→ltb, if◌then◌else◌, drop,
}
use sigfs.Common.{sizeof_signal}
use sigfs.Read.Gathering.{Sent}

-- The signals of a run that are replied, at most `budget` of them. Each is tested on its own.
unfoldable pub fitting : ℕ → ℕ → List (List ℕ) → List (List ℕ)
fitting zero size rest = []
fitting (suc budget) size [] = []
fitting (suc budget) size (p ∷ rest) =
    let more = fitting budget size rest in
    if ltb size (sizeof_signal + length p) then [] else p ∷ more

pub fitting_none :
    (b size : ℕ) (p : List ℕ) (rest : List (List ℕ))
    → size < sizeof_signal + length p
    → fitting (suc b) size (p ∷ rest) ≡ []
unfolding fitting
fitting_none b size p rest h = rw (lt→ltb size (sizeof_signal + length p) h)

pub fitting_some :
    (b size : ℕ) (p : List ℕ) (rest : List (List ℕ))
    → ¬ (size < sizeof_signal + length p)
    → fitting (suc b) size (p ∷ rest) ≡ p ∷ fitting b size rest
unfolding fitting
fitting_some b size p rest h = rw (not_lt→ltb size (sizeof_signal + length p) h)

pub fitting_zero : (size : ℕ) (rest : List (List ℕ)) → fitting 0 size rest ≡ []
unfolding fitting
fitting_zero size rest = refl

pub fitting-nil : (b size : ℕ) → fitting b size [] ≡ []
unfolding fitting
fitting-nil zero size = refl
fitting-nil (suc b) size = refl

-- With their headers, from an id on.
abbrev pub tagged : ℕ → ℕ → List (List ℕ) → List Sent
tagged lost id [] = []
tagged lost id (p ∷ ps) =
    (record { lost_signals = lost; signal_id = id; payload_size = length p }, p)
    ∷ tagged lost (id + 1) ps

pub fitting-prefix :
    (b size : ℕ) (ps : List (List ℕ))
    → fitting b size ps ++ drop (length (fitting b size ps)) ps ≡ ps
unfolding fitting
fitting-prefix zero size ps = refl
fitting-prefix (suc b) size [] = refl
fitting-prefix (suc b) size (p ∷ ps) = ground (arith, fitting-prefix b size ps)

pub tagged-append :
    (lost id : ℕ) (ps rs : List (List ℕ))
    → tagged lost id (ps ++ rs) ≡ tagged lost id ps ++ tagged lost (id + length ps) rs
tagged-append lost id [] rs = ap (λ i. tagged lost i rs) (omega arith)
tagged-append lost id (p ∷ ps) rs =
    ap (λ t. (record { lost_signals = lost; signal_id = id; payload_size = length p }, p) ∷ t)
      (tagged-append lost (id + 1) ps rs
        ∙ ap (λ i. tagged lost (id + 1) ps ++ tagged lost i rs) (omega arith))
