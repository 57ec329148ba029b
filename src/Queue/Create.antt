-- ===== src/Queue/Create.antt =====
-- The constructor: the lengths that it accepts, and the history that it starts with.
use native.Mathlib.Nat.{mod-eq_of_lt}
use sigfs.Base.{
  ℕ, ◌-◌, ◌%◌, ◌^◌, ◌≤◌, ◌<◌, ◌≡◌, ◌≢◌, ◌↔◌, refl, sym, ap, ◌∙◌, [], none, some, arith, bit_and,
  length, get_or-replicate, length-replicate, inl, inr, Option-cases,
}
use sigfs.Base.Bits.{pow_of_bit_and, bit_and-pow}
use sigfs.Signal
use sigfs.Signal.Memory.{init-IsAllocated}
use sigfs.Queue.{Queue, slot, init, empty_ring}
use sigfs.Queue.History.{Retains}

pub init-eq-some :
    (n : ℕ) {q : Queue} → init n ≡ some q → (4 ≤ n) × (bit_and n (n - 1) ≡ 0) × (q ≡ empty_ring n)
unfolding init
init-eq-some n e = ground arith

slot-empty_ring : (n i : ℕ) → slot (empty_ring n) i ≡ Signal.init
slot-empty_ring n i = get_or-replicate n i Signal.init

empty_ring-Retains :
    (n : ℕ) → 4 ≤ n → n < 2 ^ 32 → bit_and n (n - 1) ≡ 0 → Retains [] (empty_ring n)
empty_ring-Retains n h small e =
    let (k, p) = pow_of_bit_and n (omega arith) e in
    record {
      ring = record {
        bits = k;
        size = length-replicate n Signal.init ∙ p;
        mask = omega (arith, p);
        at_least = rw (length-replicate n Signal.init) h;
        fits = rw (length-replicate n Signal.init) small;
        allocated = λ i. rw (slot-empty_ring n i) init-IsAllocated;
      };
      few = omega arith;
      next_id = refl;
      head_at =
          rw (length-replicate n Signal.init) (sym (mod-eq_of_lt {n = 1} {m = n} (omega arith)));
      tail_at =
          rw (length-replicate n Signal.init)
            (sym (mod-eq_of_lt {n = 1} {m = n} (omega arith)) ∙ ap (λ t. t % n) (ground arith));
      head_nil = ap (λ s. s.sig_id) (slot-empty_ring n 1);
      retained = λ i bytes f _. cc f;
    }

init_accepts : (n : ℕ) → 4 ≤ n → bit_and n (n - 1) ≡ 0 → init n ≡ some (empty_ring n)
unfolding init
init_accepts n h e = ground arith

-- The constructor of a queue accepts exactly the powers of two from 4 on.
pub init_iff : (n : ℕ) → (init n ≢ none) ↔ ((4 ≤ n) × ((k : ℕ) × (n ≡ 2 ^ k)))
init_iff n = (accepted, λ h e. cc (init_accepts n h.0 (power h.1), e))
  where
    accepted : init n ≢ none → (4 ≤ n) × ((k : ℕ) × (n ≡ 2 ^ k))
    accepted h = elim (Option-cases (init n)) [
      | inl e ↦ absurd (h e)
      | inr (q, e) ↦
          let (big, bits, _) = init-eq-some n e in (big, pow_of_bit_and n (omega arith) bits)
    ]

    power : (k : ℕ) × (n ≡ 2 ^ k) → bit_and n (n - 1) ≡ 0
    power (k, e) = rw e (bit_and-pow k)

-- A queue that was created with fewer than 2^32 slots retains the empty history, and has the length
-- asked for.
pub init-Retains :
    (n : ℕ) {q : Queue} → n < 2 ^ 32 → init n ≡ some q → Retains [] q × (length q.queue ≡ n)
init-Retains n {q} small e =
    let (big, bits, same) = init-eq-some n e in
    rw same (empty_ring-Retains n big small bits, length-replicate n Signal.init)
