-- ===== src/Base/Modulo.antt =====
-- Remainders by a variable: how the indices of a ring of n slots move.
use Prim.Native.Nat.{ℕ, ◌+◌, ◌-◌, ◌/◌, ◌%◌, ◌≤◌, ◌<◌}
use mathlib.Core.Path.{◌≡◌, sym, ap, ◌∙◌}
use mathlib.Core.Logic.{◌≢◌}
use native.Mathlib.Omega.{arith}
use native.Mathlib.Nat.{div-add-mod, mod-add-mod, mod-lt, mod-le, add-mul-mod_self_left}
use native.Mathlib.Decide.{ℕ_discrete}

-- Two numbers less than n apart that leave the same remainder are equal.
pub mod-ne_of_near : (n i j : ℕ) → i < j → j < i + n → i % n ≢ j % n
mod-ne_of_near n i j h k e = grind (arith, div-add-mod i n, div-add-mod j n)

pub suc-mod : (n i : ℕ) → (i % n + 1) % n ≡ (i + 1) % n
suc-mod n i = mod-add-mod i n 1

-- A number leaves the same remainder as one that lies a multiple of n above it.
pub mod-eq_of_sub-mod : (n i j : ℕ) → i ≤ j → (j - i) % n ≡ 0 → i % n ≡ j % n
mod-eq_of_sub-mod n i j h e =
    sym (add-mul-mod_self_left i n ((j - i) / n))
    ∙ ap (λ t. t % n) (omega (arith, div-add-mod (j - i) n))

-- The number that lies (j - i) % n below j leaves the remainder of i.
pub mod-sub-mod : (n i j : ℕ) → i ≤ j → (j - (j - i) % n) % n ≡ i % n
mod-sub-mod n i j h =
    ap (λ t. t % n) (omega (arith, div-add-mod (j - i) n)) ∙ add-mul-mod_self_left i n ((j - i) / n)

-- The difference of two numbers that leave the same remainder leaves none.
pub sub-mod-zero : (n i j : ℕ) → 0 < n → i ≤ j → i % n ≡ j % n → (j - i) % n ≡ 0
sub-mod-zero n i j p h e = elim (ℕ_discrete ((j - i) % n) 0) [
  | yes z ↦ z
  | no z ↦ absurd (
      mod-ne_of_near n (j - (j - i) % n) j (omega (arith, mod-le (j - i) n))
        (omega (arith, mod-lt (j - i) p, mod-le (j - i) n)) (mod-sub-mod n i j h ∙ e))
]
