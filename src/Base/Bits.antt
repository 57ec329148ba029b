-- ===== src/Base/Bits.antt =====
-- Laws of `bit_and` at variables: masks of ones, and the test for a power of two by the
-- predecessor.
use Prim.Native.Nat.{
  ℕ, zero, suc, ◌+◌, ◌-◌, ◌*◌, ◌/◌, ◌%◌, ◌^◌, ◌≤◌, ◌<◌, min, bit_and, digits, bit_and-bitwise,
}
use mathlib.Core.Path.{◌≡◌, refl, sym, ap, ◌∙◌}
use mathlib.Core.Logic.{◌≢◌}
use native.Mathlib.Omega.{arith}
use native.Mathlib.Decide.{ℕ_discrete}
use native.Mathlib.Nat.{pow-suc, mod-lt, mod_self, mod-eq_of_lt, div-add-mod, mul-add-mod_self_left}

-- Induction on a number by its half.
half_induction_to {ℓ} :
    {P : ℕ → Type ℓ} → P 0 → ((x : ℕ) → 0 < x → P (x / 2) → P x) → (top x : ℕ) → x ≤ top → P x
half_induction_to base next top zero h = base
half_induction_to base next zero (suc x) h = absurd (omega arith)
half_induction_to base next (suc top) (suc x) h =
    next (suc x) (omega arith) (half_induction_to base next top (suc x / 2) (omega arith))

half_induction {ℓ} : {P : ℕ → Type ℓ} → P 0 → ((x : ℕ) → 0 < x → P (x / 2) → P x) → (x : ℕ) → P x
half_induction base next x = half_induction_to base next x x (omega arith)

-- The bits that two numbers share, with at most `rounds` of them looked at.
abbrev shared : ℕ → ℕ → ℕ → ℕ
shared rounds x y = digits (λ t. zero) min rounds x y

-- A round beyond the bits of the first number finds nothing.
shared_idle : (rounds x y : ℕ) → x ≤ rounds → shared (suc rounds) x y ≡ shared rounds x y
shared_idle zero zero y le = refl
shared_idle zero (suc x) y le = absurd (omega arith)
shared_idle (suc r) zero y le = refl
shared_idle (suc r) (suc x) y le = omega (arith, shared_idle r (suc x / 2) (y / 2) (omega arith))

shared_idle_many :
    (more rounds x y : ℕ) → x ≤ rounds → shared (more + rounds) x y ≡ shared rounds x y
shared_idle_many zero rounds x y le = ap (λ r. shared r x y) (omega arith)
shared_idle_many (suc more) rounds x y le =
    let one_more : suc more + rounds ≡ suc (more + rounds) = omega arith in
    ap (λ r. shared r x y) one_more
    ∙ shared_idle (more + rounds) x y (omega arith)
    ∙ shared_idle_many more rounds x y le

none_shared : (y : ℕ) → bit_and 0 y ≡ 0
none_shared = bit_and-bitwise 0

-- The lowest digit, and the rest.
bit_and-halves : (a b : ℕ) → bit_and a b ≡ bit_and (a / 2) (b / 2) * 2 + min (a % 2) (b % 2)
bit_and-halves zero b = omega (arith, none_shared b, none_shared (b / 2))
bit_and-halves (suc a) b =
    let half : ℕ = suc a / 2 in
    let spare : shared a half (b / 2) ≡ shared half half (b / 2) =
      ap (λ r. shared r half (b / 2)) (omega arith)
      ∙ shared_idle_many (a - half) half half (b / 2) (omega arith) in
    omega (arith, spare, bit_and-bitwise half (b / 2), bit_and-bitwise (suc a) b)

shared_with_zero : (x : ℕ) → bit_and x 0 ≡ 0
shared_with_zero =
    half_induction {P = λ x. bit_and x 0 ≡ 0} refl
      (λ x pos below. omega (arith, bit_and-halves x 0, below))

shared_with_self : (x : ℕ) → bit_and x x ≡ x
shared_with_self =
    half_induction {P = λ x. bit_and x x ≡ x} refl
      (λ x pos below. omega (arith, bit_and-halves x x, below))

pow-pos : (k : ℕ) → 0 < 2 ^ k
pow-pos zero = omega arith
pow-pos (suc k) = omega (arith, pow-suc 2 k, pow-pos k)

mod_of_split : (m q r : ℕ) → r < m → (m * q + r) % m ≡ r
mod_of_split m q r h = mul-add-mod_self_left m q r ∙ mod-eq_of_lt h

-- The remainder by twice a number, digit by digit.
mod-double : (a m : ℕ) → 0 < m → a % (m * 2) ≡ a / 2 % m * 2 + a % 2
mod-double a m h =
    ap (λ t. t % (m * 2)) (sym split) ∙ mod_of_split (m * 2) (a / 2 / m) rest (omega (arith, low))
  where
    rest : ℕ
    rest = a / 2 % m * 2 + a % 2

    low : a / 2 % m < m
    low = mod-lt (a / 2) h

    split : m * 2 * (a / 2 / m) + rest ≡ a
    split = grind (arith, div-add-mod (a / 2) m)

half_mask : (k : ℕ) → (2 ^ suc k - 1) / 2 ≡ 2 ^ k - 1
half_mask k = omega (arith, pow-suc 2 k, pow-pos k)

odd_mask : (k : ℕ) → (2 ^ suc k - 1) % 2 ≡ 1
odd_mask k = omega (arith, pow-suc 2 k, pow-pos k)

-- x & (2^k - 1) is x % 2^k.
pub bit_and-mask : (k x : ℕ) → bit_and x (2 ^ k - 1) ≡ x % 2 ^ k
bit_and-mask zero x = omega (arith, shared_with_zero x)
bit_and-mask (suc k) x = omega (
  arith,
  bit_and-halves x (2 ^ suc k - 1),
  bit_and-mask k (x / 2),
  ap (bit_and (x / 2)) (half_mask k),
  odd_mask k,
  ap (λ t. x % t) (pow-suc 2 k),
  mod-double x (2 ^ k) (pow-pos k),
)

pred_half :
    (a : ℕ) → a % 2 ≡ 0 → 0 < a → bit_and (a / 2) ((a - 1) / 2) ≡ bit_and (a / 2) (a / 2 - 1)
pred_half a h p = ap (bit_and (a / 2)) (omega arith)

pred_odd : (a : ℕ) → a % 2 ≢ 0 → bit_and (a / 2) ((a - 1) / 2) ≡ bit_and (a / 2) (a / 2)
pred_odd a h = ap (bit_and (a / 2)) (omega arith)

-- A positive number that shares no bit with its predecessor is a power of two.
pub pow_of_bit_and : (a : ℕ) → 0 < a → bit_and a (a - 1) ≡ 0 → (k : ℕ) × (a ≡ 2 ^ k)
pow_of_bit_and =
    half_induction {P = λ a. 0 < a → bit_and a (a - 1) ≡ 0 → (k : ℕ) × (a ≡ 2 ^ k)}
      (λ pos e. absurd (omega (arith, pos)))
      (λ a pos below pos' e. elim (ℕ_discrete (a % 2) 0) [
        | yes even ↦
            let (k, q) =
              below (omega (arith, even, pos))
                (omega (arith, e, bit_and-halves a (a - 1), pred_half a even pos)) in
            (suc k, omega (arith, q, even, pow-suc 2 k))
        | no odd ↦ (
          0,
          omega (arith, e, odd, bit_and-halves a (a - 1), pred_odd a odd, shared_with_self (a / 2)),
        )
      ])

-- And the other way round.
pub bit_and-pow : (k : ℕ) → bit_and (2 ^ k) (2 ^ k - 1) ≡ 0
bit_and-pow k = omega (arith, bit_and-mask k (2 ^ k), mod_self (2 ^ k))
