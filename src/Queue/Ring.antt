-- ===== src/Queue/Ring.antt =====
-- Indices of a ring with a power of two of slots: the mask, and the remainder by their number.
use sigfs.Base.{ℕ, ◌+◌, ◌-◌, ◌%◌, ◌^◌, ◌≤◌, ◌<◌, ◌≡◌, sym, ◌∙◌, ap, arith, length, bit_and}
use sigfs.Base.Bits.{bit_and-mask}
use sigfs.Signal.Memory.{IsAllocated}
use sigfs.Common.{to_u32}
use sigfs.Queue.{Queue, slot, index, next}

-- What the constructor sets up and no operation changes.
pub record IsRing (q : Queue) : Type 0 where
  pub bits : ℕ
  pub size : length q.queue ≡ 2 ^ bits
  pub mask : q.queue_mask ≡ 2 ^ bits - 1
  pub at_least : 4 ≤ length q.queue
  pub fits : length q.queue < 2 ^ 32
  pub allocated : (i : ℕ) → IsAllocated (slot q i)

pub index-mod : {q : Queue} → IsRing q → (id : ℕ) → index q id ≡ id % length q.queue
unfolding index
index-mod r id = ap (bit_and id) r.mask ∙ bit_and-mask r.bits id ∙ ap (λ t. id % t) (sym r.size)

pub next-mod :
    {q : Queue} → IsRing q → (i : ℕ) → i < length q.queue → next q i ≡ (i + 1) % length q.queue
unfolding next index
next-mod {q} r i h = ap (λ t. bit_and t q.queue_mask) no_wrap ∙ index-mod r (i + 1)
  where
    no_wrap : to_u32 (i + 1) ≡ i + 1
    no_wrap = omega (arith, r.fits)
