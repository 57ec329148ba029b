-- ===== src/Queue/History.antt =====
-- The abstract view of a queue: all payloads that were ever published to it, oldest first. The
-- signal at position i has id i + 1. Of n signals a ring of `slots` slots keeps the last slots -
-- 1, since the head slot is always free.
use sigfs.Base.{
  ℕ, ◌+◌, ◌-◌, ◌%◌, ◌^◌, ◌≤◌, ◌<◌, ◌≡◌, List, some, ltb, if◌then◌else◌, length, get_elem?,
}
use sigfs.Signal.Memory.{Stores}
use sigfs.Queue.{Queue, slot}
use sigfs.Queue.Ring.{IsRing}

-- The id of the oldest signal retained, or of the first to come.
abbrev pub oldest : ℕ → ℕ → ℕ
oldest slots n = if ltb n slots then 1 else n + 2 - slots

-- The ring represents the history: counters, and each retained signal in its slot.
pub record Retains (log : List (List ℕ)) (q : Queue) : Type 0 where
  pub ring : IsRing q
  pub few : length log + 1 < 2 ^ 32
  pub next_id : q.next_sig_id ≡ length log + 1
  pub head_at : q.head ≡ (length log + 1) % length q.queue
  pub tail_at : q.tail ≡ oldest (length q.queue) (length log) % length q.queue
  pub head_nil : (slot q q.head).sig_id ≡ 0
  pub retained :
      (i : ℕ) (bytes : List ℕ)
      → get_elem? log i ≡ some bytes
      → oldest (length q.queue) (length log) ≤ i + 1
      → Stores (slot q ((i + 1) % length q.queue)) (i + 1) bytes
