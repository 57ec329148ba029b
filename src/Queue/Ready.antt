-- ===== src/Queue/Ready.antt =====
-- When a reader finds a signal. A reader at position s of a queue with n signals waits for signal
-- s; the slot that it looks at also holds signals s + slots, s + 2 * slots, and so on.
use native.Mathlib.Nat.{mod-lt, mod-le}
use sigfs.Base.{
  ℕ, ◌+◌, ◌-◌, ◌%◌, ◌≤◌, ◌<◌, ◌≡◌, ◌≢◌, ◌↔◌, sym, ap, ◌∙◌, true, false, List, arith, length,
  drop-eq-cons, subst,
}
use sigfs.Base.Modulo.{mod-ne_of_near, sub-mod-zero, mod-eq_of_sub-mod, mod-sub-mod}
use sigfs.Subscriber.{Subscriber}
use sigfs.Queue.{Queue, slot, index, signal_available}
use sigfs.Queue.Dequeue.{check}
use sigfs.Queue.Ring.{index-mod}
use sigfs.Queue.History.{Retains, oldest}

module _ (log : List (List ℕ)) (q : Queue) (holds : Retains log q) where
  open holds use {ring, head_at, tail_at, head_nil, retained}

  abbrev slots : ℕ
  slots = length q.queue

  abbrev count : ℕ
  count = length log

  head-ne-tail : 0 < count → q.head ≢ q.tail
  head-ne-tail h e =
      mod-ne_of_near slots (oldest slots count) (count + 1) (ground (arith, ring.at_least))
        (ground (arith, ring.at_least)) (sym tail_at ∙ sym e ∙ head_at)

  -- A retained signal is in its slot, under its id.
  pub retained_id :
      (id : ℕ) → oldest slots count ≤ id → id ≤ count → 0 < id → (slot q (id % slots)).sig_id ≡ id
  retained_id id h k p =
      let (bytes, e, _) = drop-eq-cons log (id - 1) (omega arith) in
      subst (λ t. (slot q (t % slots)).sig_id ≡ t) shift (retained (id - 1) bytes e (omega arith)).0
    where
      shift : id - 1 + 1 ≡ id
      shift = omega arith

  -- How far the reader's position is from the next signal, modulo the number of slots.
  abbrev phase : Subscriber → ℕ
  phase sub = (count + 1 - sub.sig_id) % slots

  module _ (sub : Subscriber) (low : 0 < sub.sig_id) (high : sub.sig_id ≤ count + 1) where
    phase_bounds : (phase sub + sub.sig_id ≤ count + 1) × (phase sub < slots)
    phase_bounds = (
      omega (arith, mod-le (count + 1 - sub.sig_id) slots),
      mod-lt (count + 1 - sub.sig_id) (omega (arith, ring.at_least)),
    )

    index_of_phase_zero : phase sub ≡ 0 → index q sub.sig_id ≡ q.head
    index_of_phase_zero e =
        index-mod ring sub.sig_id
        ∙ mod-eq_of_sub-mod slots sub.sig_id (count + 1) high e
        ∙ sym head_at

    phase_of_index : index q sub.sig_id ≡ q.head → phase sub ≡ 0
    phase_of_index e =
        sub-mod-zero slots sub.sig_id (count + 1) (omega (arith, ring.at_least)) high
          (sym (index-mod ring sub.sig_id) ∙ e ∙ head_at)

    slot_of_phase_zero : phase sub ≡ 0 → (slot q (index q sub.sig_id)).sig_id ≡ 0
    slot_of_phase_zero e = ap (λ t. (slot q t).sig_id) (index_of_phase_zero e) ∙ head_nil

    -- Otherwise the slot holds a retained signal that is not older than the position.
    slot_of_phase : phase sub ≢ 0 → (slot q (index q sub.sig_id)).sig_id ≡ count + 1 - phase sub
    slot_of_phase e =
        ap (λ t. (slot q t).sig_id)
          (index-mod ring sub.sig_id ∙ sym (mod-sub-mod slots sub.sig_id (count + 1) high))
        ∙ retained_id (count + 1 - phase sub) (ground (arith, phase_bounds))
            (omega (arith, phase_bounds)) (omega (arith, phase_bounds))

    -- On a queue that retains a history, for a reader that stands between signal 1 and the signal
    -- after the last: signal_available is true exactly if the reader's distance from the next
    -- signal is no multiple of the number of slots.
    pub signal_available_iff : (signal_available q sub ≡ true) ↔ (phase sub ≢ 0)
    unfolding signal_available
    signal_available_iff =
        ground (arith, index_of_phase_zero, phase_of_index, head-ne-tail, phase_bounds)

    -- On a queue that retains a history, for a reader that is not interrupted and stands between
    -- signal 1 and the signal after the last: the condition that dequeue_signal waits for holds
    -- exactly if the reader's distance from the next signal is no multiple of the number of slots.
    pub check_iff : sub.interrupted ≡ false → (check q sub ≡ true) ↔ (phase sub ≢ 0)
    unfolding check
    check_iff e = ground (arith, slot_of_phase_zero, slot_of_phase, head-ne-tail, phase_bounds)
