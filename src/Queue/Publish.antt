-- ===== src/Queue/Publish.antt =====
-- queue_signal, against the history with one more payload.
use native.Mathlib.Nat.{mod-lt, add-mod_right}
use native.Mathlib.Decide.{dec_lt, ℕ_discrete}
use sigfs.Base.{
  ℕ, ◌+◌, ◌-◌, ◌%◌, ◌^◌, ◌≤◌, ◌<◌, ◌≡◌, ◌≢◌, refl, sym, subst, ap, ◌∙◌, List, [], ◌∷◌, ◌++◌, some,
  arith, length, get_elem?, take, get_or, set, length-set, get_or-set_self, get_or-set_ne,
  get_elem?-append_left, get_elem?-snoc, lt_of_get_elem?, length-append,
}
use sigfs.Base.Modulo.{mod-ne_of_near, suc-mod}
use sigfs.Common.{to_u32, to_u64}
use sigfs.Signal
use sigfs.Signal.{Signal}
use sigfs.Signal.Memory.{IsAllocated, Stores, set_fits, set_sig_id-IsAllocated}
use sigfs.Queue.{Queue, slot, next, store_signal}
use sigfs.Queue.Ring.{next-mod}
use sigfs.Queue.History.{Retains, oldest}

module _ (log : List (List ℕ)) (q : Queue) (src : List ℕ) (n : ℕ) (before : Retains log q)
    (small : n < 2 ^ 32) (enough : n ≤ length src) (room : length log + 2 < 2 ^ 32) where
  open before use {ring, next_id, head_at, tail_at, retained}

  abbrev slots : ℕ
  slots = length q.queue

  abbrev count : ℕ
  count = length log

  head_in : q.head < slots
  head_in = rw head_at (mod-lt (count + 1) (omega (arith, ring.at_least)))

  -- The head moves to the slot after the one that is filled.
  new_head : next q q.head ≡ (count + 2) % slots
  new_head =
      next-mod ring q.head head_in
      ∙ ap (λ t. (t + 1) % slots) head_at
      ∙ suc-mod slots (count + 1)
      ∙ ap (λ t. t % slots) (omega arith)

  abbrev filled : Signal
  filled = Signal.set (slot q q.head) q.next_sig_id src n

  abbrev stored : List Signal
  stored = set q.queue q.head filled

  abbrev nil_head : Signal
  nil_head = Signal.set_sig_id (get_or stored (next q q.head) Signal.init) 0

  filled_fits : IsAllocated filled × Stores filled (count + 1) (take n src)
  filled_fits = (fit.0, subst (λ t. Stores filled t (take n src)) id fit.1)
    where
      fit : IsAllocated filled × Stores filled (to_u32 q.next_sig_id) (take n src)
      fit = set_fits q.next_sig_id n src small enough (slot q q.head) (ring.allocated q.head)

      id : to_u32 q.next_sig_id ≡ count + 1
      id = omega (arith, next_id)

  abbrev new_queue : Queue
  new_queue = store_signal q src n

  new_head_in : next q q.head < slots
  new_head_in = rw new_head (mod-lt (count + 2) (omega (arith, ring.at_least)))

  head-ne : q.head ≢ next q q.head
  head-ne e =
      mod-ne_of_near slots (count + 1) (count + 2) (omega arith) (omega (arith, ring.at_least))
        (sym head_at ∙ e ∙ new_head)

  slot_other : (j : ℕ) → q.head ≢ j → next q q.head ≢ j → slot new_queue j ≡ slot q j
  unfolding store_signal
  slot_other j h k =
      get_or-set_ne stored nil_head Signal.init k ∙ get_or-set_ne q.queue filled Signal.init h

  slot-filled : slot new_queue q.head ≡ filled
  unfolding store_signal
  slot-filled =
      get_or-set_ne stored nil_head Signal.init (λ e. head-ne (sym e))
      ∙ get_or-set_self q.queue q.head filled Signal.init head_in

  slot_head : slot new_queue (next q q.head) ≡ Signal.set_sig_id (slot q (next q q.head)) 0
  unfolding store_signal
  slot_head =
      get_or-set_self stored (next q q.head) nil_head Signal.init
        (omega (arith, new_head_in, length-set q.queue q.head filled))
      ∙ ap (λ s. Signal.set_sig_id s 0) (get_or-set_ne q.queue filled Signal.init head-ne)

  length-new : length new_queue.queue ≡ slots
  unfolding store_signal
  length-new = length-set stored (next q q.head) nil_head ∙ length-set q.queue q.head filled

  new-IsAllocated : (j : ℕ) → IsAllocated (slot new_queue j)
  new-IsAllocated j = elim (ℕ_discrete (next q q.head) j) [
    | yes here ↦
        subst (λ t. IsAllocated (slot new_queue t)) here
          (rw slot_head (set_sig_id-IsAllocated _ 0 (ring.allocated (next q q.head))))
    | no away ↦ elim (ℕ_discrete q.head j) [
      | yes e ↦ subst (λ t. IsAllocated (slot new_queue t)) e (rw slot-filled filled_fits.0)
      | no other ↦ rw (slot_other j other away) (ring.allocated j)
    ]
  ]

  abbrev new_log : List (List ℕ)
  new_log = log ++ (take n src ∷ [])

  length-new_log : length new_log ≡ count + 1
  length-new_log = length-append log (take n src ∷ []) ∙ omega arith

  tail_in : q.tail < slots
  tail_in = rw tail_at (mod-lt (oldest slots count) (omega (arith, ring.at_least)))

  oldest_full : slots ≤ count + 1 → oldest slots count + slots ≡ count + 2
  oldest_full h = ground arith

  bumps : slots ≤ count + 1 → next q q.head ≡ q.tail
  bumps h =
      new_head
      ∙ ap (λ t. t % slots) (sym (oldest_full h))
      ∙ add-mod_right (oldest slots count) slots
      ∙ sym tail_at

  misses : count + 1 < slots → next q q.head ≢ q.tail
  misses h e =
      mod-ne_of_near slots 1 (count + 2) (omega arith) (omega arith)
        (ap (λ t. t % slots) one ∙ sym tail_at ∙ sym e ∙ new_head)
    where
      one : 1 ≡ oldest slots count
      one = ground arith

  next_tail : slots ≤ count + 1 → next q q.tail ≡ oldest slots (count + 1) % slots
  next_tail h =
      next-mod ring q.tail tail_in
      ∙ ap (λ t. (t + 1) % slots) tail_at
      ∙ suc-mod slots (oldest slots count)
      ∙ ap (λ t. t % slots) (ground arith)

  still_tail : count + 1 < slots → q.tail ≡ oldest slots (count + 1) % slots
  still_tail h = tail_at ∙ ap (λ t. t % slots) (ground arith)

  -- The tail moves on exactly when the head bumps into it.
  new_tail : new_queue.tail ≡ oldest slots (count + 1) % slots
  unfolding store_signal
  new_tail = ground (arith, bumps, misses, next_tail, still_tail)

  newest :
      (bytes : List ℕ)
      → get_elem? new_log count ≡ some bytes
      → Stores (slot new_queue ((count + 1) % slots)) (count + 1) bytes
  newest bytes e =
      subst (λ j. Stores (slot new_queue j) (count + 1) bytes) head_at
        (rw slot-filled (subst (Stores filled (count + 1)) same filled_fits.1))
    where
      same : take n src ≡ bytes
      same = cc (get_elem?-snoc log (take n src))

  new_retained :
      (i : ℕ) (bytes : List ℕ)
      → get_elem? new_log i ≡ some bytes
      → oldest slots (count + 1) ≤ i + 1
      → Stores (slot new_queue ((i + 1) % slots)) (i + 1) bytes
  new_retained i bytes e h = elim (dec_lt i count) [
    | yes old ↦
        rw
          (slot_other ((i + 1) % slots) (λ t. far1 old (sym t ∙ head_at))
            (λ t. far2 old (sym t ∙ new_head)))
          (retained i bytes (sym (get_elem?-append_left log (take n src ∷ []) i old) ∙ e)
            (ground arith))
    | no new ↦
        subst (λ j. Stores (slot new_queue ((j + 1) % slots)) (j + 1) bytes) (last new)
          (newest bytes (ap (get_elem? new_log) (last new) ∙ e))
  ]
    where
      last : ¬ (i < count) → count ≡ i
      last new = omega (arith, lt_of_get_elem? new_log i e, length-new_log)

      far1 : i < count → (i + 1) % slots ≢ (count + 1) % slots
      far1 old =
          mod-ne_of_near slots (i + 1) (count + 1) (omega arith) (ground (arith, ring.at_least))

      far2 : i < count → (i + 1) % slots ≢ (count + 2) % slots
      far2 old =
          mod-ne_of_near slots (i + 1) (count + 2) (omega arith) (ground (arith, ring.at_least))

  new_mask : new_queue.queue_mask ≡ 2 ^ ring.bits - 1
  unfolding store_signal
  new_mask = ring.mask

  new_id : new_queue.next_sig_id ≡ to_u64 (q.next_sig_id + 1)
  unfolding store_signal
  new_id = refl

  new_head_eq : new_queue.head ≡ next q q.head
  unfolding store_signal
  new_head_eq = refl

  new_head_at : new_queue.head ≡ (count + 2) % slots
  new_head_at = new_head_eq ∙ new_head

  nil_id : (Signal.set_sig_id (slot q (next q q.head)) 0).sig_id ≡ 0
  unfolding Signal.set_sig_id
  nil_id = refl

  -- queue_signal on a queue that retains a history, with a size below 2^32 that its data has, while
  -- fewer than 2^32 - 2 signals were published: the new queue retains the history with the first
  -- `n` bytes of the data at its end.
  pub store_signal-Retains : Retains new_log new_queue
  store_signal-Retains = record {
    ring = record {
      bits = ring.bits;
      size = length-new ∙ ring.size;
      mask = new_mask;
      at_least = rw length-new ring.at_least;
      fits = rw length-new ring.fits;
      allocated = new-IsAllocated;
    };
    few = rw length-new_log (omega arith);
    next_id = rw length-new_log (new_id ∙ omega (arith, next_id));
    head_at = rw (length-new, length-new_log) (new_head_at ∙ ap (λ t. t % slots) (omega arith));
    tail_at = rw (length-new, length-new_log) new_tail;
    head_nil = rw (new_head_eq, slot_head) nil_id;
    retained = rw (length-new, length-new_log) new_retained;
  }
