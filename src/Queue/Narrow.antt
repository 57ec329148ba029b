-- ===== src/Queue/Narrow.antt =====
-- The ids of the slots are kept as id_t, of 32 bits, the positions of the readers as signal_id_t, of
-- 64 bits.
use sigfs.Base.{
  ℕ, zero, suc, ◌^◌, bit_and, not, if◌then◌else◌, ◌≤◌, ◌<◌, ◌≡◌, sym, ap, subst, false, List, [],
  ◌∷◌, some, arith, length, set, get_or, replicate,
}
use sigfs.Signal
use sigfs.Signal.{Signal}
use sigfs.Subscriber.{Subscriber}
use sigfs.Queue.{Queue, init, slot, store_signal}
use sigfs.Queue.Create.{init-eq-some}
use sigfs.Queue.Runs.{publish_all}
use sigfs.Queue.Dequeue.{Callback, check, dequeue_interrupted, dequeue_ready, dequeue_signal, waits}

abbrev IsNarrow : List Signal → Type 0
IsNarrow ss = (i : ℕ) → (get_or ss i Signal.init).sig_id < 2 ^ 32

set-IsNarrow :
    (ss : List Signal) (k : ℕ) (s : Signal)
    → IsNarrow ss
    → s.sig_id < 2 ^ 32
    → IsNarrow (set ss k s)
set-IsNarrow [] k s h small i = h i
set-IsNarrow (t ∷ ss) zero s h small zero = small
set-IsNarrow (t ∷ ss) zero s h small (suc i) = h (suc i)
set-IsNarrow (t ∷ ss) (suc k) s h small zero = h 0
set-IsNarrow (t ∷ ss) (suc k) s h small (suc i) = set-IsNarrow ss k s (λ j. h (suc j)) small i

set_narrow : (s : Signal) (id n : ℕ) (src : List ℕ) → (Signal.set s id src n).sig_id < 2 ^ 32
unfolding Signal.set
set_narrow s id n src = omega arith

nil_narrow : (s : Signal) → (Signal.set_sig_id s 0).sig_id < 2 ^ 32
unfolding Signal.set_sig_id
nil_narrow s = omega arith

store_signal-IsNarrow :
    (q : Queue) (src : List ℕ) (n : ℕ) → IsNarrow q.queue → IsNarrow (store_signal q src n).queue
unfolding store_signal
store_signal-IsNarrow q src n h =
    set-IsNarrow _ _ _
      (set-IsNarrow q.queue q.head _ h (set_narrow (slot q q.head) q.next_sig_id n src))
      (nil_narrow _)

publish_all-IsNarrow :
    (ps : List (List ℕ)) (q : Queue) → IsNarrow q.queue → IsNarrow (publish_all q ps).queue
unfolding publish_all
publish_all-IsNarrow [] q h = h
publish_all-IsNarrow (p ∷ ps) q h =
    publish_all-IsNarrow ps (store_signal q p (length p)) (store_signal-IsNarrow q p (length p) h)

empty-IsNarrow : (n : ℕ) → IsNarrow (replicate n Signal.init)
empty-IsNarrow zero i = omega arith
empty-IsNarrow (suc n) zero = omega arith
empty-IsNarrow (suc n) (suc i) = empty-IsNarrow n i

check_narrow :
    (q : Queue) (sub : Subscriber)
    → IsNarrow q.queue
    → 2 ^ 32 ≤ sub.sig_id
    → sub.interrupted ≡ false
    → check q sub ≡ false
unfolding check
check_narrow q sub h far quiet = ground (arith, h (bit_and sub.sig_id q.queue_mask))

-- A reader that has come to signal 2^32, or beyond, and is not interrupted, waits: whatever was
-- published to the queue since it was created, however much, dequeue_signal does not return to it.
pub dequeue_signal_truncated {ℓ} :
    {C : Type ℓ} (n : ℕ) {q : Queue} (ps : List (List ℕ)) (sub : Subscriber) (cb : Callback C)
    (c : C)
    → init n ≡ some q
    → 2 ^ 32 ≤ sub.sig_id
    → sub.interrupted ≡ false
    → dequeue_signal cb (publish_all q ps) sub c ≡ waits
unfolding dequeue_signal
dequeue_signal_truncated n {q} ps sub cb c made far quiet =
    ap
      (λ b.
        if not b
        then waits
        else if sub.interrupted
        then dequeue_interrupted cb ring sub c
        else dequeue_ready cb ring sub c)
      (check_narrow ring sub narrow far quiet)
  where
    ring : Queue
    ring = publish_all q ps

    narrow : IsNarrow ring.queue
    narrow =
        publish_all-IsNarrow ps q
          (subst (λ t. IsNarrow t.queue) (sym (init-eq-some n made).2) (empty-IsNarrow n))
