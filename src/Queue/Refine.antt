-- ===== src/Queue/Refine.antt =====
-- The whole of dequeue_signal, against what the history delivers.
use native.Mathlib.Nat.{mod-eq_of_lt}
use native.Mathlib.Decide.{dec_lt, ℕ_discrete}
use sigfs.Base.{
  ==_iff, ==_ne, ◌==◌, if◌then◌else◌, ℕ, ◌+◌, ◌-◌, ◌%◌, ◌≤◌, ◌<◌, ◌≡◌, ◌≢◌, ap, ◌∙◌, true, false,
  List, arith, length, drop, Bool-cases, inl, inr, max,
}
use sigfs.Subscriber
use sigfs.Subscriber.{Subscriber}
use sigfs.Queue.{Queue, tail_sig_id, slot}
use sigfs.Queue.Dequeue.{check, Callback, returns, waits, catch_up, dequeue_ready, dequeue_signal}
use sigfs.Queue.History.{Retains, oldest}
use sigfs.Queue.Deliver.{KeepsPosition, deliver, deliver_from}
use sigfs.Queue.Loop.{dequeue_loop_lem, finish}
use sigfs.Queue.Ready.{retained_id, check_iff}

module _ (log : List (List ℕ)) (q : Queue) (holds : Retains log q) where
  open holds use {ring, few, next_id, head_at, tail_at, head_nil, retained}

  abbrev slots : ℕ
  slots = length q.queue

  abbrev count : ℕ
  count = length log

  tail_id : 0 < count → tail_sig_id q ≡ oldest slots count
  unfolding tail_sig_id
  tail_id h =
      ap (λ t. (slot q t).sig_id) tail_at
      ∙ retained_id log q holds (oldest slots count) (omega arith) (ground (arith, ring.at_least))
          (ground (arith, ring.at_least))

  catch_up_lem :
      (sub : Subscriber)
      → 0 < count
      → sub.sig_id ≤ count
      → let start = max sub.sig_id (oldest slots count) in
        catch_up q sub ≡ (Subscriber.set_sig_id sub start, start - sub.sig_id)
  unfolding catch_up Subscriber.set_sig_id
  catch_up_lem sub h k = ground (arith, tail_id h, few)

  module _ {ℓ} {C : Type ℓ} (cb : Callback C) (keeps : KeepsPosition cb) where
    dequeue_ready_lem :
        (sub : Subscriber) (c : C)
        → 0 < sub.sig_id
        → sub.sig_id ≤ count
        → let (sub', c') = deliver_from cb slots log sub c in
          dequeue_ready cb q sub c ≡ returns true sub' c'
    unfolding dequeue_ready deliver_from Subscriber.set_sig_id
    dequeue_ready_lem sub c low k = rw (catch_up_lem sub (omega arith) k) (
        dequeue_loop_lem log q holds cb keeps (start - sub.sig_id) slots (start - 1)
          (Subscriber.set_sig_id sub start) c (ground arith) (ground arith)
          (ground (arith, ring.at_least)) (ground (arith, ring.at_least))
        ∙ ap
            (λ t. finish log q holds cb keeps (start - sub.sig_id) (
              deliver cb (start - sub.sig_id) t (drop (start - 1) log)
                (Subscriber.set_sig_id sub start) c))
            (ground arith))
      where
        start : ℕ
        start = max sub.sig_id (oldest slots count)

    -- On a queue that retains a history, with a callback that leaves the reader's position alone,
    -- for a reader that is not interrupted and stands between signal 1 and the signal after the
    -- last: dequeue_signal waits if the reader is a multiple of the number of slots behind the next
    -- signal, and else returns true, with what the history delivers from the reader's position, or
    -- from the oldest signal retained if that is later. Its loop never runs out of fuel.
    pub dequeue_signal_lem :
        (sub : Subscriber) (c : C)
        → 0 < sub.sig_id
        → sub.sig_id ≤ count + 1
        → sub.interrupted ≡ false
        → let (sub', c') = deliver_from cb slots log sub c in
          dequeue_signal cb q sub c
          ≡ (if (count + 1 - sub.sig_id) % slots == 0 then waits else returns true sub' c')
    unfolding dequeue_signal
    dequeue_signal_lem sub c low high e = elim (ℕ_discrete phase 0) [
      | yes z ↦ rw (not_ready z, (==_iff phase 0).1 z)
      | no z ↦ rw (==_ne z) (simp (ready z, e) (dequeue_ready_lem sub c low (below z)))
    ]
      where
        phase : ℕ
        phase = (count + 1 - sub.sig_id) % slots

        ready : phase ≢ 0 → check q sub ≡ true
        ready = (check_iff log q holds sub low high e).1

        not_ready : phase ≡ 0 → check q sub ≡ false
        not_ready z = elim (Bool-cases (check q sub)) [
          | inl wakes ↦ absurd ((check_iff log q holds sub low high e).0 wakes z)
          | inr sleeps ↦ sleeps
        ]

        below : phase ≢ 0 → sub.sig_id ≤ count
        below z = elim (dec_lt count sub.sig_id) [
          | yes end ↦ absurd (
              z (
                ap (λ t. t % slots) (omega arith)
                ∙ mod-eq_of_lt {n = 0} {m = slots} (omega (arith, ring.at_least))))
          | no inside ↦ omega arith
        ]
