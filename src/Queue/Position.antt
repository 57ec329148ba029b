-- ===== src/Queue/Position.antt =====
-- Where readers stand, and what dequeue_signal does for one that keeps up and for one that fell
-- behind.
use native.Mathlib.Nat.{mod-eq_of_lt, mul-mod_left}
use sigfs.Base.{
  if◌then◌else◌, ==_iff, ==_ne, ℕ, ◌+◌, ◌-◌, ◌*◌, ◌%◌, ◌≤◌, ◌<◌, ◌≡◌, ◌≢◌, ap, ◌∙◌, true, false,
  List, arith, length, drop,
}
use sigfs.Subscriber
use sigfs.Subscriber.{Subscriber}
use sigfs.Queue.{Queue, signal_available, initialize_subscriber}
use sigfs.Queue.Dequeue.{Callback, waits, returns, check, dequeue_signal}
use sigfs.Queue.History.{Retains, oldest}
use sigfs.Queue.Deliver.{KeepsPosition, deliver, deliver_from}
use sigfs.Queue.Loop.{available_at_end}
use sigfs.Queue.Ready.{signal_available_iff, check_iff}
use sigfs.Queue.Refine.{dequeue_signal_lem}

-- The position is between 1 and the id of the next signal.
pub record IsPlaced (log : List (List ℕ)) (sub : Subscriber) : Type 0 where
  pub low : 0 < sub.sig_id
  pub high : sub.sig_id ≤ length log + 1

module _ (log : List (List ℕ)) (q : Queue) (holds : Retains log q) where
  abbrev slots : ℕ
  slots = length q.queue

  -- On a queue that retains a history, a new subscriber stands at the signal after the last, so
  -- that no signal is available to it yet.
  pub initialize_subscriber-IsPlaced :
      (sub : Subscriber)
      → IsPlaced log (initialize_subscriber q sub)
        × ((initialize_subscriber q sub).sig_id ≡ length log + 1)
        × (signal_available q (initialize_subscriber q sub) ≡ false)
  unfolding initialize_subscriber Subscriber.set_sig_id
  initialize_subscriber-IsPlaced sub = (
    record { low = omega (arith, holds.next_id); high = omega (arith, holds.next_id) },
    holds.next_id,
    available_at_end log q holds (record sub { sig_id = q.next_sig_id }) holds.next_id,
  )

  module _ (sub : Subscriber) (placed : IsPlaced log sub) (quiet : sub.interrupted ≡ false) where
    -- On a queue that retains a history, for a reader that is not interrupted and stands between
    -- signal 1 and the signal after the last: what poll(2) reports and what read(2) waits for
    -- agree.
    signal_available-eq-check : signal_available q sub ≡ check q sub
    signal_available-eq-check = ground (
      arith,
      signal_available_iff log q holds sub placed.low placed.high,
      check_iff log q holds sub placed.low placed.high quiet,
    )

    module _ {ℓ} {C : Type ℓ} (cb : Callback C) (keeps : KeepsPosition cb) (c : C) where
      -- On a queue that retains a history, with a callback that leaves the reader's position alone,
      -- for a reader that is not interrupted, at a signal that was published and is still retained:
      -- dequeue_signal delivers every signal from the reader's position on, in order, with no
      -- signal reported lost, until the callback stops it.
      pub dequeue_signal_in_order :
          oldest slots (length log) ≤ sub.sig_id
          → sub.sig_id ≤ length log
          → let (sub', c') = deliver cb 0 sub.sig_id (drop (sub.sig_id - 1) log) sub c in
            dequeue_signal cb q sub c ≡ returns true sub' c'
      unfolding deliver_from Subscriber.set_sig_id
      dequeue_signal_in_order h k =
          dequeue_signal_lem log q holds cb keeps sub c placed.low placed.high quiet
          ∙ ap (λ b. if b then waits else returns true from.0 from.1) (==_ne apart)
          ∙ ap (λ r. returns true r.0 r.1) from_here
        where
          from : Subscriber × C
          from = deliver_from cb slots log sub c

          apart : (length log + 1 - sub.sig_id) % slots ≢ 0
          apart z = absurd (
              omega (
                arith,
                z,
                mod-eq_of_lt {n = length log + 1 - sub.sig_id} {m = slots}
                    (ground (arith, holds.ring.at_least)),
              ))

          from_here :
              deliver_from cb slots log sub c
              ≡ deliver cb 0 sub.sig_id (drop (sub.sig_id - 1) log) sub c
          from_here =
              ap
                (λ t.
                  deliver cb (t - sub.sig_id) t (drop (t - 1) log) (Subscriber.set_sig_id sub t) c)
                (omega arith)
              ∙ ap
                  (λ t.
                    deliver cb t sub.sig_id (drop (sub.sig_id - 1) log)
                      (Subscriber.set_sig_id sub sub.sig_id) c)
                  (omega arith)

      -- On a queue that retains a history, for a reader that is not interrupted and stands one or
      -- more whole rings behind the next signal: dequeue_signal waits and no signal is reported
      -- available, though the ring is full of signals that the reader has not read.
      pub dequeue_signal_stalls :
          (laps : ℕ)
          → 0 < laps
          → sub.sig_id + laps * slots ≡ length log + 1
          → (dequeue_signal cb q sub c ≡ waits)
            × (signal_available q sub ≡ false)
            × (oldest slots (length log) + (slots - 1) ≡ length log + 1)
            × (sub.sig_id < oldest slots (length log))
      dequeue_signal_stalls laps p e = (
        dequeue_signal_lem log q holds cb keeps sub c placed.low placed.high quiet
            ∙ rw ((==_iff _ 0).1 at_head),
        unavailable,
        ground (arith, holds.ring.at_least, lap),
        ground (arith, holds.ring.at_least, lap, placed.low),
      )
        where
          at_head : (length log + 1 - sub.sig_id) % slots ≡ 0
          at_head = ap (λ t. t % slots) (omega (arith, e)) ∙ mul-mod_left laps slots

          lap : slots ≤ laps * slots
          lap = grind arith

          unavailable : signal_available q sub ≡ false
          unavailable =
              ground
                (arith, (signal_available_iff log q holds sub placed.low placed.high).0, at_head)
