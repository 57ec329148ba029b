-- ===== src/Tests.antt =====
-- Runs of the model on small inputs: the theorems of the library at a ring of four slots, to which
-- five signals were published.
pub mod Runs
pub mod Channels
pub mod Files
pub mod Texts
pub mod Programs
use sigfs.Base.{
  if◌then◌else◌, ◌==◌, ℕ, ◌+◌, ◌-◌, ◌%◌, ◌^◌, ◌≤◌, ◌<◌, ◌≡◌, ◌≢◌, ◌↔◌, refl, sym, ap, ◌∙◌, true,
  false, List, [], ◌∷◌, ◌++◌, none, some, arith, length, drop, take, All,
}
use sigfs.Signal
use sigfs.Signal.{Signal}
use sigfs.Signal.Memory.{IsAllocated, Stores, set_fits, init-IsAllocated}
use sigfs.Subscriber
use sigfs.Subscriber.{Subscriber}
use sigfs.Wire.{payloads_bytes}
use sigfs.Fuse.{Call, req_interrupt_func, reply_iov, reply_write, reply_err, einval, eintr}
use sigfs.Queue.{
  Queue, empty_ring, init, next, store_signal, signal_available, initialize_subscriber,
}
use sigfs.Queue.Create.{init_iff, init-Retains}
use sigfs.Queue.History.{Retains, oldest}
use sigfs.Queue.Publish.{store_signal-Retains}
use sigfs.Queue.Runs.{IsSized, publish_all, publish_all-Retains}
use sigfs.Queue.Ready.{signal_available_iff, check_iff}
use sigfs.Queue.Dequeue.{returns, waits, check, dequeue_signal}
use sigfs.Queue.Deliver.{deliver, deliver_from}
use sigfs.Queue.Refine.{dequeue_signal_lem}
use sigfs.Queue.Narrow.{dequeue_signal_truncated}
use sigfs.Queue.Position.{
  IsPlaced, initialize_subscriber-IsPlaced, dequeue_signal_in_order, dequeue_signal_stalls,
}
use sigfs.Channel.{Channel, PolledSubscriber}
use sigfs.Write.{unaligned, do_write}
use sigfs.Write.Records.{do_write_records}
use sigfs.Read.{Gather, start, cb, add_signal, iov_bytes, replied, do_read}
use sigfs.Read.Gathering.{Holds, start-Holds, add_signal-Holds, iov_bytes-sent}
use sigfs.Read.Reply.{cb-KeepsPosition}
use sigfs.Read.Serve.{answer, first, served}
use sigfs.Client.{publish_buffer}
use sigfs.Run.EndToEnd.{publish_subscribe}
use sigfs.Run.Drain.{drain, drain_lem}
use sigfs.Read.Limits.{FitsIn, do_read_overflows, do_read_forgets_loss}

abbrev five_signals : List (List ℕ)
five_signals = (10 ∷ []) ∷ (20 ∷ 21 ∷ []) ∷ (30 ∷ []) ∷ (40 ∷ []) ∷ (50 ∷ 51 ∷ 52 ∷ []) ∷ []

five-IsSized : All IsSized five_signals
five-IsSized = (omega arith, (omega arith, (omega arith, (omega arith, (omega arith, tt)))))

init_4 : init 4 ≡ some (empty_ring 4)
unfolding init
init_4 = refl

abbrev ring : Queue
ring = publish_all (empty_ring 4) five_signals

ring_holds : Retains five_signals ring
ring_holds = publish_all-Retains 4 five_signals (omega arith) init_4 five-IsSized (omega arith)

slots_ring : length ring.queue ≡ 4
unfolding publish_all store_signal next
slots_ring = refl

oldest_ring : oldest (length ring.queue) 5 ≡ 3
unfolding publish_all store_signal next
oldest_ring = refl

ready_1 : (6 - 1) % length ring.queue ≢ 0
unfolding publish_all store_signal next
ready_1 e = nonzero (ap (λ k. (6 - 1) % k) (sym slots_ring) ∙ e)
  where
    nonzero : (6 - 1) % 4 ≢ 0
    nonzero f = absurd (omega (arith, f))

abbrev reader : ℕ → Subscriber
reader id = record { sig_id = id; sub_id = 7; interrupted = false }

reader_1-IsPlaced : IsPlaced five_signals (reader 1)
reader_1-IsPlaced = record { low = omega arith; high = omega arith }

reader_2-IsPlaced : IsPlaced five_signals (reader 2)
reader_2-IsPlaced = record { low = omega arith; high = omega arith }

reader_3-IsPlaced : IsPlaced five_signals (reader 3)
reader_3-IsPlaced = record { low = omega arith; high = omega arith }

abbrev file : Channel
file = record { queue = ring; subscribers = []; next_sub_id = 8 }

abbrev polled : ℕ → PolledSubscriber
polled id = record { subscriber = reader id; poll_handle = none; poll_events = 0 }

store_signal-Retains_example :
    Retains (five_signals ++ ((60 ∷ []) ∷ [])) (store_signal ring (60 ∷ 61 ∷ []) 1)
store_signal-Retains_example =
    store_signal-Retains five_signals ring (60 ∷ 61 ∷ []) 1 ring_holds (omega arith) (omega arith)
      (omega arith)

init_iff_example : (init 8 ≢ none) ↔ ((4 ≤ 8) × ((k : ℕ) × (8 ≡ 2 ^ k)))
init_iff_example = init_iff 8

set_fits_example :
    IsAllocated (Signal.set Signal.init 9 (1 ∷ 2 ∷ 3 ∷ []) 2)
    × Stores (Signal.set Signal.init 9 (1 ∷ 2 ∷ 3 ∷ []) 2) 9 (1 ∷ 2 ∷ [])
set_fits_example =
    set_fits 9 2 (1 ∷ 2 ∷ 3 ∷ []) (omega arith) (omega arith) Signal.init init-IsAllocated

-- A reader that lost the first two signals is given the other three.
dequeue_signal_lem_example : dequeue_signal cb ring (reader 1) (start 4096) ≡ (
    if (6 - 1) % length ring.queue == 0
    then waits
    else returns true
        (deliver_from cb (length ring.queue) five_signals (reader 1) (start 4096)).0
        (deliver_from cb (length ring.queue) five_signals (reader 1) (start 4096)).1)
dequeue_signal_lem_example =
    dequeue_signal_lem five_signals ring ring_holds cb cb-KeepsPosition (reader 1) (start 4096)
      (omega arith) (omega arith) refl

-- Two signals behind a full lap, a reader waits.
dequeue_signal_stalls_example :
    (dequeue_signal cb ring (reader 2) (start 4096) ≡ waits)
    × (signal_available ring (reader 2) ≡ false)
    × (oldest (length ring.queue) 5 + (length ring.queue - 1) ≡ 6)
    × (2 < oldest (length ring.queue) 5)
dequeue_signal_stalls_example =
    dequeue_signal_stalls five_signals ring ring_holds (reader 2) reader_2-IsPlaced refl cb
      cb-KeepsPosition (start 4096) 1 (omega arith) (omega (arith, slots_ring))

-- After three signals, a reader that is said to stand at signal 2^32.
dequeue_signal_truncated_example :
    dequeue_signal cb
      (publish_all (empty_ring 4) ((10 ∷ []) ∷ (20 ∷ []) ∷ (30 ∷ []) ∷ []))
      (reader 4294967296)
      (start 64)
    ≡ waits
dequeue_signal_truncated_example =
    dequeue_signal_truncated 4 ((10 ∷ []) ∷ (20 ∷ []) ∷ (30 ∷ []) ∷ []) (reader 4294967296) cb
      (start 64) init_4 (omega arith) refl

-- Signals 3 and 4 take 17 bytes each: a buffer of 20 bytes gets both, and signal 5 too.
pending_1 :
    drop (first five_signals file (polled 1) - 1) five_signals
    ≡ (30 ∷ []) ∷ (40 ∷ []) ∷ (50 ∷ 51 ∷ 52 ∷ []) ∷ []
unfolding publish_all store_signal next
pending_1 = refl

do_read_overflows_example :
    (sub' : PolledSubscriber) × (bytes : List ℕ) × (do_read file (polled 1) 20 ≡ (
      req_interrupt_func (some 7) ∷ [],
      replied sub' (req_interrupt_func none ∷ reply_iov bytes ∷ []),
    ))
    × (20 < length bytes)
do_read_overflows_example =
    do_read_overflows five_signals file ring_holds (polled 1) reader_1-IsPlaced 20 refl ready_1
      (30 ∷ []) (40 ∷ []) ((50 ∷ 51 ∷ 52 ∷ []) ∷ []) pending_1 (omega arith) (omega arith)
      (omega arith)

do_read_forgets_loss_example :
    (do_read file (polled 1) 16 ≡ (
      req_interrupt_func (some 7) ∷ [],
      replied
          (record (polled 1) {
            subscriber = Subscriber.set_sig_id (reader 1) (first five_signals file (polled 1));
          })
          (req_interrupt_func none ∷ reply_iov [] ∷ []),
    ))
    × (do_read file
          (record (polled 1) {
            subscriber = Subscriber.set_sig_id (reader 1) (first five_signals file (polled 1));
          })
          4096
        ≡ (
          req_interrupt_func (some 7) ∷ [],
          answer
              (record (polled 1) {
                subscriber = Subscriber.set_sig_id (reader 1) (first five_signals file (polled 1));
              })
              0
              (first five_signals file (polled 1))
              (served five_signals file (polled 1) 4096),
        ))
do_read_forgets_loss_example =
    do_read_forgets_loss five_signals file ring_holds (polled 1) reader_1-IsPlaced 16 refl ready_1
      (30 ∷ []) ((40 ∷ []) ∷ (50 ∷ 51 ∷ 52 ∷ []) ∷ []) 4096 (omega (arith, oldest_ring)) pending_1
      (omega arith)

fit_64 : All (FitsIn 64) (drop 2 five_signals)
fit_64 = (omega arith, (omega arith, (omega arith, tt)))

-- The three signals that the ring still has, in the reads of a subscriber that stands at the first.
drain_lem_example :
    drain 3 file (polled 3) 64
    ≡ (record { lost_signals = 0; signal_id = 3; payload_size = 1 }, 30 ∷ [])
      ∷ (record { lost_signals = 0; signal_id = 4; payload_size = 1 }, 40 ∷ [])
      ∷ (record { lost_signals = 0; signal_id = 5; payload_size = 3 }, 50 ∷ 51 ∷ 52 ∷ [])
      ∷ []
drain_lem_example =
    drain_lem five_signals file (polled 3) 64 3 ring_holds five-IsSized reader_3-IsPlaced refl
      (omega (arith, oldest_ring)) fit_64 (omega arith)

publish_subscribe_example :
    (ch' : Channel) × (calls : List Call) × (do_write file (1 ∷ 0 ∷ 0 ∷ 0 ∷ 60 ∷ []) 5
      ≡ some (ch', calls ++ (reply_write 5 ∷ [])))
    × (drain 1 ch' (polled 6) 64
        ≡ (record { lost_signals = 0; signal_id = 6; payload_size = 1 }, 60 ∷ []) ∷ [])
unfolding publish_buffer
publish_subscribe_example =
    publish_subscribe five_signals file (polled 6) (60 ∷ []) 64 ring_holds five-IsSized
      (omega arith) (omega arith) refl refl (omega arith)
