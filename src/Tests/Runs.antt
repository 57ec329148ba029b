-- ===== src/Tests/Runs.antt =====
-- A file's life on small inputs: it is opened, written to, polled and read.
use sigfs.Base.{ℕ, ◌≡◌, refl, List, [], ◌∷◌, Option, none, some, arith, false, All}
use sigfs.Signal
use sigfs.Subscriber
use sigfs.Fuse.{Call}
use sigfs.Wire.{payloads_bytes}
use sigfs.Queue
use sigfs.Queue.{Queue, empty_ring, init}
use sigfs.Queue.Runs.{IsSized}
use sigfs.Channel
use sigfs.Channel.{Channel, PolledSubscriber, attach, find, store}
use sigfs.Queue.Dequeue.{check, dequeue_ready, dequeue_signal}
use sigfs.Client.{read_signals}
use sigfs.Write.{complete, do_write}
use sigfs.Read.{replied, waiting, stuck, cb, can_accept, add_signal, do_read}
use sigfs.Run.{Run, create, open_file, write, read, created, received}
use sigfs.Run.Handles.{given}
use sigfs.Run.Sound.{IsSound}
use sigfs.Run.Received.{Genuine}
use sigfs.Run.Life.{Run-IsSound}
use sigfs.Run.Delivery.{Run-Genuine}

abbrev payloads : List (List ℕ)
payloads = (60 ∷ []) ∷ (70 ∷ 71 ∷ []) ∷ []

abbrev pub opened : Channel
opened = attach (created (empty_ring 4))

abbrev outcome : Option (Channel × List Call)
outcome = do_write opened (payloads_bytes payloads) 11

abbrev written : Channel
written = elim outcome [ none ↦ opened | some (ch, calls) ↦ ch ]

abbrev replies : List Call
replies = elim outcome [ none ↦ [] | some (ch, calls) ↦ calls ]

abbrev pub subscriber : PolledSubscriber
subscriber = record {
  subscriber = record { sig_id = 1; sub_id = 0; interrupted = false };
  poll_handle = none;
  poll_events = 0;
}

init_4 : init 4 ≡ some (empty_ring 4)
unfolding init
init_4 = refl

payloads-IsSized : All IsSized payloads
payloads-IsSized = (omega arith, (omega arith, tt))

written_lem : outcome ≡ some (written, replies)
unfolding do_write Channel.queue_signal
written_lem = refl

pub run_opened : Run 4 0 [] opened []
run_opened = open_file (create (empty_ring 4) init_4)

pub given_opened : given 33 run_opened ≡ 0
unfolding given run_opened
given_opened = refl

run_written : Run 4 0 payloads written []
run_written =
    write run_opened payloads [] complete written replies payloads-IsSized refl written_lem

abbrev result : Option (PolledSubscriber × List Call)
result = elim (do_read written subscriber 4096).1 [
  | waiting ↦ none
  | replied s calls ↦ some (s, calls)
  | stuck ↦ none
]

abbrev reader : PolledSubscriber
reader = elim result [ none ↦ subscriber | some (s, calls) ↦ s ]

abbrev read_calls : List Call
read_calls = elim result [ none ↦ [] | some (s, calls) ↦ calls ]

abbrev after_read : Channel
after_read = record written { subscribers = store reader written.subscribers }

read_lem : (do_read written subscriber 4096).1 ≡ replied reader read_calls
unfolding do_read Channel.queue_signal dequeue_signal do_write check Queue.store_signal Queue.next
    attach Signal.set dequeue_ready cb can_accept add_signal Signal.set_sig_id
read_lem = refl

subscriber_live : find subscriber.subscriber.sub_id written.subscribers ≡ some subscriber
unfolding find attach do_write Channel.queue_signal Queue.store_signal Subscriber.set_sig_id
subscriber_live = refl

run_read : Run 4 0 payloads after_read (received read_calls)
run_read = read run_written subscriber reader 4096 read_calls subscriber_live read_lem

-- The subscriber got both signals.
received_lem :
    received read_calls
    ≡ (record { lost_signals = 0; signal_id = 1; payload_size = 1 }, 60 ∷ [])
      ∷ (record { lost_signals = 0; signal_id = 2; payload_size = 2 }, 70 ∷ 71 ∷ [])
      ∷ []
unfolding do_read Channel.queue_signal dequeue_signal do_write read_signals check Queue.store_signal
    Queue.next attach Signal.set dequeue_ready cb can_accept add_signal Signal.set_sig_id
received_lem = refl

Run-Genuine_example : (top : ℕ) × Genuine payloads 1 top (received read_calls)
Run-Genuine_example = Run-Genuine 4 0 run_read (omega arith) (omega arith)

Run-IsSound_example : IsSound payloads after_read
Run-IsSound_example = Run-IsSound 4 0 run_read (omega arith) (omega arith)
