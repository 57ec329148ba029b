-- ===== src/Tests/Channels.antt =====
-- The handlers of a channel on small inputs: polling, closing, writing and reading back.
use sigfs.Base.{ℕ, ◌+◌, ◌≤◌, ◌≡◌, refl, List, [], ◌∷◌, ◌++◌, some, arith, true, false, All}
use sigfs.Fuse.{Call}
use sigfs.Wire.{payloads_bytes}
use sigfs.Wire.Bytes.{IsByte}
use sigfs.Subscriber
use sigfs.Queue.{signal_available}
use sigfs.Queue.History.{Retains}
use sigfs.Queue.Runs.{IsSized}
use sigfs.Channel
use sigfs.Channel.{Channel, PolledSubscriber, has_pollin, find}
use sigfs.Poll.{remember, do_poll}
use sigfs.Poll.Race.{poll_race}
use sigfs.Poll.Wakeup.{Notifies, do_poll_wakes}
use sigfs.Client.{read_signals}
use sigfs.Client.Parse.{IsSent, read_signals-sent_bytes}
use sigfs.Read.Gathering.{Sent, sent_bytes}
use sigfs.Write.{WriteEnd, do_write}
use sigfs.Write.Records.{Ends, reply_of}
use sigfs.Write.Split.{do_write_lem}
use sigfs.Run.Sound.{IsSound}
use sigfs.Run.{Run, poll, release}
use sigfs.Open.{do_release}
use sigfs.Run.Leak.{release_leaks}
use sigfs.Poll.Handles.{stored, destroyed}
use sigfs.Run.Handles.{given, made, Run-handles}
use sigfs.Run.Life.{Run-IsSound}
use sigfs.Tests.Runs.{given_opened, opened, run_opened, subscriber}

pub opened-IsSound : IsSound [] opened
opened-IsSound = Run-IsSound 4 0 run_opened (omega arith) (omega arith)

live : find 0 opened.subscribers ≡ some subscriber
unfolding find Channel.attach Subscriber.set_sig_id
live = refl

wants : has_pollin 1 ≡ true
unfolding has_pollin
wants = refl

empty : signal_available opened.queue subscriber.subscriber ≡ false
unfolding signal_available Channel.attach
empty = refl

do_poll_wakes_example :
    Notifies 33 (Channel.queue_signal (do_poll opened subscriber 1 (some 33)).0 (60 ∷ []) 1).1
do_poll_wakes_example =
    do_poll_wakes opened subscriber 1 33 (60 ∷ []) 1 opened-IsSound.consistent live wants empty

idle : has_pollin subscriber.poll_events ≡ false
unfolding has_pollin
idle = refl

poll_race_example :
    (signal_available opened.queue subscriber.subscriber ≡ false)
    × (find 0 (Channel.queue_signal opened (60 ∷ []) 1).0.subscribers ≡ some subscriber)
    × (signal_available
          (remember (Channel.queue_signal opened (60 ∷ []) 1).0 subscriber 1 (some 33)).0.queue
          subscriber.subscriber
        ≡ true)
    × (find 0
          (remember
            (Channel.queue_signal opened (60 ∷ []) 1).0
            subscriber
            1
            (some 33)).0.subscribers
        ≡ some (record subscriber { poll_handle = some 33; poll_events = 1 }))
poll_race_example =
    poll_race [] opened subscriber 1 33 (60 ∷ []) 1 opened-IsSound.holds opened-IsSound.consistent
      live idle refl (omega arith) (omega arith) (omega arith)

abbrev two_sent : List Sent
two_sent =
    (record { lost_signals = 2; signal_id = 3; payload_size = 1 }, 30 ∷ [])
    ∷ (record { lost_signals = 2; signal_id = 4; payload_size = 0 }, [])
    ∷ []

two_sent-IsSent : All IsSent two_sent
two_sent-IsSent = (
  record { lost_fits = omega arith; id_fits = omega arith; size_fits = omega arith; sized = refl },
  (
    record {
      lost_fits = omega arith;
      id_fits = omega arith;
      size_fits = omega arith;
      sized = refl;
    },
    tt,
  ),
)

read_signals-sent_bytes_example : read_signals 2 (sent_bytes two_sent) ≡ some two_sent
read_signals-sent_bytes_example = read_signals-sent_bytes 2 two_sent two_sent-IsSent (omega arith)

-- A record of one byte, and the first half of a header.
abbrev cut_short : List ℕ
cut_short = 1 ∷ 0 ∷ 0 ∷ 0 ∷ 60 ∷ 7 ∷ 0 ∷ []

cut_short_bytes : All IsByte cut_short
cut_short_bytes = (
  omega arith,
  (omega arith, (omega arith, (omega arith, (omega arith, (omega arith, (omega arith, tt)))))),
)

do_write_lem_example :
    (ps : List (List ℕ)) × (tail : List ℕ) × (end : WriteEnd) × (ch' : Channel) × (calls : List
      Call)
    × (cut_short ≡ payloads_bytes ps ++ tail)
    × All IsSized ps
    × Ends tail end
    × (do_write opened cut_short 7 ≡ some (ch', calls ++ (reply_of end 7 ∷ [])))
    × Retains ps ch'.queue
do_write_lem_example =
    do_write_lem [] opened cut_short opened-IsSound.holds cut_short_bytes (omega arith)

run_polled : Run 4 0 [] (do_poll opened subscriber 1 (some 33)).0 []
run_polled = poll run_opened subscriber 1 (some 33) live

Run-handles_example :
    destroyed 33 (made run_polled) + stored 33 (do_poll opened subscriber 1 (some 33)).0.subscribers
    ≤ given 33 run_polled
Run-handles_example = Run-handles 4 0 33 (omega arith) run_polled (omega arith)

-- The handle is with the subscriber when its file is closed.
abbrev waiting_for : PolledSubscriber
waiting_for = record subscriber { poll_handle = some 33; poll_events = 1 }

waiting_live : find 0 (do_poll opened subscriber 1 (some 33)).0.subscribers ≡ some waiting_for
unfolding find Channel.attach Subscriber.set_sig_id do_poll remember
waiting_live = refl

given_once : given 33 run_polled ≡ 1
unfolding given run_polled
given_once = omega (arith, given_opened)

release_leaks_example :
    (destroyed 33 (made (release run_polled 0)) ≡ 0)
    × (stored 33 (do_release (do_poll opened subscriber 1 (some 33)).0 0).subscribers ≡ 0)
release_leaks_example =
    release_leaks 4 0 33 0 waiting_for (omega arith) run_polled (omega arith) given_once
      waiting_live refl

-- The subscriber polls with the handle 33, when a writer and two more polls come at once.
abbrev polling : Channel
polling = (do_poll opened subscriber 1 (some 33)).0
