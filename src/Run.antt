-- ===== src/Run.antt =====
-- The life of a file: its queue is created, and then programs open it, write to it, poll it, read
-- it, are interrupted and close it, in any order. A run is a sequence of handlers that do not
-- overlap: each ends, with its reply, before the next begins. Runs in which several threads are
-- inside handlers of one file at once are left out, but for these. A poll that finds no signal
-- subscribes under another lock than it looked: `poll` is one that was not disturbed between the
-- two, and `poll_late` is the second half of one that was. A read that waits changes nothing; it is
-- answered by a later step. A write of several records, between which others get the lock, changes
-- the channel as writes of one record each do.
pub mod Seats
pub mod Answers
pub mod Sound
pub mod Received
pub mod Life
pub mod Reading
pub mod Delivery
pub mod Drain
pub mod EndToEnd
pub mod Handles
pub mod Leak
use sigfs.Base.{ℕ, ◌≡◌, List, [], ◌∷◌, ◌++◌, Option, none, some, ◌==◌, if◌then◌else◌, length, All}
use sigfs.Wire.{payloads_bytes}
use sigfs.Fuse.{Call, reply_iov}
use sigfs.Queue.{Queue, init}
use sigfs.Queue.Runs.{IsSized}
use sigfs.Channel.{PolledSubscriber, Channel, attach, find, store}
use sigfs.Open.{do_release}
use sigfs.Write.{WriteEnd, do_write}
use sigfs.Write.Records.{Ends}
use sigfs.Poll.{do_poll, remember}
use sigfs.Read.{replied, do_read, read_interrupt}
use sigfs.Read.Gathering.{Sent}
use sigfs.Client.{read_signals}

abbrev pub created : Queue → Channel
created q = record { queue = q; subscribers = []; next_sub_id = 0 }

-- What a program reads from the replies among a handler's calls, with the subscriber's own loop.
abbrev pub received : List Call → List Sent
received [] = []
received (reply_iov bytes ∷ calls) =
    elim (read_signals (length bytes) bytes) [ none ↦ [] | some sent ↦ sent ] ++ received calls
received (_ ∷ calls) = received calls

-- The runs of a file with `n` slots, by what was published, the channel reached, and what the
-- subscriber `k` has read so far. A buffer that is written is given as its records and what follows.
pub data Run (n k : ℕ) : List (List ℕ) → Channel → List Sent → Type 0 where
  create : (q : Queue) → init n ≡ some q → Run n k [] (created q) []
  open_file :
      {log : List (List ℕ)} {ch : Channel} {got : List Sent}
      → Run n k log ch got
      → Run n k log (attach ch) got
  release :
      {log : List (List ℕ)} {ch : Channel} {got : List Sent}
      → Run n k log ch got
      → (id : ℕ) → Run n k log (do_release ch id) got
  write :
      {log : List (List ℕ)} {ch : Channel} {got : List Sent}
      → Run n k log ch got
      → (ps : List (List ℕ)) (tail : List ℕ) (end : WriteEnd) (ch' : Channel) (calls : List Call)
      → All IsSized ps
      → Ends tail end
      → do_write ch (payloads_bytes ps ++ tail) (length (payloads_bytes ps ++ tail))
        ≡ some (ch', calls)
      → Run n k (log ++ ps) ch' got
  poll :
      {log : List (List ℕ)} {ch : Channel} {got : List Sent}
      → Run n k log ch got
      → (sub : PolledSubscriber) (events : ℕ) (ph : Option ℕ)
      → find sub.subscriber.sub_id ch.subscribers ≡ some sub
      → Run n k log (do_poll ch sub events ph).0 got
  poll_late :
      {log : List (List ℕ)} {ch : Channel} {got : List Sent}
      → Run n k log ch got
      → (sub : PolledSubscriber) (events : ℕ) (ph : Option ℕ)
      → find sub.subscriber.sub_id ch.subscribers ≡ some sub
      → Run n k log (remember ch sub events ph).0 got
  interrupt :
      {log : List (List ℕ)} {ch : Channel} {got : List Sent}
      → Run n k log ch got
      → (sub : PolledSubscriber) → find sub.subscriber.sub_id ch.subscribers ≡ some sub
      → Run n k log (record ch { subscribers = store (read_interrupt ch sub) ch.subscribers }) got
  read :
      {log : List (List ℕ)} {ch : Channel} {got : List Sent}
      → Run n k log ch got
      → (sub sub' : PolledSubscriber) (size : ℕ) (calls : List Call)
      → find sub.subscriber.sub_id ch.subscribers ≡ some sub
      → (do_read ch sub size).1 ≡ replied sub' calls
      → Run n k log
          (record ch { subscribers = store sub' ch.subscribers })
          (if sub.subscriber.sub_id == k then got ++ received calls else got)
