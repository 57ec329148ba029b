-- ===== src/Run/Life.antt =====
-- The state of the channel in every run of a file.
use sigfs.Base.{
  inl, inr, ℕ, ◌+◌, ◌^◌, ◌<◌, ◌≡◌, refl, sym, ap, ◌∙◌, subst, List, ◌++◌, Option, some, arith,
  length, All, length-append,
}
use sigfs.Wire.{payloads_bytes}
use sigfs.Fuse.{Call}
use sigfs.Subscriber
use sigfs.Subscriber.{Subscriber}
use sigfs.Queue.{Queue, init}
use sigfs.Queue.History.{Retains}
use sigfs.Queue.Runs.{IsSized}
use sigfs.Channel.{PolledSubscriber, Channel, find, store}
use sigfs.Queue
use sigfs.Write.{WriteEnd, do_write}
use sigfs.Write.Records.{Ends, do_write_records}
use sigfs.Poll.{do_poll}
use sigfs.Read.{replied, do_read, read_interrupt}
use sigfs.Read.Gathering.{Sent}
use sigfs.Run.{Run, create, open_file, release, write, poll, poll_late, interrupt, read}
use sigfs.Run.Answers.{read_moves}
use sigfs.Run.Seats.{seat, do_write-Undisturbed}
use sigfs.Run.Sound.{
  IsSound, created-IsSound, attach-IsSound, do_release-IsSound, write-IsSound, store-IsSound,
  do_poll_cases, remember-IsSound,
}

-- A write in a run, by what it left.
run_write-IsSound :
    (log ps : List (List ℕ)) (ch ch' : Channel) (tail : List ℕ) (end : WriteEnd) (calls : List Call)
    → IsSound log ch
    → All IsSized ps
    → Ends tail end
    → length (log ++ ps) + 1 < 2 ^ 32
    → do_write ch (payloads_bytes ps ++ tail) (length (payloads_bytes ps ++ tail))
      ≡ some (ch', calls)
    → IsSound (log ++ ps) ch'
run_write-IsSound log ps ch ch' tail end calls h sized ends few e =
    let (ch1, calls1, run, holds) =
      do_write_records ps tail end log ch h.holds sized (omega (arith, few, length-append log ps))
        ends in
    let same : ch1 ≡ ch' = cc (e, run) in
    write-IsSound log ps ch ch' h sized (subst (λ c. Retains (log ++ ps) c.queue) same holds)
      (do_write-Undisturbed ch (payloads_bytes ps ++ tail) _ ch' calls h.consistent e)

pub seat-find :
    (ss : List PolledSubscriber) (s : PolledSubscriber)
    → find s.subscriber.sub_id ss ≡ some s
    → seat s.subscriber.sub_id ss ≡ some s.subscriber
seat-find ss s e = rw (seat, e) refl

do_poll-IsSound :
    (log : List (List ℕ)) (ch : Channel) (sub : PolledSubscriber) (events : ℕ) (ph : Option ℕ)
    → IsSound log ch
    → find sub.subscriber.sub_id ch.subscribers ≡ some sub
    → IsSound log (do_poll ch sub events ph).0
do_poll-IsSound log ch sub events ph h live = elim (do_poll_cases ch sub events ph) [
  | inl same ↦ subst (IsSound log) (sym same) h
  | inr later ↦ subst (IsSound log) (sym later) (remember-IsSound log ch sub events ph h live)
]

interrupt-IsSound :
    (log : List (List ℕ)) (ch : Channel) (sub : PolledSubscriber)
    → IsSound log ch
    → find sub.subscriber.sub_id ch.subscribers ≡ some sub
    → IsSound log (record ch { subscribers = store (read_interrupt ch sub) ch.subscribers })
unfolding read_interrupt Queue.interrupt_dequeue Subscriber.set_interrupted
interrupt-IsSound log ch sub h live =
    let here = h.placed sub.subscriber.sub_id sub.subscriber (seat-find ch.subscribers sub live) in
    store-IsSound log ch sub (read_interrupt ch sub) h live refl
      (record { low = here.low; high = here.high })

read-IsSound :
    (log : List (List ℕ)) (ch : Channel) (sub sub' : PolledSubscriber) (size : ℕ)
    (calls : List Call)
    → IsSound log ch
    → find sub.subscriber.sub_id ch.subscribers ≡ some sub
    → (do_read ch sub size).1 ≡ replied sub' calls
    → IsSound log (record ch { subscribers = store sub' ch.subscribers })
read-IsSound log ch sub sub' size calls h live e =
    let here = h.placed sub.subscriber.sub_id sub.subscriber (seat-find ch.subscribers sub live) in
    let (placed, same, events) = read_moves log ch sub sub' size calls h.holds here e in
    store-IsSound log ch sub sub' h (ap (λ i. find i ch.subscribers) same ∙ live) events placed

-- After every handler of a run of a file with fewer than 2^32 slots, whose handlers do not overlap,
-- though a signal may be published between the two halves of a poll, as long as fewer than 2^32 - 1
-- signals were published: the queue retains what the writes published, the notification list holds
-- the live subscribers that poll for POLLIN and no others, every subscriber stands at a signal of
-- the history or at the next one, and every payload has a size below 2^32.
pub Run-IsSound :
    (n k : ℕ) {log : List (List ℕ)} {ch : Channel} {got : List Sent}
    → Run n k log ch got
    → n < 2 ^ 32
    → length log + 1 < 2 ^ 32
    → IsSound log ch
Run-IsSound n k (create q made) small few = created-IsSound n q small made
Run-IsSound n k (open_file {log} {ch} r) small few =
    attach-IsSound log ch (Run-IsSound n k r small few)
Run-IsSound n k (release {log} {ch} r id) small few =
    do_release-IsSound log ch id (Run-IsSound n k r small few)
Run-IsSound n k (write {log} {ch} r ps tail end ch' calls sized ends e) small few =
    run_write-IsSound log ps ch ch' tail end calls
      (Run-IsSound n k r small (omega (arith, few, length-append log ps))) sized ends few e
Run-IsSound n k (poll {log} {ch} r sub events ph live) small few =
    do_poll-IsSound log ch sub events ph (Run-IsSound n k r small few) live
Run-IsSound n k (poll_late {log} {ch} r sub events ph live) small few =
    remember-IsSound log ch sub events ph (Run-IsSound n k r small few) live
Run-IsSound n k (interrupt {log} {ch} r sub live) small few =
    interrupt-IsSound log ch sub (Run-IsSound n k r small few) live
Run-IsSound n k (read {log} {ch} r sub sub' size calls live e) small few =
    read-IsSound log ch sub sub' size calls (Run-IsSound n k r small few) live e
