-- ===== src/Run/Handles.antt =====
-- Poll handles in the runs of a file: each belongs to one owner at most.
use sigfs.Base.{
  ℕ, ◌+◌, ◌^◌, ◌≤◌, ◌<◌, ◌≡◌, ap, List, [], ◌++◌, false, some, arith, length, length-append, inl,
  inr,
}
use sigfs.Wire.{payloads_bytes}
use sigfs.Fuse.{Call}
use sigfs.Subscriber
use sigfs.Channel.{PolledSubscriber, Channel, attach, fresh, find, store}
use sigfs.Open.{do_release}
use sigfs.Poll.{do_poll, remember}
use sigfs.Poll.Handles.{
  held, stored, destroyed, destroyed-append, stored-store, stored-remove, remember-handles,
  do_poll-handles, do_write-handles,
}
use sigfs.Queue
use sigfs.Read.{replied, do_read, read_interrupt}
use sigfs.Read.Gathering.{Sent}
use sigfs.Run.{Run, create, open_file, release, write, poll, poll_late, interrupt, read}
use sigfs.Run.Answers.{read_cases}
use sigfs.Read.Serve.{first, served}
use sigfs.Run.Sound.{IsSound}
use sigfs.Run.Life.{Run-IsSound, seat-find}

-- How often libfuse gave a handle to a poll in a run, and the calls that the handlers made.
unfoldable pub given :
    {n k : ℕ} {log : List (List ℕ)} {ch : Channel} {got : List Sent} → ℕ → Run n k log ch got → ℕ
given h (create q e) = 0
given h (open_file r) = given h r
given h (release r id) = given h r
given h (write r ps tail end ch' calls sized ends e) = given h r
given h (poll r sub events ph live) = given h r + held h ph
given h (poll_late r sub events ph live) = given h r + held h ph
given h (interrupt r sub live) = given h r
given h (read r sub sub' size calls live e) = given h r

unfoldable pub made :
    {n k : ℕ} {log : List (List ℕ)} {ch : Channel} {got : List Sent}
    → Run n k log ch got
    → List Call
made (create q e) = []
made (open_file r) = made r
made (release r id) = made r
made (write r ps tail end ch' calls sized ends e) = made r ++ calls
made (poll {ch = ch} r sub events ph live) = made r ++ (do_poll ch sub events ph).1
made (poll_late {ch = ch} r sub events ph live) = made r ++ (remember ch sub events ph).1
made (interrupt r sub live) = made r
made (read {ch = ch} r sub sub' size calls live e) = made r ++ ((do_read ch sub size).0 ++ calls)

-- A read leaves the handle with its subscriber, and destroys none.
read-handles :
    (h : ℕ) (log : List (List ℕ)) (ch : Channel) (sub sub' : PolledSubscriber) (size : ℕ)
    (calls : List Call)
    → IsSound log ch
    → find sub.subscriber.sub_id ch.subscribers ≡ some sub
    → (do_read ch sub size).1 ≡ replied sub' calls
    → stored h (store sub' ch.subscribers) + destroyed h calls ≡ stored h ch.subscribers
unfolding Subscriber.set_sig_id Subscriber.set_interrupted
read-handles h log ch sub sub' size calls sound live e =
    elim (read_cases log ch sub sub' size calls sound.holds
      (sound.placed sub.subscriber.sub_id sub.subscriber (seat-find ch.subscribers sub live)) e) [
        | inl (same, quiet) ↦ omega (
          arith,
          ap (λ t. stored h (store t ch.subscribers)) same,
          stored-store h (record sub { subscriber = record sub.subscriber { interrupted = false } })
              sub ch.subscribers live,
          ap (destroyed h) quiet,
        )
        | inr (same, quiet) ↦ omega (
          arith,
          ap (λ t. stored h (store t ch.subscribers)) same,
          stored-store h
              (record sub {
                subscriber = record sub.subscriber {
                  sig_id = first log ch sub + length (served log ch sub size);
                };
              })
              sub ch.subscribers live,
          ap (destroyed h) quiet,
        )
      ]

-- In every run of a file with fewer than 2^32 slots, whose handlers do not overlap, though a signal
-- may be published between the two halves of a poll, to which fewer than 2^32 - 1 signals were
-- published: a poll handle is destroyed by the handlers, and stored with subscribers, no more often
-- in all than libfuse gave it to a poll. A handle that was given once is never destroyed twice, nor
-- stored after it was destroyed.
pub Run-handles :
    (n k h : ℕ) {log : List (List ℕ)} {ch : Channel} {got : List Sent}
    → n < 2 ^ 32
    → (r : Run n k log ch got) → length log + 1 < 2 ^ 32
    → destroyed h (made r) + stored h ch.subscribers ≤ given h r
unfolding given made attach fresh do_release read_interrupt do_read Queue.interrupt_dequeue
    Subscriber.set_interrupted
Run-handles n k h small (create q e) few = omega arith
Run-handles n k h small (open_file r) few = omega (arith, Run-handles n k h small r few)
Run-handles n k h small (release {ch = ch} r id) few =
    omega (arith, Run-handles n k h small r few, stored-remove h id ch.subscribers)
Run-handles n k h small (write {log = log} {ch = ch} r ps tail end ch' calls sized ends e) few =
    omega (
      arith,
      Run-handles n k h small r (omega (arith, few, length-append log ps)),
      destroyed-append h (made r) calls,
      do_write-handles h ch (payloads_bytes ps ++ tail) (length (payloads_bytes ps ++ tail)) ch'
          calls e,
    )
Run-handles n k h small (poll {ch = ch} r sub events ph live) few = omega (
  arith,
  Run-handles n k h small r few,
  destroyed-append h (made r) (do_poll ch sub events ph).1,
  do_poll-handles h ch sub events ph live,
)
Run-handles n k h small (poll_late {ch = ch} r sub events ph live) few = omega (
  arith,
  Run-handles n k h small r few,
  destroyed-append h (made r) (remember ch sub events ph).1,
  remember-handles h ch sub events ph live,
)
Run-handles n k h small (interrupt {ch = ch} r sub live) few = omega (
  arith,
  Run-handles n k h small r few,
  stored-store h (read_interrupt ch sub) sub ch.subscribers live,
)
Run-handles n k h small (read {log = log} {ch = ch} r sub sub' size calls live e) few = omega (
  arith,
  Run-handles n k h small r few,
  destroyed-append h (made r) ((do_read ch sub size).0 ++ calls),
  read-handles h log ch sub sub' size calls (Run-IsSound n k r small few) live e,
)
