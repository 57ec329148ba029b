-- ===== src/Run/Seats.antt =====
-- Where the subscribers of a channel stand, and which operations move them.
use sigfs.Base.{
  subst, ℕ, zero, suc, ◌≡◌, refl, ap, ◌∙◌, List, [], ◌∷◌, ◌++◌, Option, none, some, arith, ◌==◌,
  if◌then◌else◌, Option-cases, inl, inr, drop,
}
use sigfs.Common.{sub_u64, sigfs_payload_size}
use sigfs.Fuse.{Call}
use sigfs.Subscriber.{Subscriber}
use sigfs.Queue
use sigfs.Channel
use sigfs.Channel.{
  PolledSubscriber, Channel, attach, fresh, find, store, remove, queue_read_ready, notify,
  queue_signal,
}
use sigfs.Channel.Notifiers.{
  IsConsistent, find-id, find-store_same, find-store_ne, find-remove_same, find-remove_ne,
  notify-none, notify-some, ready_id, queue_signal-IsConsistent,
}
use sigfs.Write.Replies.{do_write_cases}
use sigfs.Write.Replies.{write_loop_round}
use sigfs.Write.{WriteEnd, payload_size_at, write_loop, do_write}

-- The Subscriber of the PolledSubscriber at an address.
abbrev pub seat : ℕ → List PolledSubscriber → Option Subscriber
seat id subs = elim (find id subs) [ none ↦ none | some s ↦ some s.subscriber ]

ready_subscriber : (s : PolledSubscriber) → (queue_read_ready s).0.subscriber ≡ s.subscriber
unfolding queue_read_ready
ready_subscriber s = ground arith

-- A change that keeps the subscriber's address.
pub seat-store :
    (id : ℕ) (t s : PolledSubscriber) (ss : List PolledSubscriber)
    → find t.subscriber.sub_id ss ≡ some s
    → seat id (store t ss) ≡ (if t.subscriber.sub_id == id then some t.subscriber else seat id ss)
seat-store id t s ss e = ground (arith, find-store_same t s ss e, find-store_ne id t ss)

pub seat-remove :
    (id k : ℕ) (ss : List PolledSubscriber)
    → seat id (remove k ss) ≡ (if k == id then none else seat id ss)
seat-remove id k ss = ground (arith, find-remove_same id ss, find-remove_ne id k ss)

notified-seat :
    (id k : ℕ) (s : PolledSubscriber) (ss : List PolledSubscriber)
    → find k ss ≡ some s
    → seat id (store (queue_read_ready s).0 ss) ≡ seat id ss
notified-seat id k s ss e = ground (
  arith,
  seat-store id (queue_read_ready s).0 s ss
      (ap (λ i. find i ss) (ready_id s ∙ find-id k s ss e) ∙ e),
  ready_subscriber s,
  ready_id s,
  find-id k s ss e,
  e,
)

notify-seat :
    (id : ℕ) (ids : List ℕ) (ss : List PolledSubscriber) → seat id (notify ids ss).0 ≡ seat id ss
unfolding notify
notify-seat id [] ss = refl
notify-seat id (k ∷ ids) ss = elim (Option-cases (find k ss)) [
  | inl e ↦ ap (λ r. seat id r.0) (notify-none k ids ss e) ∙ notify-seat id ids ss
  | inr (s, e) ↦
      ap (λ r. seat id r.0) (notify-some k ids s ss e)
      ∙ notify-seat id ids (store (queue_read_ready s).0 ss)
      ∙ notified-seat id k s ss e
]

queue_signal-seat :
    (id : ℕ) (ch : Channel) (src : List ℕ) (n : ℕ)
    → seat id (queue_signal ch src n).0.subscribers ≡ seat id ch.subscribers
unfolding queue_signal Queue.queue_signal
queue_signal-seat id ch src n = notify-seat id ch.queue.read_notifiers ch.subscribers

next_sub_id-queue_signal :
    (ch : Channel) (src : List ℕ) (n : ℕ) → (queue_signal ch src n).0.next_sub_id ≡ ch.next_sub_id
unfolding queue_signal
next_sub_id-queue_signal ch src n = refl

-- What a write leaves alone.
abbrev pub Undisturbed : Channel → Channel → Type 0
Undisturbed ch ch' =
    ((id : ℕ) → seat id ch'.subscribers ≡ seat id ch.subscribers)
    × (ch'.next_sub_id ≡ ch.next_sub_id)
    × IsConsistent ch'

write_loop_empty :
    (remaining : ℕ) (buffer : List ℕ) (ch : Channel) (calls : List Call)
    → write_loop 0 remaining buffer ch calls ≡ none
unfolding write_loop
write_loop_empty remaining buffer ch calls = refl

write_loop-Undisturbed :
    (fuel remaining : ℕ) (buffer : List ℕ) (ch : Channel) (calls : List Call) (end : WriteEnd)
    (ch' : Channel) (calls' : List Call)
    → IsConsistent ch
    → write_loop fuel remaining buffer ch calls ≡ some (end, ch', calls')
    → Undisturbed ch ch'
write_loop-Undisturbed zero remaining buffer ch calls end ch' calls' h e =
    cc (e, write_loop_empty remaining buffer ch calls)
write_loop-Undisturbed (suc fuel) remaining buffer ch calls end ch' calls' h e =
    elim (write_loop_round fuel remaining buffer ch calls end ch' calls' e) [
      | inl (same, silent) ↦ subst (Undisturbed ch) same (λ id. refl, refl, h)
      | inr more ↦
          let n = payload_size_at buffer in
          let (ch1, calls1) = Channel.queue_signal ch (drop 4 buffer) n in
          let (seats, next, consistent) =
            write_loop-Undisturbed fuel (sub_u64 remaining (sigfs_payload_size n))
              (drop (sigfs_payload_size n) buffer) ch1 (calls ++ calls1) end ch' calls'
              (queue_signal-IsConsistent ch (drop 4 buffer) n h) more in
          (
            λ id. seats id ∙ queue_signal-seat id ch (drop 4 buffer) n,
            next ∙ next_sub_id-queue_signal ch (drop 4 buffer) n,
            consistent,
          )
    ]

-- A write moves no subscriber, and leaves the notification list right.
pub do_write-Undisturbed :
    (ch : Channel) (buffer : List ℕ) (size : ℕ) (ch' : Channel) (calls : List Call)
    → IsConsistent ch
    → do_write ch buffer size ≡ some (ch', calls)
    → Undisturbed ch ch'
do_write-Undisturbed ch buffer size ch' calls h e =
    let (end, calls', run, replied) = do_write_cases ch buffer size ch' calls e in
    write_loop-Undisturbed (suc size) size buffer ch [] end ch' calls' h run
