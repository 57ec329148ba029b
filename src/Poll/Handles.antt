-- ===== src/Poll/Handles.antt =====
-- The poll handles that libfuse gives to do_poll: who keeps them, and who destroys them.
use sigfs.Base.{
  ℕ, zero, suc, ◌+◌, ◌≤◌, ◌≡◌, sym, ap, ap₂, ◌∙◌, List, [], ◌∷◌, ◌++◌, Option, none, some, arith,
  ◌==◌, if◌then◌else◌, Option-cases, inl, inr, drop,
}
use sigfs.Common.{sub_u64, sigfs_payload_size}
use sigfs.Fuse.{Call, pollhandle_destroy}
use sigfs.Queue
use sigfs.Channel
use sigfs.Channel.{
  PolledSubscriber, Channel, attach, fresh, find, store, remove, queue_read_ready, notify,
  set_poll_handle, set_poll_events,
}
use sigfs.Channel.Notifiers.{find-id, notify-none, notify-some, ready_id}
use sigfs.Poll.{remember, do_poll}
use sigfs.Write.Records.{reply_of}
use sigfs.Write.Replies.{write_loop_round, do_write_cases}
use sigfs.Write.{WriteEnd, complete, unaligned, payload_size_at, write_loop, do_write}

abbrev pub held : ℕ → Option ℕ → ℕ
held h none = 0
held h (some k) = if k == h then 1 else 0

-- How often a handle is stored, and how often calls destroy it.
abbrev pub stored : ℕ → List PolledSubscriber → ℕ
stored h [] = 0
stored h (s ∷ ss) = held h s.poll_handle + stored h ss

abbrev pub destroyed_by : ℕ → Call → ℕ
destroyed_by h (pollhandle_destroy k) = held h (some k)
destroyed_by h _ = 0

abbrev pub destroyed : ℕ → List Call → ℕ
destroyed h [] = 0
destroyed h (c ∷ cs) = destroyed_by h c + destroyed h cs

pub destroyed-append :
    (h : ℕ) (cs ds : List Call) → destroyed h (cs ++ ds) ≡ destroyed h cs + destroyed h ds
destroyed-append h [] ds = omega arith
destroyed-append h (c ∷ cs) ds = omega (arith, destroyed-append h cs ds)

pub stored-store :
    (h : ℕ) (t s : PolledSubscriber) (ss : List PolledSubscriber)
    → find t.subscriber.sub_id ss ≡ some s
    → stored h (store t ss) + held h s.poll_handle ≡ stored h ss + held h t.poll_handle
unfolding find store
stored-store h t s [] e = cc e
stored-store h t s (r ∷ ss) e = ground (arith, e, stored-store h t s ss)

pub stored-remove : (h id : ℕ) (ss : List PolledSubscriber) → stored h (remove id ss) ≤ stored h ss
unfolding remove
stored-remove h id [] = omega arith
stored-remove h id (s ∷ ss) = ground (arith, stored-remove h id ss)

ready-handles :
    (h : ℕ) (s : PolledSubscriber)
    → held h (queue_read_ready s).0.poll_handle + destroyed h (queue_read_ready s).1
      ≡ held h s.poll_handle
unfolding queue_read_ready
ready-handles h s = ground arith

notify-handles :
    (h : ℕ) (ids : List ℕ) (ss : List PolledSubscriber)
    → stored h (notify ids ss).0 + destroyed h (notify ids ss).1 ≡ stored h ss
unfolding notify
notify-handles h [] ss = omega arith
notify-handles h (k ∷ ids) ss = elim (Option-cases (find k ss)) [
  | inl e ↦ rw (notify-none k ids ss e) (notify-handles h ids ss)
  | inr (s, e) ↦ rw (notify-some k ids s ss e) (
      omega (
        arith,
        notify-handles h ids (store (queue_read_ready s).0 ss),
        ready-handles h s,
        destroyed-append h (queue_read_ready s).1 (notify ids (store (queue_read_ready s).0 ss)).1,
        stored-store h (queue_read_ready s).0 s ss
            (ap (λ i. find i ss) (ready_id s ∙ find-id k s ss e) ∙ e),
      ))
]

-- queue_signal destroys what it takes from the subscribers.
queue_signal-handles :
    (h : ℕ) (ch : Channel) (src : List ℕ) (n : ℕ)
    → stored h (Channel.queue_signal ch src n).0.subscribers
        + destroyed h (Channel.queue_signal ch src n).1
      ≡ stored h ch.subscribers
unfolding Channel.queue_signal
queue_signal-handles h ch src n =
    notify-handles h (Queue.queue_signal ch.queue src n).1 ch.subscribers

pub remember-handles :
    (h : ℕ) (ch : Channel) (sub : PolledSubscriber) (events : ℕ) (ph : Option ℕ)
    → find sub.subscriber.sub_id ch.subscribers ≡ some sub
    → stored h (remember ch sub events ph).0.subscribers + destroyed h (remember ch sub events ph).1
      ≡ stored h ch.subscribers + held h ph
unfolding remember set_poll_handle set_poll_events
remember-handles h ch sub events ph live = ground (
  arith,
  stored-store h (record sub { poll_handle = ph; poll_events = events }) sub ch.subscribers live,
)

-- do_poll keeps or destroys the handle that it is given, and destroys the one that it replaces.
pub do_poll-handles :
    (h : ℕ) (ch : Channel) (sub : PolledSubscriber) (events : ℕ) (ph : Option ℕ)
    → find sub.subscriber.sub_id ch.subscribers ≡ some sub
    → stored h (do_poll ch sub events ph).0.subscribers + destroyed h (do_poll ch sub events ph).1
      ≡ stored h ch.subscribers + held h ph
unfolding do_poll
do_poll-handles h ch sub events ph live = ground (arith, remember-handles h ch sub events ph live)

write_loop-handles :
    (h fuel remaining : ℕ) (buffer : List ℕ) (ch : Channel) (calls : List Call) (end : WriteEnd)
    (ch' : Channel) (calls' : List Call)
    → write_loop fuel remaining buffer ch calls ≡ some (end, ch', calls')
    → stored h ch'.subscribers + destroyed h calls' ≡ stored h ch.subscribers + destroyed h calls
unfolding write_loop
write_loop-handles h zero remaining buffer ch calls end ch' calls' e = cc e
write_loop-handles h (suc fuel) remaining buffer ch calls end ch' calls' e =
    elim (write_loop_round fuel remaining buffer ch calls end ch' calls' e) [
      | inl (same, done) ↦
          ap₂ (λ c cs. stored h c.subscribers + destroyed h cs) (sym same) (sym done)
      | inr more ↦
          let n = payload_size_at buffer in
          let (ch1, calls1) = Channel.queue_signal ch (drop 4 buffer) n in
          omega (
            arith,
            write_loop-handles h fuel (sub_u64 remaining (sigfs_payload_size n))
                (drop (sigfs_payload_size n) buffer) ch1 (calls ++ calls1) end ch' calls' more,
            queue_signal-handles h ch (drop 4 buffer) n,
            destroyed-append h calls calls1,
          )
    ]

reply-handles : (h : ℕ) (end : WriteEnd) (size : ℕ) → destroyed h (reply_of end size ∷ []) ≡ 0
reply-handles h complete size = omega arith
reply-handles h unaligned size = omega arith

-- do_write destroys what its notifications take from the subscribers.
pub do_write-handles :
    (h : ℕ) (ch : Channel) (buffer : List ℕ) (size : ℕ) (ch' : Channel) (calls : List Call)
    → do_write ch buffer size ≡ some (ch', calls)
    → stored h ch'.subscribers + destroyed h calls ≡ stored h ch.subscribers
do_write-handles h ch buffer size ch' calls e =
    let (end, calls', run, replied) = do_write_cases ch buffer size ch' calls e in
    omega (
      arith,
      write_loop-handles h (suc size) size buffer ch [] end ch' calls' run,
      ap (destroyed h) replied,
      destroyed-append h calls' (reply_of end size ∷ []),
      reply-handles h end size,
    )
