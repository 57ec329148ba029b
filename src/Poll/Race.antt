-- ===== src/Poll/Race.antt =====
-- A signal that is published while a poll is between its test and its subscription, for which
-- do_poll takes separate locks.
use native.Mathlib.Nat.{mod-eq_of_lt}
use sigfs.Base.{
  ℕ, ◌+◌, ◌-◌, ◌%◌, ◌^◌, ◌≤◌, ◌<◌, ◌≡◌, ◌≢◌, refl, sym, ap, ◌∙◌, true, false, List, [], ◌∷◌, ◌++◌,
  Option, some, arith, length, take, Option-cases, inl, inr, length-append,
}
use sigfs.Subscriber.{Subscriber}
use sigfs.Queue
use sigfs.Queue.{Queue, signal_available, store_signal, is_empty, index}
use sigfs.Queue.History.{Retains}
use sigfs.Queue.Publish.{store_signal-Retains}
use sigfs.Queue.Ready.{signal_available_iff}
use sigfs.Queue.Loop.{available_at_end}
use sigfs.Channel
use sigfs.Channel.{
  PolledSubscriber, Channel, contains, find, store, has_pollin, queue_read_ready, notify,
  set_poll_handle, set_poll_events, subscribe_read_ready_notifications,
  unsubscribe_read_ready_notifications,
}
use sigfs.Channel.Notifiers.{
  IsConsistent, expects, find-id, find-store_same, find-store_ne, notify-none, notify-some,
  ready_id,
}
use sigfs.Poll.{remember}

-- The notifications change no subscriber that is not listed.
notify_unlisted :
    (id : ℕ) (ids : List ℕ) (ss : List PolledSubscriber)
    → contains id ids ≡ false
    → find id (notify ids ss).0 ≡ find id ss
unfolding notify
notify_unlisted id [] ss h = refl
notify_unlisted id (k ∷ ids) ss h = elim (Option-cases (find k ss)) [
  | inl e ↦ ap (λ r. find id r.0) (notify-none k ids ss e) ∙ notify_unlisted id ids ss later
  | inr (s, e) ↦
      ap (λ r. find id r.0) (notify-some k ids s ss e)
      ∙ notify_unlisted id ids (store (queue_read_ready s).0 ss) later
      ∙ find-store_ne id (queue_read_ready s).0 ss
          (λ g. other (sym (sym (ready_id s ∙ find-id k s ss e) ∙ g)))
]
  where
    later : contains id ids ≡ false
    later = ground (arith, h)

    other : id ≢ k
    other = ground (arith, h)

-- One more signal is available to a subscriber that stood at the next.
available_after :
    (log : List (List ℕ)) (q : Queue) (src : List ℕ) (n : ℕ) (sub : Subscriber)
    → Retains log q
    → n < 2 ^ 32
    → n ≤ length src
    → length log + 2 < 2 ^ 32
    → sub.sig_id ≡ length log + 1
    → signal_available (store_signal q src n) sub ≡ true
available_after log q src n sub holds small enough few at =
    (signal_available_iff whole (store_signal q src n) after sub (omega (arith, at))
        (omega (arith, at, longer))).1
      apart
  where
    whole : List (List ℕ)
    whole = log ++ (take n src ∷ [])

    longer : length whole ≡ length log + 1
    longer = length-append log (take n src ∷ [])

    after : Retains whole (store_signal q src n)
    after = store_signal-Retains log q src n holds small enough few

    one : length whole + 1 - sub.sig_id ≡ 1
    one = omega (arith, at, longer)

    apart : (length whole + 1 - sub.sig_id) % length (store_signal q src n).queue ≢ 0
    apart z = absurd (
        omega (
          arith,
          ap (λ t. t % length (store_signal q src n).queue) (sym one) ∙ z,
          mod-eq_of_lt {n = 1} {m = length (store_signal q src n).queue}
              (omega (arith, after.ring.at_least)),
        ))

-- What is remembered of a poll leaves what is available as it was.
remember_available :
    (ch : Channel) (sub : PolledSubscriber) (events : ℕ) (ph : Option ℕ) (s : Subscriber)
    → signal_available (remember ch sub events ph).0.queue s ≡ signal_available ch.queue s
unfolding remember set_poll_handle set_poll_events signal_available is_empty index
    subscribe_read_ready_notifications unsubscribe_read_ready_notifications
remember_available ch sub events ph s = ground (arith)

-- On a channel whose queue retains a history, with fewer than 2^32 - 2 signals, and whose
-- notification list is right, for a live subscriber that stands at the signal after the last and
-- does not poll for POLLIN yet: no signal is available to its poll, and when a signal of fewer than
-- 2^32 bytes, from data that has them, is published before the poll is remembered, the publication
-- leaves the subscriber as it was, and the poll is then stored with its events and its handle
-- although a signal is available.
pub poll_race :
    (log : List (List ℕ)) (ch : Channel) (sub : PolledSubscriber) (events handle : ℕ) (src : List ℕ)
    (n : ℕ)
    → Retains log ch.queue
    → IsConsistent ch
    → find sub.subscriber.sub_id ch.subscribers ≡ some sub
    → has_pollin sub.poll_events ≡ false
    → sub.subscriber.sig_id ≡ length log + 1
    → n < 2 ^ 32
    → n ≤ length src
    → length log + 2 < 2 ^ 32
    → let ch1 = (Channel.queue_signal ch src n).0 in
      let ch2 = (remember ch1 sub events (some handle)).0 in
      (signal_available ch.queue sub.subscriber ≡ false)
      × (find sub.subscriber.sub_id ch1.subscribers ≡ some sub)
      × (signal_available ch2.queue sub.subscriber ≡ true)
      × (find sub.subscriber.sub_id ch2.subscribers
          ≡ some (record sub { poll_handle = some handle; poll_events = events }))
unfolding remember Channel.queue_signal Queue.queue_signal set_poll_handle set_poll_events expects
poll_race log ch sub events handle src n holds h live idle at small enough few = (
  available_at_end log ch.queue holds sub.subscriber at,
  still,
  remember_available (Channel.queue_signal ch src n).0 sub events (some handle) sub.subscriber
      ∙ available_after log ch.queue src n sub.subscriber holds small enough few at,
  find-store_same (record sub { poll_handle = some handle; poll_events = events }) sub
      (Channel.queue_signal ch src n).0.subscribers still,
)
  where
    unlisted : contains sub.subscriber.sub_id ch.queue.read_notifiers ≡ false
    unlisted = h.listed sub.subscriber.sub_id ∙ idles
      where
        idles : expects sub.subscriber.sub_id ch.subscribers ≡ false
        idles = rw (expects, live) idle

    still : find sub.subscriber.sub_id (Channel.queue_signal ch src n).0.subscribers ≡ some sub
    still =
        notify_unlisted sub.subscriber.sub_id ch.queue.read_notifiers ch.subscribers unlisted ∙ live
