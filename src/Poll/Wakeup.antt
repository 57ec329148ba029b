-- ===== src/Poll/Wakeup.antt =====
-- The notification list across a poll and a close, and the next queue_signal after a poll.
use sigfs.Base.{
  ℕ, ◌≡◌, ◌≢◌, refl, sym, ap, ◌∙◌, true, false, List, [], ◌∷◌, ◌++◌, Option, some, arith,
  Option-cases, inl, inr, subst, append_assoc,
}
use native.Mathlib.Decide.{ℕ_discrete}
use sigfs.Fuse.{Call, lowlevel_notify_poll, pollhandle_destroy}
use sigfs.Queue
use sigfs.Queue.{Queue, signal_available}
use sigfs.Channel
use sigfs.Channel.{
  PolledSubscriber, Channel, contains, erase, find, store, remove, has_pollin, set_poll_events,
  set_poll_handle, queue_read_ready, subscribe_read_ready_notifications,
  unsubscribe_read_ready_notifications, notify,
}
use sigfs.Channel.Notifiers.{
  IsConsistent, expects, find-id, find-store_same, find-store_ne, find-remove_same, find-remove_ne,
  contains-erase_same, contains-erase_ne, notify-none, notify-some, ready_id,
}
use sigfs.Open.{do_release}
use sigfs.Poll.{remember, do_poll}

-- On a channel whose notification list is right, closing a file leaves it right: the subscriber
-- that is deleted is not on the list any more.
pub do_release-IsConsistent :
    (ch : Channel) (id : ℕ) → IsConsistent ch → IsConsistent (do_release ch id)
unfolding do_release unsubscribe_read_ready_notifications expects
do_release-IsConsistent ch id h = record {
  listed = λ k. ground (
    arith,
    h.listed k,
    contains-erase_same id ch.queue.read_notifiers,
    contains-erase_ne k id ch.queue.read_notifiers,
    find-remove_same id ch.subscribers,
    find-remove_ne k id ch.subscribers,
  );
  below = λ k above.
      ground
        (arith, h.below k, find-remove_same id ch.subscribers, find-remove_ne k id ch.subscribers);
}

module _ (ch : Channel) (h : IsConsistent ch) (sub : PolledSubscriber)
    (live : find sub.subscriber.sub_id ch.subscribers ≡ some sub) where
  pub remember-IsConsistent :
      (events : ℕ) (ph : Option ℕ) → IsConsistent (remember ch sub events ph).0
  unfolding remember set_poll_handle set_poll_events subscribe_read_ready_notifications
      unsubscribe_read_ready_notifications expects
  remember-IsConsistent events ph = record {
    listed = λ k. ground (
      arith,
      h.listed k,
      listed_here,
      stored,
      others k,
      contains-erase_same id l,
      contains-erase_ne k id l,
    );
    below = λ k above. ground (arith, h.below k above, live, others k);
  }
    where
      id : ℕ
      id = sub.subscriber.sub_id

      l : List ℕ
      l = ch.queue.read_notifiers

      t : PolledSubscriber
      t = record sub { poll_handle = ph; poll_events = events }

      listed_here : contains id l ≡ has_pollin sub.poll_events
      listed_here = ground (arith, h.listed id, live)

      stored : find id (store t ch.subscribers) ≡ some t
      stored = find-store_same t sub ch.subscribers live

      others : (k : ℕ) → id ≢ k → find k (store t ch.subscribers) ≡ find k ch.subscribers
      others k = find-store_ne k t ch.subscribers

  -- On a channel whose notification list is right, a poll by a live subscriber, for whatever events
  -- and with or without a handle, leaves the list right.
  pub do_poll-IsConsistent :
      (events : ℕ) (ph : Option ℕ) → IsConsistent (do_poll ch sub events ph).0
  unfolding do_poll
  do_poll-IsConsistent events ph = ground (arith, h, remember-IsConsistent events ph)

-- The handle is among those that the calls notify.
abbrev pub Notifies : ℕ → List Call → Type 0
Notifies handle calls =
    (before after : List Call) × (calls ≡ before ++ (lowlevel_notify_poll handle ∷ after))

ready_calls :
    (s : PolledSubscriber) (handle : ℕ)
    → s.poll_handle ≡ some handle
    → (queue_read_ready s).1 ≡ lowlevel_notify_poll handle ∷ pollhandle_destroy handle ∷ []
unfolding queue_read_ready
ready_calls s handle e = rw (queue_read_ready, e) refl

-- Every listed subscriber with a handle is notified.
notify_lem :
    (ids : List ℕ) (ss : List PolledSubscriber) (id handle : ℕ) (s : PolledSubscriber)
    → contains id ids ≡ true
    → find id ss ≡ some s
    → s.poll_handle ≡ some handle
    → Notifies handle (notify ids ss).1
notify_lem [] ss id handle s c e p = cc c
notify_lem (k ∷ ids) ss id handle s c e p = elim (Option-cases (find k ss)) [
  | inl f ↦
      subst (Notifies handle) (sym (ap (λ r. r.1) (notify-none k ids ss f)))
        (notify_lem ids ss id handle s (later (λ same. cc (e, f, same))) e p)
  | inr (r, f) ↦
      subst (Notifies handle) (sym (ap (λ r. r.1) (notify-some k ids r ss f)))
        (elim (ℕ_discrete k id) [
          | yes same ↦ (
            [],
            pollhandle_destroy handle ∷ (notify ids (store (queue_read_ready r).0 ss)).1,
            ap (λ l. l ++ (notify ids (store (queue_read_ready r).0 ss)).1)
                (ready_calls r handle
                  (subst (λ t. t.poll_handle ≡ some handle) (sub_here r f same) p)),
          )
          | no other ↦
              let (before, after, q) =
                notify_lem ids (store (queue_read_ready r).0 ss) id handle s (later other)
                  (still r f other ∙ e) p in
              (
                (queue_read_ready r).1 ++ before,
                after,
                ap (λ l. (queue_read_ready r).1 ++ l) q
                    ∙ sym (
                        append_assoc (queue_read_ready r).1 before
                          (lowlevel_notify_poll handle ∷ after)),
              )
        ])
]
  where
    later : k ≢ id → contains id ids ≡ true
    later other = ground (arith, c, other)

    sub_here : (r : PolledSubscriber) → find k ss ≡ some r → k ≡ id → s ≡ r
    sub_here r f same = cc (e, f, same)

    still :
        (r : PolledSubscriber)
        → find k ss ≡ some r
        → k ≢ id
        → find id (store (queue_read_ready r).0 ss) ≡ find id ss
    still r f other =
        find-store_ne id (queue_read_ready r).0 ss
          (λ g. other (sym (ready_id r ∙ find-id k r ss f) ∙ g))

-- On a channel whose notification list is right, a poll for POLLIN by a live subscriber for which
-- no signal is available: the next queue_signal, whatever it publishes, notifies the poll's handle.
pub do_poll_wakes :
    (ch : Channel) (sub : PolledSubscriber) (events handle : ℕ) (src : List ℕ) (n : ℕ)
    → IsConsistent ch
    → find sub.subscriber.sub_id ch.subscribers ≡ some sub
    → has_pollin events ≡ true
    → signal_available ch.queue sub.subscriber ≡ false
    → Notifies handle (Channel.queue_signal (do_poll ch sub events (some handle)).0 src n).1
unfolding do_poll remember set_poll_handle set_poll_events expects Channel.queue_signal
    Queue.queue_signal
do_poll_wakes ch sub events handle src n h live wants empty =
    subst (λ c. Notifies handle (Channel.queue_signal c src n).1) (sym waits)
      (notify_lem later.queue.read_notifiers later.subscribers sub.subscriber.sub_id handle t listed
        stored refl)
  where
    later : Channel
    later = (remember ch sub events (some handle)).0

    t : PolledSubscriber
    t = record sub { poll_handle = some handle; poll_events = events }

    waits : (do_poll ch sub events (some handle)).0 ≡ later
    waits = ground (arith, wants, empty)

    stored : find sub.subscriber.sub_id later.subscribers ≡ some t
    stored = find-store_same t sub ch.subscribers live

    listed : contains sub.subscriber.sub_id later.queue.read_notifiers ≡ true
    listed =
        (remember-IsConsistent ch h sub live events (some handle)).listed sub.subscriber.sub_id
        ∙ polls
      where
        polls : expects sub.subscriber.sub_id later.subscribers ≡ true
        polls = rw (expects, stored) wants
