-- ===== src/Run/Sound.antt =====
-- The state of a channel, and what each operation does to it.
use sigfs.Base.{
  ◌⊎◌, ℕ, ◌^◌, ◌<◌, ◌≡◌, refl, sym, ap, ◌∙◌, List, [], ◌∷◌, ◌++◌, Option, some, arith, All,
  All-append, length-append,
}
use sigfs.Subscriber
use sigfs.Subscriber.{Subscriber}
use sigfs.Queue.{Queue, init}
use sigfs.Queue.Create.{init-Retains, init-eq-some}
use sigfs.Queue.History.{Retains}
use sigfs.Queue.Position.{IsPlaced, initialize_subscriber-IsPlaced}
use sigfs.Queue.Runs.{IsSized}
use sigfs.Channel.{
  PolledSubscriber, Channel, attach, fresh, find, store, contains, erase, set_poll_events,
  set_poll_handle, subscribe_read_ready_notifications, unsubscribe_read_ready_notifications,
}
use sigfs.Channel.Notifiers.{
  IsConsistent, expects, expects-store, find-store-none, attach-IsConsistent,
}
use sigfs.Open.{do_release}
use sigfs.Poll.{do_poll, remember}
use sigfs.Poll.Wakeup.{remember-IsConsistent, do_release-IsConsistent}
use sigfs.Run.{created}
use sigfs.Run.Seats.{seat, seat-store, seat-remove, Undisturbed}

-- The queue represents the history, the notification list is right, and every subscriber stands at
-- a signal of the history or behind the last.
pub record IsSound (log : List (List ℕ)) (ch : Channel) : Type 0 where
  pub holds : Retains log ch.queue
  pub consistent : IsConsistent ch
  pub placed : (id : ℕ) (s : Subscriber) → seat id ch.subscribers ≡ some s → IsPlaced log s
  pub sized : All IsSized log

pub created-IsSound : (n : ℕ) (q : Queue) → n < 2 ^ 32 → init n ≡ some q → IsSound [] (created q)
unfolding find expects
created-IsSound n q small made = record {
  holds = (init-Retains n small made).0;
  consistent = record {
    listed = λ id. ap (λ r. contains id r.read_notifiers) (init-eq-some n made).2;
    below = λ id above. refl;
  };
  placed = λ id s e. cc e;
  sized = tt;
}

-- The notification list is no part of what the queue retains.
Retains-notifiers :
    (log : List (List ℕ)) (q : Queue) (ids : List ℕ)
    → Retains log q
    → Retains log (record q { read_notifiers = ids })
Retains-notifiers log q ids h = record {
  ring = record {
    bits = h.ring.bits;
    size = h.ring.size;
    mask = h.ring.mask;
    at_least = h.ring.at_least;
    fits = h.ring.fits;
    allocated = h.ring.allocated;
  };
  few = h.few;
  next_id = h.next_id;
  head_at = h.head_at;
  tail_at = h.tail_at;
  head_nil = h.head_nil;
  retained = h.retained;
}

pub attach-IsSound : (log : List (List ℕ)) (ch : Channel) → IsSound log ch → IsSound log (attach ch)
unfolding attach fresh find
attach-IsSound log ch h = record {
  holds = h.holds;
  consistent = attach-IsConsistent ch h.consistent;
  placed = λ id s e. ground (
    arith,
    e,
    h.placed id s,
    (initialize_subscriber-IsPlaced log ch.queue h.holds (Subscriber.fresh ch.next_sub_id)).0,
  );
  sized = h.sized;
}

pub do_release-IsSound :
    (log : List (List ℕ)) (ch : Channel) (id : ℕ) → IsSound log ch → IsSound log (do_release ch id)
unfolding do_release unsubscribe_read_ready_notifications
do_release-IsSound log ch id h = record {
  holds = Retains-notifiers log ch.queue _ h.holds;
  consistent = do_release-IsConsistent ch id h.consistent;
  placed = λ k s e. ground (arith, e, seat-remove k id ch.subscribers, h.placed k s);
  sized = h.sized;
}

IsPlaced-append :
    (log ps : List (List ℕ)) (s : Subscriber) → IsPlaced log s → IsPlaced (log ++ ps) s
IsPlaced-append log ps s h = record {
  low = h.low;
  high = omega (arith, h.high, length-append log ps);
}

pub write-IsSound :
    (log ps : List (List ℕ)) (ch ch' : Channel)
    → IsSound log ch
    → All IsSized ps
    → Retains (log ++ ps) ch'.queue
    → Undisturbed ch ch'
    → IsSound (log ++ ps) ch'
write-IsSound log ps ch ch' h sized holds still = record {
  holds = holds;
  consistent = still.2;
  placed = λ id s e. IsPlaced-append log ps s (h.placed id s (sym (still.0 id) ∙ e));
  sized = All-append IsSized log ps h.sized sized;
}

-- A change to a live subscriber that leaves its place in the notification list alone.
pub store-IsSound :
    (log : List (List ℕ)) (ch : Channel) (s t : PolledSubscriber)
    → IsSound log ch
    → find t.subscriber.sub_id ch.subscribers ≡ some s
    → t.poll_events ≡ s.poll_events
    → IsPlaced log t.subscriber
    → IsSound log (record ch { subscribers = store t ch.subscribers })
store-IsSound log ch s t h live same here = record {
  holds = h.holds;
  consistent = record {
    listed = λ id. h.consistent.listed id ∙ sym (expects-store id t s ch.subscribers live same);
    below = λ id above. find-store-none id t s ch.subscribers live (h.consistent.below id above);
  };
  placed = λ id u e. ground (arith, e, seat-store id t s ch.subscribers live, h.placed id u, here);
  sized = h.sized;
}

-- A poll moves no subscriber, and of the queue it changes the notification list only.
pub remember-seat :
    (id : ℕ) (ch : Channel) (sub : PolledSubscriber) (events : ℕ) (ph : Option ℕ)
    → find sub.subscriber.sub_id ch.subscribers ≡ some sub
    → seat id (remember ch sub events ph).0.subscribers ≡ seat id ch.subscribers
unfolding remember set_poll_handle set_poll_events
remember-seat id ch sub events ph live = ground (
  arith,
  live,
  seat-store id (record sub { poll_handle = ph; poll_events = events }) sub ch.subscribers live,
)

pub next_sub_id-remember :
    (ch : Channel) (sub : PolledSubscriber) (events : ℕ) (ph : Option ℕ)
    → (remember ch sub events ph).0.next_sub_id ≡ ch.next_sub_id
unfolding remember
next_sub_id-remember ch sub events ph = refl

remember-Retains :
    (log : List (List ℕ)) (ch : Channel) (sub : PolledSubscriber) (events : ℕ) (ph : Option ℕ)
    → Retains log ch.queue
    → Retains log (remember ch sub events ph).0.queue
unfolding remember set_poll_handle set_poll_events subscribe_read_ready_notifications
    unsubscribe_read_ready_notifications
remember-Retains log ch sub events ph h =
    ground (arith, h, Retains-notifiers log ch.queue ch.queue.read_notifiers h, added, erased)
  where
    id : ℕ
    id = sub.subscriber.sub_id

    added : Retains log (record ch.queue { read_notifiers = id ∷ ch.queue.read_notifiers })
    added = Retains-notifiers log ch.queue (id ∷ ch.queue.read_notifiers) h

    erased : Retains log (record ch.queue { read_notifiers = erase id ch.queue.read_notifiers })
    erased = Retains-notifiers log ch.queue (erase id ch.queue.read_notifiers) h

pub remember-IsSound :
    (log : List (List ℕ)) (ch : Channel) (sub : PolledSubscriber) (events : ℕ) (ph : Option ℕ)
    → IsSound log ch
    → find sub.subscriber.sub_id ch.subscribers ≡ some sub
    → IsSound log (remember ch sub events ph).0
remember-IsSound log ch sub events ph h live = record {
  holds = remember-Retains log ch sub events ph h.holds;
  consistent = remember-IsConsistent ch h.consistent sub live events ph;
  placed = λ id s e. h.placed id s (sym (remember-seat id ch sub events ph live) ∙ e);
  sized = h.sized;
}

-- A poll leaves the channel as it is, or remembers the subscriber.
pub do_poll_cases :
    (ch : Channel) (sub : PolledSubscriber) (events : ℕ) (ph : Option ℕ)
    → ((do_poll ch sub events ph).0 ≡ ch)
      ⊎ ((do_poll ch sub events ph).0 ≡ (remember ch sub events ph).0)
unfolding do_poll
do_poll_cases ch sub events ph = ground arith
