-- ===== src/Channel.antt =====
-- sigfs.cc, class PolledSubscriber, with the queue that it is bound to: a channel is the queue of
-- one file and the subscribers of those who have opened it.
pub mod Notifiers
use mathlib.Core.List.{filter}
use native.Mathlib.Decide.{ℕ_discrete}
use sigfs.Base.{
  ℕ, ◌+◌, ◌≡◌, refl, Bool, true, false, not, ◌&&◌, ◌||◌, List, [], ◌∷◌, ◌++◌, Option, none, some,
  bit_and, ◌==◌, if◌then◌else◌,
}
use sigfs.Fuse.{Call, lowlevel_notify_poll, pollhandle_destroy, pollin}
use sigfs.Subscriber
use sigfs.Subscriber.{Subscriber}
use sigfs.Queue
use sigfs.Queue.{Queue}

-- poll_handle is null until do_poll stores one.
pub record PolledSubscriber : Type 0 where
  pub subscriber : Subscriber
  pub poll_handle : Option ℕ
  pub poll_events : ℕ

-- next_sub_id is the constructor's static counter; sub_id stands for the subscriber's address.
pub record Channel : Type 0 where
  pub queue : Queue
  pub subscribers : List PolledSubscriber
  pub next_sub_id : ℕ

unfoldable pub fresh : Queue → ℕ → PolledSubscriber
unfolding Queue.initialize_subscriber Subscriber.fresh
fresh q sub_id = record {
  subscriber = Queue.initialize_subscriber q (Subscriber.fresh sub_id);
  poll_handle = none;
  poll_events = 0;
}

-- queue_read_ready: a poll handle serves one notification.
unfoldable pub queue_read_ready : PolledSubscriber → PolledSubscriber × List Call
queue_read_ready sub = elim sub.poll_handle [
  | none ↦ (sub, [])
  | some ph ↦
      (record sub { poll_handle = none }, lowlevel_notify_poll ph ∷ pollhandle_destroy ph ∷ [])
]

-- poll_handle(ph)
unfoldable pub set_poll_handle : PolledSubscriber → Option ℕ → PolledSubscriber × List Call
set_poll_handle sub ph = (
  record sub { poll_handle = ph },
  elim sub.poll_handle [ none ↦ [] | some old ↦ pollhandle_destroy old ∷ [] ],
)

abbrev pub contains : ℕ → List ℕ → Bool
contains a [] = false
contains a (x ∷ xs) = a == x || contains a xs

-- read_notifiers_.insert and erase: a set of addresses.
unfoldable pub subscribe_read_ready_notifications : Queue → ℕ → Queue
subscribe_read_ready_notifications q id = record q {
  read_notifiers = if contains id q.read_notifiers then q.read_notifiers else id ∷ q.read_notifiers;
}

abbrev pub erase : ℕ → List ℕ → List ℕ
erase a [] = []
erase a (x ∷ xs) = let rest = erase a xs in if a == x then rest else x ∷ rest

unfoldable pub unsubscribe_read_ready_notifications : Queue → ℕ → Queue
unsubscribe_read_ready_notifications q id = record q { read_notifiers = erase id q.read_notifiers }

unfoldable pub has_pollin : ℕ → Bool
has_pollin events = not (bit_and events pollin == 0)

-- poll_events(pe): the subscriber is on the notification list while it polls for POLLIN. Only the
-- changes of the list are locked in the code: `sub` is as its tests read it.
unfoldable pub set_poll_events : Queue → PolledSubscriber → ℕ → Queue × PolledSubscriber
unfolding has_pollin
set_poll_events q sub pe =
    let id = sub.subscriber.sub_id in
    let old = sub.poll_events in
    let q1 =
      if has_pollin pe && not (has_pollin old)
      then subscribe_read_ready_notifications q id
      else q in
    let q2 =
      if not (has_pollin pe) && has_pollin old
      then unsubscribe_read_ready_notifications q1 id
      else q1 in
    (q2, record sub { poll_events = pe })

-- The subscriber at an address; `none` is a dangling pointer.
unfoldable pub find : ℕ → List PolledSubscriber → Option PolledSubscriber
find id [] = none
find id (s ∷ ss) = if s.subscriber.sub_id == id then some s else find id ss

-- A change to the object at an address.
unfoldable pub store : PolledSubscriber → List PolledSubscriber → List PolledSubscriber
store t [] = []
store t (s ∷ ss) =
    let rest = store t ss in if s.subscriber.sub_id == t.subscriber.sub_id then t ∷ ss else s ∷ rest

-- delete: nothing is left at the address.
unfoldable pub remove : ℕ → List PolledSubscriber → List PolledSubscriber
remove id [] = []
remove id (s ∷ ss) = let rest = remove id ss in if s.subscriber.sub_id == id then rest else s ∷ rest

-- A subscriber that was created for the file joins the others.
unfoldable pub attach : Channel → Channel
unfolding fresh
attach ch = record ch {
  subscribers = fresh ch.queue ch.next_sub_id ∷ ch.subscribers;
  next_sub_id = ch.next_sub_id + 1;
}

-- The loop of queue_signal over the notification list.
unfoldable pub notify : List ℕ → List PolledSubscriber → List PolledSubscriber × List Call
unfolding queue_read_ready find store
notify [] subs = (subs, [])
notify (id ∷ ids) subs = elim (find id subs) [
  | none ↦ notify ids subs
  | some s ↦
      let (s', calls) = queue_read_ready s in
      let (subs', more) = notify ids (store s' subs) in (subs', calls ++ more)
]

-- queue_signal on the channel's queue.
unfoldable pub queue_signal : Channel → List ℕ → ℕ → Channel × List Call
unfolding Queue.queue_signal notify
queue_signal ch src n =
    let (q, ids) = Queue.queue_signal ch.queue src n in
    let (subs, calls) = notify ids ch.subscribers in
    (record ch { queue = q; subscribers = subs }, calls)

-- Only the queue's own operation changes the queue.
pub queue-queue_signal :
    (ch : Channel) (src : List ℕ) (n : ℕ)
    → (queue_signal ch src n).0.queue ≡ Queue.store_signal ch.queue src n
unfolding queue_signal
queue-queue_signal ch src n = refl
