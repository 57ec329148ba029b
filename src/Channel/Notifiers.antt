-- ===== src/Channel/Notifiers.antt =====
-- The notification list of a channel, against the live subscribers that poll for POLLIN.
use sigfs.Base.{
  ℕ, ◌≤◌, ◌≡◌, ◌≢◌, refl, sym, ap, ◌∙◌, Bool, false, List, [], ◌∷◌, ◌++◌, subst, none, some, arith,
  Option-cases, inl, inr,
}
use sigfs.Subscriber
use sigfs.Queue
use sigfs.Queue.{Queue}
use sigfs.Channel.{
  PolledSubscriber, Channel, fresh, attach, contains, erase, find, store, remove, has_pollin,
  queue_read_ready, notify, queue_signal,
}

-- Whether the subscriber at an address is there and polls for POLLIN.
unfoldable pub expects : ℕ → List PolledSubscriber → Bool
expects id subs = elim (find id subs) [ none ↦ false | some s ↦ has_pollin s.poll_events ]

pub record IsConsistent (ch : Channel) : Type 0 where
  pub listed : (id : ℕ) → contains id ch.queue.read_notifiers ≡ expects id ch.subscribers
  pub below : (id : ℕ) → ch.next_sub_id ≤ id → find id ch.subscribers ≡ none

pub find-id :
    (id : ℕ) (s : PolledSubscriber) (ss : List PolledSubscriber)
    → find id ss ≡ some s
    → s.subscriber.sub_id ≡ id
unfolding find
find-id id s [] e = cc e
find-id id s (t ∷ ss) e = ground (arith, find-id id s ss)

pub find-store_same :
    (t s : PolledSubscriber) (ss : List PolledSubscriber)
    → find t.subscriber.sub_id ss ≡ some s
    → find t.subscriber.sub_id (store t ss) ≡ some t
unfolding find store
find-store_same t s [] e = cc e
find-store_same t s (r ∷ ss) e = ground (arith, find-store_same t s ss)

pub find-store_ne :
    (id : ℕ) (t : PolledSubscriber) (ss : List PolledSubscriber)
    → t.subscriber.sub_id ≢ id
    → find id (store t ss) ≡ find id ss
unfolding find store
find-store_ne id t [] h = refl
find-store_ne id t (r ∷ ss) h = ground (arith, find-store_ne id t ss h)

pub find-remove_same : (id : ℕ) (ss : List PolledSubscriber) → find id (remove id ss) ≡ none
unfolding find remove
find-remove_same id [] = refl
find-remove_same id (r ∷ ss) = ground (arith, find-remove_same id ss)

pub find-remove_ne :
    (id k : ℕ) (ss : List PolledSubscriber) → k ≢ id → find id (remove k ss) ≡ find id ss
unfolding find remove
find-remove_ne id k [] h = refl
find-remove_ne id k (r ∷ ss) h = ground (arith, find-remove_ne id k ss h)

pub contains-erase_same : (id : ℕ) (l : List ℕ) → contains id (erase id l) ≡ false
contains-erase_same id [] = refl
contains-erase_same id (x ∷ l) = ground (arith, contains-erase_same id l)

pub contains-erase_ne : (id k : ℕ) (l : List ℕ) → k ≢ id → contains id (erase k l) ≡ contains id l
contains-erase_ne id k [] h = refl
contains-erase_ne id k (x ∷ l) h = ground (arith, contains-erase_ne id k l h)

-- A change to a subscriber that leaves its events alone.
pub expects-store :
    (id : ℕ) (t s : PolledSubscriber) (ss : List PolledSubscriber)
    → find t.subscriber.sub_id ss ≡ some s
    → t.poll_events ≡ s.poll_events
    → expects id (store t ss) ≡ expects id ss
unfolding expects
expects-store id t s ss e same =
    ground (arith, find-store_same t s ss e, find-store_ne id t ss, e, same)

-- Two lists with the same subscribers, as far as the notification list goes.
abbrev Same : List PolledSubscriber → List PolledSubscriber → Type 0
Same subs subs' =
    (id : ℕ) → (expects id subs' ≡ expects id subs) × (find id subs ≡ none → find id subs' ≡ none)

pub find-store-none :
    (id : ℕ) (t s : PolledSubscriber) (ss : List PolledSubscriber)
    → find t.subscriber.sub_id ss ≡ some s
    → find id ss ≡ none
    → find id (store t ss) ≡ none
find-store-none id t s ss e h = ground (arith, find-store_ne id t ss, e, h)

pub ready_id :
    (s : PolledSubscriber) → (queue_read_ready s).0.subscriber.sub_id ≡ s.subscriber.sub_id
unfolding queue_read_ready
ready_id s = ground arith

ready_events : (s : PolledSubscriber) → (queue_read_ready s).0.poll_events ≡ s.poll_events
unfolding queue_read_ready
ready_events s = ground arith

-- One round of the notifications.
pub notify-none :
    (k : ℕ) (ids : List ℕ) (ss : List PolledSubscriber)
    → find k ss ≡ none
    → notify (k ∷ ids) ss ≡ notify ids ss
unfolding notify
notify-none k ids ss e = rw (notify, e) refl

pub notify-some :
    (k : ℕ) (ids : List ℕ) (s : PolledSubscriber) (ss : List PolledSubscriber)
    → find k ss ≡ some s
    → notify (k ∷ ids) ss ≡ (
      (notify ids (store (queue_read_ready s).0 ss)).0,
      (queue_read_ready s).1 ++ (notify ids (store (queue_read_ready s).0 ss)).1,
    )
unfolding notify
notify-some k ids s ss e = rw (notify, e) refl

notified-Same :
    (id : ℕ) (s : PolledSubscriber) (ss : List PolledSubscriber)
    → find id ss ≡ some s
    → Same ss (store (queue_read_ready s).0 ss)
notified-Same id s ss e k =
    (expects-store k t s ss here (ready_events s), find-store-none k t s ss here)
  where
    t : PolledSubscriber
    t = (queue_read_ready s).0

    here : find t.subscriber.sub_id ss ≡ some s
    here = ap (λ i. find i ss) (ready_id s ∙ find-id id s ss e) ∙ e

notify-Same : (ids : List ℕ) (ss : List PolledSubscriber) → Same ss (notify ids ss).0
unfolding notify
notify-Same [] ss id = (refl, λ e. e)
notify-Same (k ∷ ids) ss id = elim (Option-cases (find k ss)) [
  | inl e ↦
      subst (λ l. Keeps l) (sym (ap (λ r. r.0) (notify-none k ids ss e))) (notify-Same ids ss id)
  | inr (s, e) ↦
      let (same, absent) = notified-Same k s ss e id in
      let (same', absent') = notify-Same ids (store (queue_read_ready s).0 ss) id in
      subst (λ l. Keeps l) (sym (ap (λ r. r.0) (notify-some k ids s ss e)))
        (same' ∙ same, λ f. absent' (absent f))
]
  where
    Keeps : List PolledSubscriber → Type 0
    Keeps l = (expects id l ≡ expects id ss) × (find id ss ≡ none → find id l ≡ none)

-- A subscriber that is attached polls for nothing yet.
pub attach-IsConsistent : (ch : Channel) → IsConsistent ch → IsConsistent (attach ch)
unfolding attach fresh Queue.initialize_subscriber Subscriber.fresh Subscriber.set_sig_id expects
    find has_pollin
attach-IsConsistent ch h = record {
  listed = λ id. ground (arith, h.listed id, h.below id);
  below = λ id above. ground (arith, h.below id);
}

-- On a channel whose notification list is right, queue_signal with its notifications, whatever it
-- publishes, leaves the list right.
pub queue_signal-IsConsistent :
    (ch : Channel) (src : List ℕ) (n : ℕ) → IsConsistent ch → IsConsistent (queue_signal ch src n).0
unfolding queue_signal Queue.queue_signal Queue.store_signal
queue_signal-IsConsistent ch src n h = record {
  listed = λ id. h.listed id ∙ sym (notify-Same ch.queue.read_notifiers ch.subscribers id).0;
  below = λ id above. (notify-Same ch.queue.read_notifiers ch.subscribers id).1 (h.below id above);
}
