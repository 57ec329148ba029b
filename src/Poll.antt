-- ===== src/Poll.antt =====
-- sigfs.cc, do_poll: a poll is answered at once when a signal is there, or else remembered, to be
-- notified by the next queue_signal.
pub mod Wakeup
pub mod Race
pub mod Handles
pub mod Overlap
use sigfs.Base.{ℕ, Bool, true, false, ◌&&◌, List, [], ◌∷◌, ◌++◌, Option, none, some, if◌then◌else◌}
use sigfs.Fuse.{Call, reply_poll, pollhandle_destroy, pollin}
use sigfs.Queue
use sigfs.Channel
use sigfs.Channel.{Channel, PolledSubscriber, has_pollin}

-- No immediate event: the handle and the events are stored in the subscriber. No lock is held: `sub`
-- is the subscriber as the code reads it, which another thread may have changed since (Poll.Overlap).
unfoldable pub remember : Channel → PolledSubscriber → ℕ → Option ℕ → Channel × List Call
unfolding Channel.set_poll_handle Channel.set_poll_events Channel.store
remember ch sub events ph =
    let (sub1, calls) = Channel.set_poll_handle sub ph in
    let (q, sub2) = Channel.set_poll_events ch.queue sub1 events in
    (
      record ch { queue = q; subscribers = Channel.store sub2 ch.subscribers },
      calls ++ (reply_poll 0 ∷ []),
    )

-- `events` is fi->poll_events, and `ph` is null when the caller does not wait.
unfoldable pub do_poll : Channel → PolledSubscriber → ℕ → Option ℕ → Channel × List Call
unfolding has_pollin Queue.signal_available remember
do_poll ch sub events ph =
    if has_pollin events && Queue.signal_available ch.queue sub.subscriber
    then (
      ch,
      reply_poll pollin ∷ elim ph [ none ↦ [] | some handle ↦ pollhandle_destroy handle ∷ [] ],
    )
    else remember ch sub events ph
