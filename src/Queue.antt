-- ===== src/Queue.antt =====
-- queue.hh and queue.cc: the ring of signals of one file, with the operations that a publisher or
-- the poll handler calls under read_ready_mutex_. Queue/Dequeue.antt has the reader's side.
-- Every operation holds that mutex from its first access to its last, so a run of the program is a
-- sequence of these functions.
pub mod Dequeue
pub mod Create
pub mod Ring
pub mod History
pub mod Deliver
pub mod Loop
pub mod Refine
pub mod Publish
pub mod Position
pub mod Ready
pub mod Runs
pub mod Narrow
use sigfs.Base.{
  ℕ, ◌+◌, ◌-◌, ◌^◌, Bool, true, false, not, ◌||◌, List, [], Option, none, some, bit_and, ltb, ◌==◌,
  if◌then◌else◌, length, get_or, set, replicate,
}
use sigfs.Common.{to_u32, to_u64}
use sigfs.Signal
use sigfs.Signal.{Signal}
use sigfs.Subscriber
use sigfs.Subscriber.{Subscriber}

-- read_notifiers_ holds the ids of the subscribers to call. active_subscribers_ is never read.
pub record Queue : Type 0 where
  pub next_sig_id : ℕ
  pub queue : List Signal
  pub queue_mask : ℕ
  pub head : ℕ
  pub tail : ℕ
  pub read_notifiers : List ℕ

-- The members as the constructor initialises them.
abbrev pub empty_ring : ℕ → Queue
empty_ring queue_size = record {
  next_sig_id = 1;
  queue = replicate queue_size Signal.init;
  queue_mask = to_u32 (queue_size + 2 ^ 32 - 1);
  head = 1;
  tail = 1;
  read_notifiers = [];
}

-- The constructor; `none` is exit(255).
unfoldable pub init : ℕ → Option Queue
init queue_size =
    if ltb queue_size 4
    then none
    else if not (bit_and queue_size (queue_size - 1) == 0)
    then none
    else some (empty_ring queue_size)

-- queue_[i]
abbrev pub slot : Queue → ℕ → Signal
slot q i = get_or q.queue i Signal.init

unfoldable pub queue_length : Queue → ℕ
queue_length q = to_u32 (q.queue_mask + 1)

-- The mask is a uint32_t, so the result is one too.
unfoldable pub index : Queue → ℕ → ℕ
index q id = bit_and id q.queue_mask

unfoldable pub next : Queue → ℕ → ℕ
next q i = bit_and (to_u32 (i + 1)) q.queue_mask

unfoldable pub prev : Queue → ℕ → ℕ
prev q i = bit_and (to_u32 (i + 2 ^ 32 - 1)) q.queue_mask

unfoldable pub is_empty : Queue → Bool
is_empty q = q.head == q.tail

-- tail_sig_id_, and tail_sig_id, which takes the lock around it
unfoldable pub tail_sig_id : Queue → ℕ
tail_sig_id q = (slot q q.tail).sig_id

-- queue_signal up to the notifications: the signal goes to the head slot, the head moves on, and
-- pushes the tail when it bumps into it.
unfoldable pub store_signal : Queue → List ℕ → ℕ → Queue
store_signal q src n = record q {
  queue = set stored head' (Signal.set_sig_id (get_or stored head' Signal.init) 0);
  next_sig_id = to_u64 (q.next_sig_id + 1);
  head = head';
  tail = if head' == q.tail then next q q.tail else q.tail;
}
  where
    stored : List Signal
    stored = set q.queue q.head (Signal.set (slot q q.head) q.next_sig_id src n)

    head' : ℕ
    head' = next q q.head

-- queue_signal: the new queue, and the subscribers whose queue_read_ready is called, in order.
unfoldable pub queue_signal : Queue → List ℕ → ℕ → Queue × List ℕ
queue_signal q src n = (store_signal q src n, q.read_notifiers)

-- signal_available_, and signal_available, which takes the lock around it
unfoldable pub signal_available : Queue → Subscriber → Bool
unfolding is_empty index
signal_available q sub = if is_empty q || index q sub.sig_id == q.head then false else true

-- interrupt_dequeue sets the flag under the lock, and wakes every waiting reader.
unfoldable pub interrupt_dequeue : Queue → Subscriber → Subscriber
interrupt_dequeue q sub = Subscriber.set_interrupted sub true

unfoldable pub initialize_subscriber : Queue → Subscriber → Subscriber
initialize_subscriber q sub = Subscriber.set_sig_id sub q.next_sig_id
