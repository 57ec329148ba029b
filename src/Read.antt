-- ===== src/Read.antt =====
-- sigfs.cc, do_read and read_interrupt: a read(2) gathers signals into an array of iovec, two
-- entries for each, and replies with all of them at once.
pub mod Gathering
pub mod Fitting
pub mod Reply
pub mod Serve
pub mod Limits
pub mod Unprotected
use sigfs.Base.{
  ℕ, ◌+◌, ◌-◌, Bool, true, false, ◌&&◌, List, [], ◌∷◌, ◌++◌, Option, none, some, ltb, if◌then◌else◌,
  take, set, get_or, replicate,
}
use sigfs.Common.{to_u32, sizeof_signal}
use sigfs.Fuse.{Call, reply_err, reply_iov, req_interrupt_func, eintr}
use sigfs.Wire.{SignalHeader, header_bytes}
use sigfs.Subscriber
use sigfs.Subscriber.{Subscriber}
use sigfs.Queue
use sigfs.Queue.Dequeue.{
  CbResult, processed_call_again, processed_dont_call_again, not_processed, Delivery, Callback,
  Outcome, waits, runs_out, returns, dequeue_signal,
}
use sigfs.Channel
use sigfs.Channel.{Channel, PolledSubscriber}

-- struct iovec: not set yet, a pointer to sig[i] with its size, or the bytes that a pointer into a
-- slot's buffer led to when the signal was delivered. The code reads them at the reply, outside the
-- queue's lock: they are the same if no publication comes between, and else see Read.Unprotected.
pub data Iovec : Type 0 where
  unset : Iovec
  header : ℕ → Iovec
  bytes : List ℕ → Iovec

abbrev pub max_iov : ℕ
max_iov = 40

abbrev pub max_sig : ℕ
max_sig = 20

-- What the callback captures by reference, and the calls that it makes.
pub record Gather : Type 0 where
  pub iov : List Iovec
  pub sig : List SignalHeader
  pub sig_ind : ℕ
  pub iov_ind : ℕ
  pub size_left : ℕ
  pub tot_payload : ℕ
  pub calls : List Call

abbrev pub no_header : SignalHeader
no_header = record { lost_signals = 0; signal_id = 0; payload_size = 0 }

-- The locals of do_read, for a buffer of `size` bytes.
abbrev pub start : ℕ → Gather
start size = record {
  iov = replicate max_iov unset;
  sig = replicate max_sig no_header;
  sig_ind = 0;
  iov_ind = 0;
  size_left = size;
  tot_payload = 0;
  calls = [];
}

-- One signal is added: its header to sig, a pointer to that and the payload to iov.
unfoldable pub add_signal : Delivery → List ℕ → Gather → Gather
add_signal d payload g = record g {
  sig = set g.sig g.sig_ind (record {
    lost_signals = d.lost_signals;
    signal_id = d.signal_id;
    payload_size = d.payload_size;
  });
  iov = set (set g.iov g.iov_ind (header g.sig_ind)) (g.iov_ind + 1) (bytes payload);
  iov_ind = g.iov_ind + 2;
  sig_ind = g.sig_ind + 1;
  tot_payload = to_u32 (g.tot_payload + (sizeof_signal + d.payload_size));
}

-- The answer to a signal that was added.
unfoldable pub can_accept : Gather → Delivery → CbResult
can_accept g d =
    if ltb g.iov_ind (max_iov - 1) && ltb 0 d.remaining_signal_count
    then processed_call_again
    else processed_dont_call_again

-- The lambda `cb`.
unfoldable pub cb : Callback Gather
unfolding Subscriber.set_interrupted
cb d sub g = elim d.payload [
  | none ↦ (
    not_processed,
    Subscriber.set_interrupted sub false,
    record g { calls = g.calls ++ (req_interrupt_func none ∷ []) },
  )
  | some payload ↦
      if ltb g.size_left (sizeof_signal + d.payload_size)
      then (not_processed, sub, g)
      else (can_accept (add_signal d payload g) d, sub, add_signal d payload g)
]

-- The bytes that an array of iovec points to.
abbrev pub iov_bytes : List SignalHeader → List Iovec → List ℕ
iov_bytes sig [] = []
iov_bytes sig (unset ∷ iov) = iov_bytes sig iov
iov_bytes sig (header i ∷ iov) = header_bytes (get_or sig i no_header) ++ iov_bytes sig iov
iov_bytes sig (bytes payload ∷ iov) = payload ++ iov_bytes sig iov

-- fuse_reply_iov(req, iov, iov_ind)
abbrev pub reply : Gather → Call
reply g = reply_iov (iov_bytes g.sig (take g.iov_ind g.iov))

-- How a read ends: it waits for a signal or an interrupt, or is replied to.
pub data ReadEnd : Type 0 where
  waiting : ReadEnd
  replied : PolledSubscriber → List Call → ReadEnd
  stuck : ReadEnd

-- From dequeue_signal on. `stuck` is no behaviour of the code: the fuel of its loop ran out.
unfoldable pub finish : PolledSubscriber → Outcome Gather → ReadEnd
finish sub waits = waiting
finish sub runs_out = stuck
finish sub (returns false sub' g) =
    replied (record sub { subscriber = sub' }) (g.calls ++ (reply_err eintr ∷ []))
finish sub (returns true sub' g) =
    replied (record sub { subscriber = sub' }) (g.calls ++ (req_interrupt_func none ∷ reply g ∷ []))

-- The calls before dequeue_signal, which register the subscriber to be interrupted, and the end. The
-- lock is held by dequeue_signal alone: nothing is published between it and the reply here.
unfoldable pub do_read : Channel → PolledSubscriber → ℕ → List Call × ReadEnd
unfolding finish
do_read ch sub size = (
  req_interrupt_func (some sub.subscriber.sub_id) ∷ [],
  finish sub (dequeue_signal cb ch.queue sub.subscriber (start size)),
)

-- read_interrupt: the flag is set under the queue's lock, and waiting readers look at it.
unfoldable pub read_interrupt : Channel → PolledSubscriber → PolledSubscriber
unfolding Queue.interrupt_dequeue
read_interrupt ch sub = record sub { subscriber = Queue.interrupt_dequeue ch.queue sub.subscriber }
