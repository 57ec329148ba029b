-- ===== src/Queue/Dequeue.antt =====
-- queue_impl.hh: dequeue_signal, the reader's side of the queue.
-- A call that has to wait returns `waits` and changes nothing: the reader tests again after each
-- notification, with the queue that it finds then.
use sigfs.Base.{
  ℕ, zero, suc, ◌+◌, ◌-◌, ◌^◌, Bool, true, false, not, ◌||◌, List, Option, none, some, ltb,
  if◌then◌else◌, length,
}
use mathlib.Core.Option
use sigfs.Common.{to_u32, to_u64}
use sigfs.Signal
use sigfs.Subscriber
use sigfs.Subscriber.{Subscriber}
use sigfs.Queue.{Queue, slot, index, is_empty, tail_sig_id, signal_available}

-- cb_result_t
pub data CbResult : Type 0 where
  processed_call_again processed_dont_call_again not_processed : CbResult

-- The arguments of a callback. The payload is a pointer to payload_size bytes, or null.
pub record Delivery : Type 0 where
  pub signal_id : ℕ
  pub payload : Option (List ℕ)
  pub payload_size : ℕ
  pub lost_signals : ℕ
  pub remaining_signal_count : ℕ

-- signal_callback_t: it works on its own captured state, and may change its subscriber.
abbrev pub Callback {ℓ} : Type ℓ → Type ℓ
Callback C = Delivery → Subscriber → C → CbResult × Subscriber × C

-- `returns b` is a return of b. `runs_out` is no behaviour of the code: the fuel was too small.
pub data Outcome {ℓ} (C : Type ℓ) : Type ℓ where
  waits runs_out : Outcome C
  returns : Bool → Subscriber → C → Outcome C

-- The lambda `check`, on which the condition variable waits.
unfoldable pub check : Queue → Subscriber → Bool
unfolding is_empty index
check q sub =
    if sub.interrupted
    then true
    else if is_empty q || ltb (slot q (index q sub.sig_id)).sig_id sub.sig_id
    then false
    else true

-- A reader that is behind the tail moves up to it, with the number of signals that it lost.
unfoldable pub catch_up : Queue → Subscriber → Subscriber × ℕ
unfolding tail_sig_id Subscriber.set_sig_id
catch_up q sub =
    if ltb sub.sig_id (tail_sig_id q)
    then (Subscriber.set_sig_id sub (tail_sig_id q), to_u32 (tail_sig_id q - sub.sig_id))
    else (sub, 0)

-- What the callback is told of the signal at the subscriber's position. next_sig_id_ - sig_id - 1
-- is a difference of uint64_t, passed as a uint32_t. A slot that was never set has no payload: there
-- the code reads through a null pointer, and the callback gets none here.
unfoldable pub delivery : Queue → ℕ → Subscriber → Delivery
unfolding index
delivery q lost sub = record {
  signal_id = sub.sig_id;
  payload = Option.map Signal.read stored;
  payload_size = elim stored [ none ↦ 0 | some p ↦ p.payload_size ];
  lost_signals = lost;
  remaining_signal_count = to_u32 (to_u64 (q.next_sig_id + 2 ^ 65 - sub.sig_id - 1));
}
  where
    stored : Option Signal.Payload
    stored = (slot q (index q sub.sig_id)).payload

unfoldable pub is_processed : CbResult → Bool
is_processed not_processed = false
is_processed _ = true

unfoldable pub is_call_again : CbResult → Bool
is_call_again processed_call_again = true
is_call_again _ = false

-- After a callback: a signal that was processed is passed.
unfoldable pub advance : CbResult → Subscriber → Subscriber
unfolding is_processed Subscriber.set_sig_id
advance res sub =
    if is_processed res then Subscriber.set_sig_id sub (to_u64 (sub.sig_id + 1)) else sub

module _ {ℓ} {C : Type ℓ} (cb : Callback C) (q : Queue) where
  -- The loop `while (true)`, with the number of its rounds as fuel.
  unfoldable pub dequeue_loop : ℕ → ℕ → Subscriber → C → Outcome C
  unfolding delivery advance is_call_again signal_available
  dequeue_loop zero lost sub c = runs_out
  dequeue_loop (suc fuel) lost sub c =
      let (res, sub', c') = cb (delivery q lost sub) sub c in
      let sub'' = advance res sub' in
      let rest = dequeue_loop fuel lost sub'' c' in
      if not (is_call_again res) || not (signal_available q sub'')
      then returns true sub'' c'
      else rest

  unfoldable pub dequeue_ready : Subscriber → C → Outcome C
  unfolding catch_up dequeue_loop
  dequeue_ready sub c =
      let (sub', lost) = catch_up q sub in dequeue_loop (length q.queue) lost sub' c

  -- The callback's answer to an interrupt, with a null payload, is not looked at.
  unfoldable pub dequeue_interrupted : Subscriber → C → Outcome C
  dequeue_interrupted sub c =
      let null : Delivery = record {
        signal_id = 0;
        payload = none;
        payload_size = 0;
        lost_signals = 0;
        remaining_signal_count = 0;
      } in
      let (_, sub', c') = cb null sub c in returns false sub' c'

  unfoldable pub dequeue_signal : Subscriber → C → Outcome C
  dequeue_signal sub c =
      if not (check q sub)
      then waits
      else if sub.interrupted
      then dequeue_interrupted sub c
      else dequeue_ready sub c
