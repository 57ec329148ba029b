-- ===== src/Read/Limits.antt =====
-- The reader's buffer: how many signals one reply holds, how long it is, and what becomes of the
-- number of lost signals.
use native.Mathlib.Nat.{mod-eq_of_lt}
use sigfs.Base.{
  ℕ, ◌+◌, ◌-◌, ◌%◌, ◌≤◌, ◌<◌, ◌≡◌, ◌≢◌, refl, ap, ◌∙◌, false, List, [], ◌∷◌, none, some, arith,
  length, drop, length-append,
}
use sigfs.Common.{sizeof_signal}
use sigfs.Fuse.{Call, reply_iov, req_interrupt_func}
use sigfs.Subscriber
use sigfs.Subscriber.{Subscriber}
use sigfs.Queue.History.{Retains, oldest}
use sigfs.Queue.Position.{IsPlaced}
use sigfs.Channel.{Channel, PolledSubscriber}
use sigfs.Read.{replied, do_read, max_sig}
use sigfs.Read.Gathering.{sent_bytes}
use sigfs.Read.Fitting.{fitting, fitting_none, fitting_some, tagged}
use sigfs.Read.Serve.{first, served, answer, do_read_answers}

-- A signal fits the reader's buffer on its own.
abbrev pub FitsIn : ℕ → List ℕ → Type 0
FitsIn size p = sizeof_signal + length p ≤ size

-- The length of a reply: a header and a payload for each signal.
abbrev pub wire_size : List (List ℕ) → ℕ
wire_size [] = 0
wire_size (p ∷ ps) = sizeof_signal + length p + wire_size ps

pub length-sent_bytes :
    (lost id : ℕ) (ps : List (List ℕ)) → length (sent_bytes (tagged lost id ps)) ≡ wire_size ps
length-sent_bytes lost id [] = refl
length-sent_bytes lost id (p ∷ ps) = omega (
  arith,
  length-append p (sent_bytes (tagged lost (id + 1) ps)),
  length-sent_bytes lost (id + 1) ps,
)

module _ (log : List (List ℕ)) (ch : Channel) (holds : Retains log ch.queue)
    (sub : PolledSubscriber) (placed : IsPlaced log sub.subscriber) (size : ℕ)
    (quiet : sub.subscriber.interrupted ≡ false)
    (ready : (length log + 1 - sub.subscriber.sig_id) % length ch.queue.queue ≢ 0) where
  abbrev id : ℕ
  id = first log ch sub

  abbrev pending : List (List ℕ)
  pending = drop (id - 1) log

  abbrev lost : ℕ
  lost = id - sub.subscriber.sig_id

  -- On a queue that retains a history, for a subscriber that is not interrupted, stands between
  -- signal 1 and the signal after the last, and does not have to wait: if the first two signals
  -- pending fit the reader's buffer one by one, but not together, the reply is longer than the
  -- buffer.
  pub do_read_overflows :
      (p r : List ℕ) (rest : List (List ℕ))
      → pending ≡ p ∷ r ∷ rest
      → FitsIn size p
      → FitsIn size r
      → size < wire_size (p ∷ r ∷ [])
      → (sub' : PolledSubscriber) × (bytes : List ℕ) × (do_read ch sub size ≡ (
        req_interrupt_func (some sub.subscriber.sub_id) ∷ [],
        replied sub' (req_interrupt_func none ∷ reply_iov bytes ∷ []),
      ))
        × (size < length bytes)
  do_read_overflows p r rest e hp hr over = (
    _,
    sent_bytes (tagged lost id (served log ch sub size)),
    do_read_answers log ch sub size holds placed quiet ready,
    omega (arith, length-sent_bytes lost id (served log ch sub size), ap wire_size both, over),
  )
    where
      both : served log ch sub size ≡ p ∷ r ∷ fitting 18 size rest
      both =
          ap (fitting max_sig size) e
          ∙ fitting_some 19 size p (r ∷ rest) (omega (arith, hp))
          ∙ ap (◌∷◌ p) (fitting_some 18 size r rest (omega (arith, hr)))

  -- On a queue that retains a history, for a subscriber that is not interrupted, stands between
  -- signal 1 and the signal after the last, does not have to wait, and is behind the oldest signal
  -- retained: if this signal does not fit the reader's buffer, the reply is empty, the subscriber
  -- stands at that signal, and the reply to its next read, of any size, tells of no lost signals.
  pub do_read_forgets_loss :
      (p : List ℕ) (rest : List (List ℕ)) (size' : ℕ)
      → sub.subscriber.sig_id < oldest (length ch.queue.queue) (length log)
      → pending ≡ p ∷ rest
      → size < sizeof_signal + length p
      → let sub' = record sub { subscriber = Subscriber.set_sig_id sub.subscriber id } in
        (do_read ch sub size ≡ (
          req_interrupt_func (some sub.subscriber.sub_id) ∷ [],
          replied sub' (req_interrupt_func none ∷ reply_iov [] ∷ []),
        ))
        × (do_read ch sub' size' ≡ (
          req_interrupt_func (some sub.subscriber.sub_id) ∷ [],
          answer sub' 0 id (fitting max_sig size' pending),
        ))
  unfolding Subscriber.set_sig_id
  do_read_forgets_loss p rest size' behind e small = (
    do_read_answers log ch sub size holds placed quiet ready
        ∙ ap (λ ps. (register, answer sub lost id ps))
            (ap (fitting max_sig size) e ∙ fitting_none 19 size p rest small)
        ∙ ap
            (λ (t : ℕ). (
              register,
              replied (record sub { subscriber = Subscriber.set_sig_id sub.subscriber t })
                  (req_interrupt_func none ∷ reply_iov [] ∷ []),
            ))
            end,
    do_read_answers log ch sub' size' holds placed' quiet' ready'
        ∙ ap (λ k. (register, answer sub' (k - id) k (fitting max_sig size' (drop (k - 1) log))))
            here
        ∙ ap (λ l. (register, answer sub' l id (fitting max_sig size' pending))) zero_lost,
  )
    where
      register : List Call
      register = req_interrupt_func (some sub.subscriber.sub_id) ∷ []

      sub' : PolledSubscriber
      sub' = record sub { subscriber = Subscriber.set_sig_id sub.subscriber id }

      moved : id ≡ oldest (length ch.queue.queue) (length log)
      moved = ground (arith, behind)

      placed' : IsPlaced log sub'.subscriber
      placed' = record {
        low = omega (arith, placed.low);
        high = ground (arith, placed.high, holds.ring.at_least, moved, behind);
      }

      quiet' : sub'.subscriber.interrupted ≡ false
      quiet' = quiet

      end : id + 0 ≡ id
      end = omega arith

      here : first log ch sub' ≡ id
      here = ground (arith, moved)

      zero_lost : id - id ≡ 0
      zero_lost = omega arith

      ready' : (length log + 1 - id) % length ch.queue.queue ≢ 0
      ready' z = ground (
        arith,
        z,
        placed.low,
        moved,
        behind,
        holds.ring.at_least,
        mod-eq_of_lt {n = length log + 1 - id} {m = length ch.queue.queue}
            (ground (arith, moved, behind, placed.low, holds.ring.at_least)),
      )
