-- ===== src/Queue/Deliver.antt =====
-- What a call of dequeue_signal delivers, told by the history alone: the signals from a position
-- on, one callback for each, until the callback stops or the history ends.
use sigfs.Base.{ℕ, ◌+◌, ◌-◌, ◌≡◌, ap, List, [], ◌∷◌, some, length, drop, max}
use sigfs.Subscriber
use sigfs.Subscriber.{Subscriber}
use sigfs.Queue.Dequeue.{
  CbResult, processed_call_again, processed_dont_call_again, not_processed, Delivery, Callback,
}
use sigfs.Queue.History.{oldest}

-- A callback that leaves its subscriber's position alone.
abbrev pub KeepsPosition {ℓ} : {C : Type ℓ} → Callback C → Type ℓ
KeepsPosition {C} cb =
    (d : Delivery) (sub : Subscriber) (c : C) → (cb d sub c).1.sig_id ≡ sub.sig_id

-- The callback's arguments for a signal with `later` signals after it.
abbrev pub told : ℕ → ℕ → List ℕ → ℕ → Delivery
told lost id bytes later = record {
  signal_id = id;
  payload = some bytes;
  payload_size = length bytes;
  lost_signals = lost;
  remaining_signal_count = later;
}

module _ {ℓ} {C : Type ℓ} (cb : Callback C) where
  unfoldable pub deliver : ℕ → ℕ → List (List ℕ) → Subscriber → C → Subscriber × C
  deliver lost id [] sub c = (sub, c)
  deliver lost id (bytes ∷ rest) sub c =
      let (res, sub', c') = cb (told lost id bytes (length rest)) sub c in
      elim res [
        | processed_call_again ↦ deliver lost (id + 1) rest (Subscriber.set_sig_id sub' (id + 1)) c'
        | processed_dont_call_again ↦ (Subscriber.set_sig_id sub' (id + 1), c')
        | not_processed ↦ (sub', c')
      ]

  abbrev respond : ℕ → ℕ → List (List ℕ) → CbResult × Subscriber × C → Subscriber × C
  respond lost id rest r = elim r.0 [
    | processed_call_again ↦ deliver lost (id + 1) rest (Subscriber.set_sig_id r.1 (id + 1)) r.2
    | processed_dont_call_again ↦ (Subscriber.set_sig_id r.1 (id + 1), r.2)
    | not_processed ↦ (r.1, r.2)
  ]

  -- One callback, by its answer.
  module _ (lost id : ℕ) (bytes : List ℕ) (rest : List (List ℕ)) (sub sub' : Subscriber)
      (c c' : C) where
    pub deliver_stop :
        cb (told lost id bytes (length rest)) sub c ≡ (not_processed, sub', c')
        → deliver lost id (bytes ∷ rest) sub c ≡ (sub', c')
    unfolding deliver
    deliver_stop e = ap (respond lost id rest) e

    pub deliver_last :
        cb (told lost id bytes (length rest)) sub c ≡ (processed_dont_call_again, sub', c')
        → deliver lost id (bytes ∷ rest) sub c ≡ (Subscriber.set_sig_id sub' (id + 1), c')
    unfolding deliver
    deliver_last e = ap (respond lost id rest) e

    pub deliver_more :
        cb (told lost id bytes (length rest)) sub c ≡ (processed_call_again, sub', c')
        → deliver lost id (bytes ∷ rest) sub c
          ≡ deliver lost (id + 1) rest (Subscriber.set_sig_id sub' (id + 1)) c'
    unfolding deliver
    deliver_more e = ap (respond lost id rest) e

  -- A reader begins at its position, or at the oldest signal retained, if that is later, and every
  -- callback is told how many signals lay between the two.
  unfoldable pub deliver_from : ℕ → List (List ℕ) → Subscriber → C → Subscriber × C
  unfolding deliver
  deliver_from slots log sub c =
      let start = max sub.sig_id (oldest slots (length log)) in
      deliver (start - sub.sig_id) start (drop (start - 1) log) (Subscriber.set_sig_id sub start) c
