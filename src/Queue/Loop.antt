-- ===== src/Queue/Loop.antt =====
-- The loop of dequeue_signal, started at a retained signal, against the rest of the history.
use native.Mathlib.Nat.{mod-eq_of_lt}
use native.Mathlib.Decide.{dec_lt}
use sigfs.Base.{
  ℕ, zero, suc, ◌+◌, ◌-◌, ◌%◌, ◌≤◌, ◌<◌, ◌≡◌, refl, ap, ◌∙◌, not, ◌||◌, if◌then◌else◌, true, false,
  List, some, arith, length, get_elem?, drop, drop-eq-cons, drop_of_le, Bool-cases, inl, inr,
  length-drop, lt_of_get_elem?, ◌^◌,
}
use sigfs.Common.{to_u32, to_u64}
use sigfs.Subscriber
use sigfs.Subscriber.{Subscriber}
use sigfs.Queue.{Queue, slot, index, signal_available}
use sigfs.Queue.Dequeue.{
  CbResult, processed_call_again, processed_dont_call_again, not_processed, is_call_again, advance,
  Callback, Outcome, returns, Delivery, delivery, dequeue_loop,
}
use sigfs.Queue.Ring.{index-mod}
use sigfs.Queue.History.{Retains, oldest}
use sigfs.Queue.Deliver.{KeepsPosition, told, deliver}
use sigfs.Queue.Ready.{signal_available_iff}

module _ (log : List (List ℕ)) (q : Queue) (holds : Retains log q) where
  open holds use {ring, few, next_id, head_at, tail_at, head_nil, retained}

  abbrev slots : ℕ
  slots = length q.queue

  abbrev count : ℕ
  count = length log

  -- What the loop passes to the callback is what the history tells of that signal.
  delivery_lem :
      (lost i : ℕ) (bytes : List ℕ) (sub : Subscriber)
      → get_elem? log i ≡ some bytes
      → oldest slots count ≤ i + 1
      → sub.sig_id ≡ i + 1
      → delivery q lost sub ≡ told lost (i + 1) bytes (length (drop (suc i) log))
  unfolding delivery
  delivery_lem lost i bytes sub e h at =
      let (_, p, stored, size, content) = retained i bytes e h in
      ground (arith, ap (λ t. (slot q t).payload) place ∙ stored, size, content, remaining)
    where
      place : index q sub.sig_id ≡ (i + 1) % slots
      place = index-mod ring sub.sig_id ∙ ap (λ t. t % slots) at

      remaining :
          to_u32 (to_u64 (q.next_sig_id + 2 ^ 65 - sub.sig_id - 1)) ≡ length (drop (suc i) log)
      remaining = omega (arith, next_id, few, length-drop (suc i) log, lt_of_get_elem? log i e)

  -- Inside the window a signal is available until the position reaches the next id.
  available_in_window :
      (sub : Subscriber)
      → oldest slots count ≤ sub.sig_id
      → sub.sig_id ≤ count
      → signal_available q sub ≡ true
  available_in_window sub h k =
      (signal_available_iff log q holds sub (ground arith) (omega arith)).1 (λ z.
        absurd
          (omega (arith, z, mod-eq_of_lt {n = count + 1 - sub.sig_id} {m = slots} (ground arith))))

  pub available_at_end :
      (sub : Subscriber) → sub.sig_id ≡ count + 1 → signal_available q sub ≡ false
  available_at_end sub e = elim (Bool-cases (signal_available q sub)) [
    | inl yes' ↦
        absurd ((signal_available_iff log q holds sub (omega arith) (omega arith)).0 yes' at_head)
    | inr no' ↦ no'
  ]
    where
      at_head : (count + 1 - sub.sig_id) % slots ≡ 0
      at_head =
          ap (λ t. t % slots) (omega arith)
          ∙ mod-eq_of_lt {n = 0} {m = slots} (omega (arith, ring.at_least))

  moved :
      (i : ℕ) (sub : Subscriber)
      → sub.sig_id ≡ i + 1
      → i < count
      → to_u64 (sub.sig_id + 1) ≡ i + 1 + 1
  moved i sub at k = omega (arith, few)

  module _ {ℓ} {C : Type ℓ} (cb : Callback C) (keeps : KeepsPosition cb) (lost : ℕ) where
    abbrev pub finish : Subscriber × C → Outcome C
    finish r = returns true r.0 r.1

    -- What the loop does with the callback's answer, if the rounds that are left do as they should.
    answered :
        (fuel i : ℕ) (res : CbResult) (sub : Subscriber) (c : C)
        → sub.sig_id ≡ i + 1
        → oldest slots count ≤ i + 1
        → i < count
        → ((sub' : Subscriber)
            → sub'.sig_id ≡ suc i + 1
            → suc i < count
            → dequeue_loop cb q fuel lost sub' c
              ≡ finish (deliver cb lost (suc i + 1) (drop (suc i) log) sub' c))
        → (let sub'' = advance res sub in
            if not (is_call_again res) || not (signal_available q sub'')
            then returns true sub'' c
            else dequeue_loop cb q fuel lost sub'' c)
          ≡ finish (elim res [
            | processed_call_again ↦
                deliver cb lost
                  (i + 1 + 1)
                  (drop (suc i) log)
                  (Subscriber.set_sig_id sub (i + 1 + 1))
                  c
            | processed_dont_call_again ↦ (Subscriber.set_sig_id sub (i + 1 + 1), c)
            | not_processed ↦ (sub, c)
          ])
    unfolding advance is_call_again deliver Subscriber.set_sig_id
    answered fuel i not_processed sub c at h k again = refl
    answered fuel i processed_dont_call_again sub c at h k again =
        ap (λ t. returns true (Subscriber.set_sig_id sub t) c) (moved i sub at k)
    answered fuel i processed_call_again sub c at h k again = elim (dec_lt (suc i) count) [
      | yes more ↦
          rw
            (
              moved i sub at k,
              available_in_window (Subscriber.set_sig_id sub (i + 1 + 1)) (omega arith)
                  (omega arith),
            )
            (again (Subscriber.set_sig_id sub (i + 1 + 1)) (omega arith) more
              ∙ ap
                  (λ t. finish (
                    deliver cb lost t (drop (suc i) log) (Subscriber.set_sig_id sub (i + 1 + 1)) c))
                  (omega arith))
      | no last ↦ rw (
        moved i sub at k,
        available_at_end (Subscriber.set_sig_id sub (i + 1 + 1)) (omega arith),
        drop_of_le (suc i) log (omega arith),
        deliver,
      )
    ]

    -- From a retained position the loop delivers the rest of the history. A round of fuel for each
    -- signal is enough.
    pub dequeue_loop_lem :
        (fuel i : ℕ) (sub : Subscriber) (c : C)
        → sub.sig_id ≡ i + 1
        → oldest slots count ≤ i + 1
        → i < count
        → count ≤ i + fuel
        → dequeue_loop cb q fuel lost sub c ≡ finish (deliver cb lost (i + 1) (drop i log) sub c)
    unfolding dequeue_loop deliver
    dequeue_loop_lem zero i sub c at h k enough = absurd (omega arith)
    dequeue_loop_lem (suc fuel) i sub c at h k enough =
        let (bytes, e, split) = drop-eq-cons log i k in
        let d : Delivery = told lost (i + 1) bytes (length (drop (suc i) log)) in
        let (res, sub', c') = cb d sub c in
        rw (delivery_lem lost i bytes sub e h at, split)
          (answered fuel i res sub' c' (keeps d sub c ∙ at) h k
            (λ s at' k'. dequeue_loop_lem fuel (suc i) s c' at' (omega arith) k' (omega arith)))
