-- ===== src/Read/Serve.antt =====
-- The whole of do_read against the history: when it waits, what it replies, where the reader
-- stands afterwards, and what an interrupt does.
use native.Mathlib.Decide.{ℕ_discrete}
use sigfs.Base.{
  if◌then◌else◌, ==_ne, ==_iff, ◌==◌, Bool, sym, ℕ, ◌+◌, ◌-◌, ◌%◌, ◌≡◌, ◌≢◌, refl, ap, ap₂, ◌∙◌,
  true, false, List, [], ◌∷◌, ◌++◌, none, some, arith, length, drop, max,
}
use sigfs.Fuse.{Call, reply_err, reply_iov, req_interrupt_func, eintr}
use sigfs.Subscriber
use sigfs.Subscriber.{Subscriber}
use sigfs.Queue.Dequeue.{waits, returns, check, dequeue_signal, dequeue_interrupted}
use sigfs.Queue.History.{Retains, oldest}
use sigfs.Queue.Deliver.{deliver_from}
use sigfs.Queue.Refine.{dequeue_signal_lem}
use sigfs.Queue.Position.{IsPlaced}
use sigfs.Channel.{Channel, PolledSubscriber}
use sigfs.Read.{Gather, cb, start, ReadEnd, waiting, replied, finish, do_read, max_sig}
use sigfs.Read.Gathering.{start-Holds, iov_bytes-sent, sent_bytes}
use sigfs.Read.Fitting.{fitting, tagged}
use sigfs.Read.Reply.{cb-KeepsPosition, Served, deliver-Served}

-- The first signal that a reader gets, and the signals from there on.
abbrev pub first : List (List ℕ) → Channel → PolledSubscriber → ℕ
first log ch sub = max sub.subscriber.sig_id (oldest (length ch.queue.queue) (length log))

abbrev pub served : List (List ℕ) → Channel → PolledSubscriber → ℕ → List (List ℕ)
served log ch sub size = fitting max_sig size (drop (first log ch sub - 1) log)

-- The reply to a read that got `ps`, from signal `id` on.
abbrev pub answer : PolledSubscriber → ℕ → ℕ → List (List ℕ) → ReadEnd
answer sub lost id ps =
    replied (record sub { subscriber = Subscriber.set_sig_id sub.subscriber (id + length ps) })
      (req_interrupt_func none ∷ reply_iov (sent_bytes (tagged lost id ps)) ∷ [])

-- The handler's end, from what the loop gathered.
finish-Served :
    (sub : PolledSubscriber) (lost id size : ℕ) (ps : List (List ℕ)) (out : Subscriber × Gather)
    → Served [] lost id ps (Subscriber.set_sig_id sub.subscriber id) (start size) out
    → finish sub (returns true out.0 out.1) ≡ answer sub lost id ps
unfolding finish Subscriber.set_sig_id
finish-Served sub lost id size ps out s =
    ap₂ (λ (t : Subscriber) (calls : List Call). replied (record sub { subscriber = t }) calls)
      s.moved
      (ap₂
        (λ (calls : List Call) (bytes : List ℕ).
          calls ++ (req_interrupt_func none ∷ reply_iov bytes ∷ []))
        s.silent (iov_bytes-sent (tagged lost id ps) out.1 s.holds))

module _ (log : List (List ℕ)) (ch : Channel) (holds : Retains log ch.queue)
    (sub : PolledSubscriber) (placed : IsPlaced log sub.subscriber) (size : ℕ) where
  abbrev register : List Call
  register = req_interrupt_func (some sub.subscriber.sub_id) ∷ []

  pub do_read_lem :
      sub.subscriber.interrupted ≡ false
      → let id = first log ch sub in
        let phase = (length log + 1 - sub.subscriber.sig_id) % length ch.queue.queue in
        do_read ch sub size ≡ (
          register,
          if phase == 0
              then waiting
              else answer sub (id - sub.subscriber.sig_id) id (served log ch sub size),
        )
  unfolding do_read deliver_from Subscriber.set_sig_id
  do_read_lem quiet = elim (ℕ_discrete phase 0) [
    | yes z ↦
        ap (λ o. (register, finish sub o)) (outcome ∙ by_phase ((==_iff phase 0).1 z))
        ∙ ap (λ b. (register, if b then waiting else reply_here)) (sym ((==_iff phase 0).1 z))
    | no z ↦
        ap (λ o. (register, finish sub o)) (outcome ∙ by_phase (==_ne z))
        ∙ ap (λ e. (register, e))
            (finish-Served sub lost id size (served log ch sub size) run gathered)
        ∙ ap (λ b. (register, if b then waiting else reply_here)) (sym (==_ne z))
  ]
    where
      id : ℕ
      id = first log ch sub

      lost : ℕ
      lost = id - sub.subscriber.sig_id

      run : Subscriber × Gather
      run = deliver_from cb (length ch.queue.queue) log sub.subscriber (start size)

      phase : ℕ
      phase = (length log + 1 - sub.subscriber.sig_id) % length ch.queue.queue

      reply_here : ReadEnd
      reply_here = answer sub lost id (served log ch sub size)

      by_phase :
          {b : Bool}
          → (phase == 0) ≡ b
          → (if phase == 0 then waits else returns true run.0 run.1)
            ≡ (if b then waits else returns true run.0 run.1)
      by_phase e = ap (λ b. if b then waits else returns true run.0 run.1) e

      outcome :
          dequeue_signal cb ch.queue sub.subscriber (start size)
          ≡ (if phase == 0 then waits else returns true run.0 run.1)
      outcome =
          dequeue_signal_lem log ch.queue holds cb cb-KeepsPosition sub.subscriber (start size)
            placed.low placed.high quiet

      gathered :
          Served [] lost id
            (served log ch sub size)
            (Subscriber.set_sig_id sub.subscriber id)
            (start size)
            run
      gathered =
          deliver-Served (drop (id - 1) log) max_sig [] lost id
            (Subscriber.set_sig_id sub.subscriber id) (start size) (start-Holds size) refl
            (omega arith) refl

-- The second case of it, by name.
pub do_read_answers :
    (log : List (List ℕ)) (ch : Channel) (sub : PolledSubscriber) (size : ℕ)
    → Retains log ch.queue
    → IsPlaced log sub.subscriber
    → sub.subscriber.interrupted ≡ false
    → (length log + 1 - sub.subscriber.sig_id) % length ch.queue.queue ≢ 0
    → let id = first log ch sub in
      do_read ch sub size ≡ (
        req_interrupt_func (some sub.subscriber.sub_id) ∷ [],
        answer sub (id - sub.subscriber.sig_id) id (served log ch sub size),
      )
do_read_answers log ch sub size holds placed quiet apart =
    do_read_lem log ch holds sub placed size quiet
    ∙ ap
        (λ b.
          (req_interrupt_func (some sub.subscriber.sub_id) ∷ [], if b then waiting else reply_here))
        (==_ne apart)
  where
    reply_here : ReadEnd
    reply_here =
        answer sub (first log ch sub - sub.subscriber.sig_id) (first log ch sub)
          (served log ch sub size)

-- An interrupted read takes the interrupt back.
pub do_read_interrupted :
    (ch : Channel) (sub : PolledSubscriber) (size : ℕ)
    → sub.subscriber.interrupted ≡ true
    → do_read ch sub size ≡ (
      req_interrupt_func (some sub.subscriber.sub_id) ∷ [],
      replied
          (record sub { subscriber = Subscriber.set_interrupted sub.subscriber false })
          (req_interrupt_func none ∷ reply_err eintr ∷ []),
    )
unfolding do_read dequeue_signal check dequeue_interrupted cb
do_read_interrupted ch sub size e = simp e
