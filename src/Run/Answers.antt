-- ===== src/Run/Answers.antt =====
-- The two ways in which a read is replied, and where each leaves its subscriber.
use native.Mathlib.Decide.{ℕ_discrete}
use sigfs.Base.{
  ℕ, zero, suc, ◌+◌, ◌-◌, ◌%◌, ◌≤◌, ◌<◌, ◌≡◌, ◌≢◌, ◌⊎◌, refl, sym, ap, ◌∙◌, subst, false, List, [],
  ◌∷◌, none, arith, ==_iff, if◌then◌else◌, Bool-cases, inl, inr, length, drop, length-drop,
}
use sigfs.Fuse.{Call, req_interrupt_func, reply_err, reply_iov, eintr}
use sigfs.Subscriber
use sigfs.Subscriber.{Subscriber}
use sigfs.Queue.History.{Retains}
use sigfs.Queue.Position.{IsPlaced}
use sigfs.Channel.{PolledSubscriber, Channel}
use sigfs.Read.{ReadEnd, replied, waiting, do_read, max_sig}
use sigfs.Read.Gathering.{sent_bytes}
use sigfs.Read.Fitting.{fitting, tagged}
use sigfs.Read.Serve.{first, served, answer, do_read_lem, do_read_answers, do_read_interrupted}

replied_injective :
    (s t : PolledSubscriber) (cs ds : List Call) → replied s cs ≡ replied t ds → (s ≡ t) × (cs ≡ ds)
replied_injective s t cs ds e = (cc e, cc e)

waiting_replied : (s : PolledSubscriber) (cs : List Call) → waiting ≢ replied s cs
waiting_replied s cs e = cc e

abbrev pub Interrupted : PolledSubscriber → PolledSubscriber → List Call → Type 0
Interrupted sub sub' calls =
    (sub' ≡ record sub { subscriber = Subscriber.set_interrupted sub.subscriber false })
    × (calls ≡ req_interrupt_func none ∷ reply_err eintr ∷ [])

abbrev pub Answered :
    List (List ℕ) → Channel → PolledSubscriber → ℕ → PolledSubscriber → List Call → Type 0
Answered log ch sub size sub' calls =
    let id = first log ch sub in
    let ps = served log ch sub size in
    (sub' ≡ record sub { subscriber = Subscriber.set_sig_id sub.subscriber (id + length ps) })
    × (calls
        ≡ req_interrupt_func none
          ∷ reply_iov (sent_bytes (tagged (id - sub.subscriber.sig_id) id ps))
          ∷ [])

pub read_cases :
    (log : List (List ℕ)) (ch : Channel) (sub sub' : PolledSubscriber) (size : ℕ)
    (calls : List Call)
    → Retains log ch.queue
    → IsPlaced log sub.subscriber
    → (do_read ch sub size).1 ≡ replied sub' calls
    → Interrupted sub sub' calls ⊎ Answered log ch sub size sub' calls
read_cases log ch sub sub' size calls holds placed e =
    elim (Bool-cases sub.subscriber.interrupted) [
      | inl stop ↦
          inl (
            replied_injective _ _ _ _
              (sym e ∙ ap (λ r. r.1) (do_read_interrupted ch sub size stop)))
      | inr quiet ↦ elim (ℕ_discrete phase 0) [
        | yes z ↦ absurd (
            waiting_replied sub' calls (
              ap (λ b. if b then waiting else reply_here) (sym ((==_iff phase 0).1 z))
              ∙ sym (ap (λ r. r.1) (do_read_lem log ch holds sub placed size quiet))
              ∙ e))
        | no apart ↦ inr (
            replied_injective _ _ _ _
              (sym e ∙ ap (λ r. r.1) (do_read_answers log ch sub size holds placed quiet apart)))
      ]
    ]
  where
    phase : ℕ
    phase = (length log + 1 - sub.subscriber.sig_id) % length ch.queue.queue

    reply_here : ReadEnd
    reply_here =
        answer sub (first log ch sub - sub.subscriber.sig_id) (first log ch sub)
          (served log ch sub size)

pub length-fitting : (b size : ℕ) (ps : List (List ℕ)) → length (fitting b size ps) ≤ length ps
unfolding fitting
length-fitting zero size ps = omega arith
length-fitting (suc b) size [] = omega arith
length-fitting (suc b) size (p ∷ ps) = ground (arith, length-fitting b size ps)

-- The first signal delivered is one of the history, or the next to come.
pub first-bounds :
    (log : List (List ℕ)) (ch : Channel) (sub : PolledSubscriber)
    → Retains log ch.queue
    → IsPlaced log sub.subscriber
    → (0 < first log ch sub)
      × (first log ch sub ≤ length log + 1)
      × (sub.subscriber.sig_id ≤ first log ch sub)
first-bounds log ch sub holds placed =
    (ground (arith, placed.low), ground (arith, placed.high, holds.ring.at_least), omega arith)

-- The reader stays where it was, or moves on, and not past the next signal to come.
pub read_moves :
    (log : List (List ℕ)) (ch : Channel) (sub sub' : PolledSubscriber) (size : ℕ)
    (calls : List Call)
    → Retains log ch.queue
    → IsPlaced log sub.subscriber
    → (do_read ch sub size).1 ≡ replied sub' calls
    → IsPlaced log sub'.subscriber
      × (sub'.subscriber.sub_id ≡ sub.subscriber.sub_id)
      × (sub'.poll_events ≡ sub.poll_events)
unfolding Subscriber.set_sig_id Subscriber.set_interrupted
read_moves log ch sub sub' size calls holds placed e =
    elim (read_cases log ch sub sub' size calls holds placed e) [
      | inl (same, _) ↦
          subst Kept (sym same) (record { low = placed.low; high = placed.high }, refl, refl)
      | inr (same, _) ↦
          let (low, high, _) = first-bounds log ch sub holds placed in
          let id = first log ch sub in
          subst Kept (sym same) (
            record {
              low = omega (arith, low);
              high = omega (
                arith,
                high,
                low,
                length-fitting max_sig size (drop (id - 1) log),
                length-drop (id - 1) log,
              );
            },
            refl,
            refl,
          )
    ]
  where
    Kept : PolledSubscriber → Type 0
    Kept s =
        IsPlaced log s.subscriber
        × (s.subscriber.sub_id ≡ sub.subscriber.sub_id)
        × (s.poll_events ≡ sub.poll_events)
