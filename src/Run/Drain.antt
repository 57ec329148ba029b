-- ===== src/Run/Drain.antt =====
-- A subscriber that reads again and again, while nothing is published.
use native.Mathlib.Decide.{dec_lt}
use native.Mathlib.Nat.{mod-eq_of_lt}
use sigfs.Base.{
  ℕ, zero, suc, ◌+◌, ◌-◌, ◌%◌, ◌≤◌, ◌<◌, ◌≡◌, ◌≢◌, refl, sym, ap, ap₂, ◌∙◌, subst, false, List, [],
  ◌∷◌, ◌++◌, arith, length, drop, drop-add, drop_of_le, length-drop, All, All-drop, ==_iff,
  if◌then◌else◌,
}
use sigfs.Fuse.{Call}
use sigfs.Subscriber
use sigfs.Subscriber.{Subscriber}
use sigfs.Queue.History.{Retains, oldest}
use sigfs.Queue.Position.{IsPlaced}
use sigfs.Queue.Runs.{IsSized}
use sigfs.Channel.{Channel, PolledSubscriber}
use sigfs.Read.{ReadEnd, waiting, replied, stuck, do_read, max_sig}
use sigfs.Read.Gathering.{Sent}
use sigfs.Read.Fitting.{fitting, tagged, fitting-prefix, tagged-append}
use sigfs.Read.Limits.{FitsIn}
use sigfs.Read.Serve.{first, served, answer, do_read_lem, do_read_answers}
use sigfs.Client.Parse.{IsSent}
use sigfs.Run.{received}
use sigfs.Run.Received.{All-fitting, tagged-IsSent}
use sigfs.Run.Answers.{length-fitting}
use sigfs.Run.Delivery.{received_reply}

-- What a subscriber gets by at most `reads` reads, until it would have to wait.
unfoldable pub drain : ℕ → Channel → PolledSubscriber → ℕ → List Sent
drain zero ch sub size = []
drain (suc reads) ch sub size = elim (do_read ch sub size).1 [
  | waiting ↦ []
  | replied sub' calls ↦ received calls ++ drain reads ch sub' size
  | stuck ↦ []
]

fitting_progress :
    (b size : ℕ) (ps : List (List ℕ))
    → 0 < length ps
    → All (FitsIn size) ps
    → 0 < length (fitting (suc b) size ps)
unfolding fitting
fitting_progress b size [] some_left fits = absurd (omega arith)
fitting_progress b size (p ∷ ps) some_left (fits, all) = ground (arith, fits)

drain_waits :
    (reads : ℕ) (ch : Channel) (sub : PolledSubscriber) (size : ℕ)
    → (do_read ch sub size).1 ≡ waiting
    → drain (suc reads) ch sub size ≡ []
unfolding drain
drain_waits reads ch sub size e = rw (drain, e) refl

drain_reads :
    (reads : ℕ) (ch : Channel) (sub sub' : PolledSubscriber) (size : ℕ) (calls : List Call)
    → (do_read ch sub size).1 ≡ replied sub' calls
    → drain (suc reads) ch sub size ≡ received calls ++ drain reads ch sub' size
unfolding drain
drain_reads reads ch sub sub' size calls e = rw (drain, e) refl

module _ (log : List (List ℕ)) (ch : Channel) (size : ℕ) (holds : Retains log ch.queue)
    (sized : All IsSized log) where
  abbrev slots : ℕ
  slots = length ch.queue.queue

  abbrev pending : PolledSubscriber → List (List ℕ)
  pending sub = drop (sub.subscriber.sig_id - 1) log

  -- What the next read gets, and where it leaves the subscriber.
  abbrev next : PolledSubscriber → List (List ℕ)
  next sub = fitting max_sig size (pending sub)

  abbrev moved : PolledSubscriber → PolledSubscriber
  moved sub = record sub {
    subscriber = Subscriber.set_sig_id sub.subscriber (sub.subscriber.sig_id + length (next sub));
  }

  -- A subscriber that has lost nothing, and fits every signal that it has still to read.
  record IsKeepingUp (sub : PolledSubscriber) : Type 0 where
    placed : IsPlaced log sub.subscriber
    quiet : sub.subscriber.interrupted ≡ false
    near : oldest slots (length log) ≤ sub.subscriber.sig_id
    fits : All (FitsIn size) (pending sub)

  phase_at_end :
      (sub : PolledSubscriber)
      → length log < sub.subscriber.sig_id
      → (length log + 1 - sub.subscriber.sig_id) % slots ≡ 0
  phase_at_end sub end =
      ap (λ t. t % slots) nothing
      ∙ mod-eq_of_lt {n = 0} {m = slots} (omega (arith, holds.ring.at_least))
    where
      nothing : length log + 1 - sub.subscriber.sig_id ≡ 0
      nothing = omega (arith, end)

  waits_at_end :
      (sub : PolledSubscriber)
      → IsKeepingUp sub
      → length log < sub.subscriber.sig_id
      → (do_read ch sub size).1 ≡ waiting
  waits_at_end sub k end =
      ap (λ r. r.1) (do_read_lem log ch holds sub k.placed size k.quiet)
      ∙ ap (λ b. if b then waiting else reply_here)
          ((==_iff ((length log + 1 - sub.subscriber.sig_id) % slots) 0).1 (phase_at_end sub end))
    where
      reply_here : ReadEnd
      reply_here =
          answer sub (first log ch sub - sub.subscriber.sig_id) (first log ch sub)
            (served log ch sub size)

  answers_inside :
      (sub : PolledSubscriber)
      → IsKeepingUp sub
      → sub.subscriber.sig_id ≤ length log
      → (do_read ch sub size).1 ≡ answer sub 0 sub.subscriber.sig_id (next sub)
  answers_inside sub k inside =
      ap (λ r. r.1) (do_read_answers log ch sub size holds k.placed k.quiet apart)
      ∙ ap (λ i. answer sub (i - sub.subscriber.sig_id) i (fitting max_sig size (drop (i - 1) log)))
          here
      ∙ ap (λ l. answer sub l sub.subscriber.sig_id (next sub)) no_loss
    where
      here : first log ch sub ≡ sub.subscriber.sig_id
      here = omega (arith, k.near)

      no_loss : sub.subscriber.sig_id - sub.subscriber.sig_id ≡ 0
      no_loss = omega arith

      apart : (length log + 1 - sub.subscriber.sig_id) % slots ≢ 0
      apart z = absurd (
          omega (
            arith,
            z,
            inside,
            mod-eq_of_lt {n = length log + 1 - sub.subscriber.sig_id} {m = slots}
                (ground (arith, holds.ring.at_least, k.near, k.placed.low)),
          ))

  still_pending :
      (sub : PolledSubscriber)
      → IsKeepingUp sub
      → pending (moved sub) ≡ drop (length (next sub)) (pending sub)
  unfolding Subscriber.set_sig_id
  still_pending sub k =
      ap (λ n. drop n log) shift ∙ drop-add (sub.subscriber.sig_id - 1) (length (next sub)) log
    where
      shift :
          sub.subscriber.sig_id + length (next sub) - 1
          ≡ sub.subscriber.sig_id - 1 + length (next sub)
      shift = omega (arith, k.placed.low)

  length-next :
      (sub : PolledSubscriber) → length (next sub) ≤ length log - (sub.subscriber.sig_id - 1)
  length-next sub = omega (
    arith,
    length-fitting max_sig size (pending sub),
    length-drop (sub.subscriber.sig_id - 1) log,
  )

  moved-IsKeepingUp : (sub : PolledSubscriber) → IsKeepingUp sub → IsKeepingUp (moved sub)
  unfolding Subscriber.set_sig_id
  moved-IsKeepingUp sub k = record {
    placed = record {
      low = omega (arith, k.placed.low);
      high = omega (arith, k.placed.low, k.placed.high, length-next sub);
    };
    quiet = k.quiet;
    near = omega (arith, k.near);
    fits =
        subst (All (FitsIn size)) (sym (still_pending sub k))
          (All-drop (FitsIn size) (length (next sub)) (pending sub) k.fits);
  }

  -- One read, and what is left.
  drain_step :
      (reads : ℕ) (sub : PolledSubscriber)
      → IsKeepingUp sub
      → sub.subscriber.sig_id ≤ length log
      → drain reads ch (moved sub) size
        ≡ tagged 0 (moved sub).subscriber.sig_id (pending (moved sub))
      → drain (suc reads) ch sub size ≡ tagged 0 sub.subscriber.sig_id (pending sub)
  unfolding Subscriber.set_sig_id
  drain_step reads sub k inside rest =
      drain_reads reads ch sub (moved sub) size _ (answers_inside sub k inside)
      ∙ ap₂ ◌++◌ (received_reply (tagged 0 id (next sub)) sent)
          (rest ∙ ap (tagged 0 (id + length (next sub))) (still_pending sub k))
      ∙ sym (tagged-append 0 id (next sub) (drop (length (next sub)) (pending sub)))
      ∙ ap (tagged 0 id) (fitting-prefix max_sig size (pending sub))
    where
      id : ℕ
      id = sub.subscriber.sig_id

      sent : All IsSent (tagged 0 id (next sub))
      sent =
          tagged-IsSent (next sub) 0 id
            (All-fitting max_sig size (pending sub) (All-drop IsSized (id - 1) log sized))
            (omega arith) (omega (arith, k.placed.high, k.placed.low, length-next sub, holds.few))

  advances :
      (sub : PolledSubscriber)
      → IsKeepingUp sub
      → sub.subscriber.sig_id ≤ length log
      → 0 < length (next sub)
  advances sub k inside =
      fitting_progress 19 size (pending sub)
        (omega (arith, inside, k.placed.low, length-drop (sub.subscriber.sig_id - 1) log)) k.fits

  drain_all :
      (reads : ℕ) (sub : PolledSubscriber)
      → IsKeepingUp sub
      → length log + 1 - sub.subscriber.sig_id ≤ reads
      → drain reads ch sub size ≡ tagged 0 sub.subscriber.sig_id (pending sub)
  unfolding drain Subscriber.set_sig_id
  drain_all zero sub k enough = sym (
      ap (tagged 0 sub.subscriber.sig_id)
        (drop_of_le (sub.subscriber.sig_id - 1) log (omega (arith, enough))))
  drain_all (suc reads) sub k enough = elim (dec_lt (length log) sub.subscriber.sig_id) [
    | yes end ↦
        drain_waits reads ch sub size (waits_at_end sub k end)
        ∙ sym (
            ap (tagged 0 sub.subscriber.sig_id)
              (drop_of_le (sub.subscriber.sig_id - 1) log (omega (arith, end))))
    | no more ↦
        let inside : sub.subscriber.sig_id ≤ length log = omega (arith, more) in
        drain_step reads sub k inside (
          drain_all reads (moved sub) (moved-IsKeepingUp sub k)
            (omega (arith, enough, advances sub k inside)))
  ]

-- On a channel whose queue retains a history of payloads with sizes below 2^32, for a subscriber
-- that is not interrupted, stands at a signal that is still retained, or at the next to come, and
-- whose buffer fits each of the signals from there on by itself: as many reads as there are such
-- signals, or more, with nothing published in between, give it all of them, in order, each once,
-- with no signal reported lost, before it has to wait.
pub drain_lem :
    (log : List (List ℕ)) (ch : Channel) (sub : PolledSubscriber) (size reads : ℕ)
    → Retains log ch.queue
    → All IsSized log
    → IsPlaced log sub.subscriber
    → sub.subscriber.interrupted ≡ false
    → oldest (length ch.queue.queue) (length log) ≤ sub.subscriber.sig_id
    → All (FitsIn size) (drop (sub.subscriber.sig_id - 1) log)
    → length log + 1 - sub.subscriber.sig_id ≤ reads
    → drain reads ch sub size
      ≡ tagged 0 sub.subscriber.sig_id (drop (sub.subscriber.sig_id - 1) log)
drain_lem log ch sub size reads holds sized placed quiet near fits enough =
    drain_all log ch size holds sized reads sub
      (record { placed = placed; quiet = quiet; near = near; fits = fits }) enough
