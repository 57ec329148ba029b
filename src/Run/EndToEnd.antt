-- ===== src/Run/EndToEnd.antt =====
-- example/sigfs_publish.cc to example/sigfs_subscribe.cc: one publication, from the publisher's text
-- to what the subscriber reads.
use sigfs.Base.{
  ℕ, ◌+◌, ◌-◌, ◌^◌, ◌<◌, ◌≡◌, refl, sym, ap, ◌∙◌, subst, false, List, [], ◌∷◌, ◌++◌, some, arith,
  length, drop, All, All-append, append-nil, length-append, drop-append_length,
}
use sigfs.Fuse.{Call, reply_write}
use sigfs.Wire.{payloads_bytes}
use sigfs.Queue.History.{Retains}
use sigfs.Queue.Runs.{IsSized}
use sigfs.Channel.{Channel, PolledSubscriber}
use sigfs.Write.{complete, do_write}
use sigfs.Write.Records.{do_write_records}
use sigfs.Read.Limits.{FitsIn}
use sigfs.Read.Fitting.{tagged}
use sigfs.Client.{publish_buffer}
use sigfs.Run.Drain.{drain, drain_lem}

-- The last signal of a history, for a subscriber that stands there.
reads_last :
    (log : List (List ℕ)) (ch : Channel) (sub : PolledSubscriber) (text : List ℕ) (size : ℕ)
    → Retains (log ++ (text ∷ [])) ch.queue
    → All IsSized (log ++ (text ∷ []))
    → sub.subscriber.sig_id ≡ length log + 1
    → sub.subscriber.interrupted ≡ false
    → FitsIn size text
    → drain 1 ch sub size
      ≡ (record { lost_signals = 0; signal_id = length log + 1; payload_size = length text }, text)
        ∷ []
reads_last log ch sub text size holds sized at quiet fits =
    drain_lem whole ch sub size 1 holds sized
      (record { low = omega (arith, at); high = omega (arith, at, longer) }) quiet
      (ground (arith, at, longer, holds.ring.at_least))
      (subst (All (FitsIn size)) (sym rest) (fits, tt)) (omega (arith, at, longer))
    ∙ ap (tagged 0 sub.subscriber.sig_id) rest
    ∙ ap (λ i. tagged 0 i (text ∷ [])) at
  where
    whole : List (List ℕ)
    whole = log ++ (text ∷ [])

    longer : length whole ≡ length log + 1
    longer = length-append log (text ∷ [])

    behind : sub.subscriber.sig_id - 1 ≡ length log
    behind = omega (arith, at)

    rest : drop (sub.subscriber.sig_id - 1) whole ≡ text ∷ []
    rest = ap (λ n. drop n whole) behind ∙ drop-append_length log (text ∷ [])

-- On a channel whose queue retains a history of payloads with sizes below 2^32, while fewer than
-- 2^32 - 2 signals were published: the publisher's write of a text of a size below 2^32 is taken
-- whole, and a subscriber that stood at the next signal, is not interrupted, and whose buffer fits
-- the text, then reads exactly one signal, with the next id, the text, and no signal reported lost.
pub publish_subscribe :
    (log : List (List ℕ)) (ch : Channel) (sub : PolledSubscriber) (text : List ℕ) (size : ℕ)
    → Retains log ch.queue
    → All IsSized log
    → IsSized text
    → length log + 2 < 2 ^ 32
    → sub.subscriber.sig_id ≡ length log + 1
    → sub.subscriber.interrupted ≡ false
    → FitsIn size text
    → (ch' : Channel) × (calls : List Call) × (do_write ch
          (publish_buffer text)
          (length (publish_buffer text))
        ≡ some (ch', calls ++ (reply_write (length (publish_buffer text)) ∷ [])))
      × (drain 1 ch' sub size
          ≡ (
            record { lost_signals = 0; signal_id = length log + 1; payload_size = length text },
            text,
          )
            ∷ [])
unfolding publish_buffer
publish_subscribe log ch sub text size holds sized small few at quiet fits =
    let (ch', calls, run, holds') =
      do_write_records (text ∷ []) [] complete log ch holds (small, tt) (omega arith) refl in
    (
      ch',
      calls,
      subst (λ b. do_write ch b (length b) ≡ some (ch', calls ++ (reply_write (length b) ∷ [])))
          buffer run,
      reads_last log ch' sub text size holds' (All-append IsSized log (text ∷ []) sized (small, tt))
          at quiet fits,
    )
  where
    buffer : payloads_bytes (text ∷ []) ++ [] ≡ publish_buffer text
    buffer = append-nil (payloads_bytes (text ∷ [])) ∙ append-nil (publish_buffer text)
