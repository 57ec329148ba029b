-- ===== src/Run/Delivery.antt =====
-- The signals that one subscriber has read, in every run of a file.
use sigfs.Base.{
  ℕ, ◌+◌, ◌-◌, ◌^◌, ◌≤◌, ◌<◌, ◌≡◌, refl, sym, ap, ◌∙◌, subst, List, [], ◌∷◌, ◌++◌, none, some,
  arith, ◌==◌, if◌then◌else◌, inl, inr, length, drop, All, All-drop, length-append, length-drop,
  append-nil,
}
use sigfs.Wire.{payloads_bytes}
use sigfs.Fuse.{Call, req_interrupt_func, reply_iov}
use sigfs.Client.Parse.{IsSent}
use sigfs.Subscriber
use sigfs.Subscriber.{Subscriber}
use sigfs.Queue.Position.{IsPlaced}
use sigfs.Queue.Runs.{IsSized}
use sigfs.Channel.{PolledSubscriber, Channel, find, store}
use sigfs.Read.{replied, do_read, max_sig}
use sigfs.Read.Gathering.{Sent, sent_bytes}
use sigfs.Read.Fitting.{tagged}
use sigfs.Read.Serve.{first, served}
use sigfs.Run.{Run, create, open_file, release, write, poll, poll_late, interrupt, read, received}
use sigfs.Run.Answers.{read_cases, read_moves, first-bounds, length-fitting}
use sigfs.Run.Received.{
  Genuine, Genuine-lower, Genuine-append, tagged-Genuine, tagged-IsSent, read_back, All-fitting,
}
use sigfs.Run.Seats.{seat, do_write-Undisturbed}
use sigfs.Run.Sound.{IsSound}
use sigfs.Run.Life.{seat-find, Run-IsSound}
use sigfs.Run.Reading.{
  IsReading, attach-IsReading, do_release-IsReading, write-IsReading, remember-IsReading,
  do_poll-IsReading, store-IsReading, interrupt-IsReading,
}

-- A reply's bytes, read back.
pub received_reply :
    (sent : List Sent)
    → All IsSent sent
    → received (req_interrupt_func none ∷ reply_iov (sent_bytes sent) ∷ []) ≡ sent
received_reply sent fits =
    ap (λ o. elim o [ none ↦ [] | some l ↦ l ] ++ []) (read_back sent fits) ∙ append-nil sent

-- What one read adds: genuine signals, from where the subscriber stood to where it stands now.
read_adds :
    (log : List (List ℕ)) (ch : Channel) (sub sub' : PolledSubscriber) (size : ℕ)
    (calls : List Call)
    → IsSound log ch
    → IsPlaced log sub.subscriber
    → (do_read ch sub size).1 ≡ replied sub' calls
    → Genuine log sub.subscriber.sig_id sub'.subscriber.sig_id (received calls)
unfolding Subscriber.set_sig_id Subscriber.set_interrupted
read_adds log ch sub sub' size calls h placed e =
    elim (read_cases log ch sub sub' size calls h.holds placed e) [
      | inl (same, told) ↦
          subst (λ c. Genuine log sub.subscriber.sig_id sub'.subscriber.sig_id (received c))
            (sym told) (omega (arith, ap (λ s. s.subscriber.sig_id) same))
      | inr (same, told) ↦
          let (low, high, ahead) = first-bounds log ch sub h.holds placed in
          let id = first log ch sub in
          let ps = served log ch sub size in
          let lost = id - sub.subscriber.sig_id in
          let few : length ps ≤ length log - (id - 1) =
            omega
              (arith, length-fitting max_sig size (drop (id - 1) log), length-drop (id - 1) log) in
          let fits : All IsSent (tagged lost id ps) =
            tagged-IsSent ps lost id
              (All-fitting max_sig size (drop (id - 1) log) (All-drop IsSized (id - 1) log h.sized))
              (omega (arith, high, h.holds.few)) (omega (arith, high, few, h.holds.few)) in
          subst (λ c. Genuine log sub.subscriber.sig_id sub'.subscriber.sig_id (received c))
            (sym told)
            (subst (Genuine log sub.subscriber.sig_id sub'.subscriber.sig_id)
              (sym (received_reply (tagged lost id ps) fits))
              (Genuine-lower log id sub.subscriber.sig_id sub'.subscriber.sig_id (tagged lost id ps)
                ahead
                (subst (λ hi. Genuine log id hi (tagged lost id ps))
                  (sym (ap (λ s. s.subscriber.sig_id) same))
                  (tagged-Genuine log lost id max_sig size low))))
    ]

read-IsReading :
    (k : ℕ) (log : List (List ℕ)) (ch : Channel) (got : List Sent) (sub sub' : PolledSubscriber)
    (size : ℕ) (calls : List Call)
    → IsSound log ch
    → find sub.subscriber.sub_id ch.subscribers ≡ some sub
    → (do_read ch sub size).1 ≡ replied sub' calls
    → IsReading k log ch got
    → IsReading k log
        (record ch { subscribers = store sub' ch.subscribers })
        (if sub.subscriber.sub_id == k then got ++ received calls else got)
read-IsReading k log ch got sub sub' size calls h live e r =
    subst
      (λ i.
        IsReading k log (record ch { subscribers = store sub' ch.subscribers })
          (if i == k then got ++ received calls else got))
      same
      (store-IsReading k log ch got (received calls) sub sub' sub'.subscriber.sig_id
        (ap (λ i. find i ch.subscribers) same ∙ live) r
        (λ mine. (
          Genuine-append log 1 r.top sub.subscriber.sig_id sub'.subscriber.sig_id got
              (received calls) r.genuine
              (r.stands sub.subscriber (ap (λ i. seat i ch.subscribers) (sym mine ∙ same) ∙ here))
              (read_adds log ch sub sub' size calls h placed e),
          omega arith,
        ))
        (λ le mine. cc (h.consistent.below k le, live, same, mine)))
  where
    here : seat sub.subscriber.sub_id ch.subscribers ≡ some sub.subscriber
    here = seat-find ch.subscribers sub live

    placed : IsPlaced log sub.subscriber
    placed = h.placed sub.subscriber.sub_id sub.subscriber here

    same : sub'.subscriber.sub_id ≡ sub.subscriber.sub_id
    same = (read_moves log ch sub sub' size calls h.holds placed e).1

run-IsReading :
    (n k : ℕ) {log : List (List ℕ)} {ch : Channel} {got : List Sent}
    → Run n k log ch got
    → n < 2 ^ 32
    → length log + 1 < 2 ^ 32
    → IsReading k log ch got
unfolding find
run-IsReading n k (create q made) small few = record {
  top = 1;
  genuine = omega arith;
  stands = λ s e. absurd (cc e);
  unborn = λ le. refl;
}
run-IsReading n k (open_file {log} {ch} {got} r) small few =
    attach-IsReading k log ch got (Run-IsSound n k r small few) (run-IsReading n k r small few)
run-IsReading n k (release {log} {ch} {got} r id) small few =
    do_release-IsReading k log ch got id (run-IsReading n k r small few)
run-IsReading n k (write {log} {ch} {got} r ps tail end ch' calls sized ends e) small few =
    write-IsReading k log ps ch ch' got
      (do_write-Undisturbed ch (payloads_bytes ps ++ tail) _ ch' calls
        (Run-IsSound n k r small (omega (arith, few, length-append log ps))).consistent e)
      (run-IsReading n k r small (omega (arith, few, length-append log ps)))
run-IsReading n k (poll {log} {ch} {got} r sub events ph live) small few =
    do_poll-IsReading k log ch got sub events ph live (run-IsReading n k r small few)
run-IsReading n k (poll_late {log} {ch} {got} r sub events ph live) small few =
    remember-IsReading k log ch got sub events ph live (run-IsReading n k r small few)
run-IsReading n k (interrupt {log} {ch} {got} r sub live) small few =
    interrupt-IsReading k log ch got sub live (run-IsReading n k r small few)
run-IsReading n k (read {log} {ch} {got} r sub sub' size calls live e) small few =
    read-IsReading k log ch got sub sub' size calls (Run-IsSound n k r small few) live e
      (run-IsReading n k r small few)

-- In every run of a file with fewer than 2^32 slots, whose handlers do not overlap, though a signal
-- may be published between the two halves of a poll, made of opens, closes, writes, polls,
-- interrupts and reads in any order, to which fewer than 2^32 - 1 signals were published: the
-- signals that one subscriber has read so far, in all its reads together, have strictly ascending
-- ids, and each carries the payload that was published under its id, the signal `id` being the one
-- at position id - 1 of the history.
pub Run-Genuine :
    (n k : ℕ) {log : List (List ℕ)} {ch : Channel} {got : List Sent}
    → Run n k log ch got
    → n < 2 ^ 32
    → length log + 1 < 2 ^ 32
    → (top : ℕ) × Genuine log 1 top got
Run-Genuine n k r small few =
    let reading = run-IsReading n k r small few in (reading.top, reading.genuine)
