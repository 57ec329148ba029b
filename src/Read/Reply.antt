-- ===== src/Read/Reply.antt =====
-- Which of the pending signals a read replies, by the room that the callback looks at.
use native.Mathlib.Decide.{dec_lt}
use sigfs.Base.{
  ℕ, zero, suc, ◌+◌, ◌≤◌, ◌<◌, ◌≡◌, refl, sym, ap, ◌∙◌, subst, List, [], ◌∷◌, ◌++◌, arith, length,
  append_assoc, append-nil, length-append,
}
use sigfs.Common.{sizeof_signal}
use sigfs.Subscriber
use sigfs.Subscriber.{Subscriber}
use sigfs.Queue.Dequeue.{processed_call_again, processed_dont_call_again, not_processed, Delivery}
use sigfs.Queue.Deliver.{KeepsPosition, told, deliver, deliver_stop, deliver_last, deliver_more}
use sigfs.Read.{Gather, add_signal, can_accept, cb, max_sig}
use sigfs.Read.Gathering.{Sent, Holds, sent_of, add_signal-Holds}
use sigfs.Read.Fitting.{fitting, fitting_none, fitting_some, fitting_zero, fitting-nil, tagged}

pub cb-KeepsPosition : KeepsPosition cb
unfolding cb Subscriber.set_interrupted
cb-KeepsPosition d sub g = ground arith

module _ (lost id later : ℕ) (p : List ℕ) (sub : Subscriber) (g : Gather) where
  abbrev d : Delivery
  d = told lost id p later

  cb_refuses : g.size_left < sizeof_signal + length p → cb d sub g ≡ (not_processed, sub, g)
  unfolding cb
  cb_refuses h = ground arith

  cb_adds :
      sizeof_signal + length p ≤ g.size_left
      → cb d sub g ≡ (can_accept (add_signal d p g) d, sub, add_signal d p g)
  unfolding cb
  cb_adds h = ground arith

  accepts : g.iov_ind < 37 → 0 < later → can_accept (add_signal d p g) d ≡ processed_call_again
  unfolding can_accept add_signal
  accepts h k = ground arith

  accepts_last : 37 ≤ g.iov_ind → can_accept (add_signal d p g) d ≡ processed_dont_call_again
  unfolding can_accept add_signal
  accepts_last h = ground arith

  accepts_end : later ≡ 0 → can_accept (add_signal d p g) d ≡ processed_dont_call_again
  unfolding can_accept add_signal
  accepts_end h = ground arith

-- The outcome of a run: what was sent before, and then the fitting signals.
pub record Served (sent : List Sent) (lost id : ℕ) (served : List (List ℕ)) (sub : Subscriber)
    (g : Gather) (out : Subscriber × Gather) : Type 0 where
  pub holds : Holds (sent ++ tagged lost id served) out.1
  pub moved : out.0 ≡ Subscriber.set_sig_id sub (id + length served)
  pub silent : out.1.calls ≡ g.calls
  pub size : out.1.size_left ≡ g.size_left

Served-nil :
    (sent : List Sent) (lost id : ℕ) (sub : Subscriber) (g : Gather)
    → Holds sent g
    → sub.sig_id ≡ id
    → Served sent lost id [] sub g (sub, g)
unfolding Subscriber.set_sig_id
Served-nil sent lost id sub g h at = record {
  holds = subst (λ l. Holds l g) (sym (append-nil sent)) h;
  moved = ap (λ t. record sub { sig_id = t }) (omega arith);
  silent = refl;
  size = refl;
}

-- One more signal in front.
Served-cons :
    (sent : List Sent) (lost id later : ℕ) (p : List ℕ) (served : List (List ℕ)) (sub : Subscriber)
    (g : Gather) (out : Subscriber × Gather)
    → Served
        (sent ++ (sent_of (told lost id p later) p ∷ []))
        lost
        (id + 1)
        served
        (Subscriber.set_sig_id sub (id + 1))
        (add_signal (told lost id p later) p g)
        out
    → Served sent lost id (p ∷ served) sub g out
unfolding Subscriber.set_sig_id add_signal
Served-cons sent lost id later p served sub g out s = record {
  holds =
      subst (λ l. Holds l out.1)
        (append_assoc sent (sent_of (told lost id p later) p ∷ []) (tagged lost (id + 1) served))
        s.holds;
  moved = s.moved ∙ ap (λ t. record sub { sig_id = t }) (omega arith);
  silent = s.silent;
  size = s.size;
}

position : (sub : Subscriber) (k : ℕ) → (Subscriber.set_sig_id sub k).sig_id ≡ k
unfolding Subscriber.set_sig_id
position sub k = refl

Served-one :
    (sent : List Sent) (lost id later : ℕ) (p : List ℕ) (sub : Subscriber) (g : Gather)
    → Holds sent g
    → length sent < max_sig
    → Served sent lost id
        (p ∷ [])
        sub
        g
        (Subscriber.set_sig_id sub (id + 1), add_signal (told lost id p later) p g)
Served-one sent lost id later p sub g h room = Served-cons sent lost id later p [] sub g _ (
    Served-nil _ lost (id + 1) (Subscriber.set_sig_id sub (id + 1))
      (add_signal (told lost id p later) p g)
      (add_signal-Holds sent g (told lost id p later) p h room) (position sub (id + 1)))

deliver_nil :
    (sent : List Sent) (lost id : ℕ) (sub : Subscriber) (g : Gather)
    → Holds sent g
    → sub.sig_id ≡ id
    → Served sent lost id [] sub g (deliver cb lost id [] sub g)
unfolding deliver
deliver_nil sent lost id sub g h at = Served-nil sent lost id sub g h at

-- A signal was added: the run ends with it, or goes on as `again` says.
Served-added :
    (b : ℕ) (sent : List Sent) (lost id : ℕ) (p : List ℕ) (rest : List (List ℕ)) (sub : Subscriber)
    (g : Gather)
    → Holds sent g
    → length sent + suc b ≡ max_sig
    → sizeof_signal + length p ≤ g.size_left
    → (let d = told lost id p (length rest) in
        let sub1 = Subscriber.set_sig_id sub (id + 1) in
        let g1 = add_signal d p g in
        0 < b
        → 0 < length rest
        → Served
            (sent ++ (sent_of d p ∷ []))
            lost
            (id + 1)
            (fitting b g.size_left rest)
            sub1
            g1
            (deliver cb lost (id + 1) rest sub1 g1))
    → Served sent lost id
        (p ∷ fitting b g.size_left rest)
        sub
        g
        (deliver cb lost id (p ∷ rest) sub g)
Served-added zero sent lost id p rest sub g h room fits again =
    rw
      (
        fitting_zero g.size_left rest,
        deliver_last cb lost id p rest sub sub g (add_signal (told lost id p (length rest)) p g) (
            cb_adds lost id (length rest) p sub g fits
            ∙ ap (λ r. (r, sub, add_signal (told lost id p (length rest)) p g))
                (accepts_last lost id (length rest) p sub g (omega (arith, h.iov_count)))),
      )
      (Served-one sent lost id (length rest) p sub g h (omega arith))
Served-added (suc b) sent lost id p [] sub g h room fits again =
    rw
      (
        fitting-nil (suc b) g.size_left,
        deliver_last cb lost id p [] sub sub g (add_signal (told lost id p 0) p g) (
            cb_adds lost id 0 p sub g fits
            ∙ ap (λ r. (r, sub, add_signal (told lost id p 0) p g))
                (accepts_end lost id 0 p sub g refl)),
      )
      (Served-one sent lost id 0 p sub g h (omega arith))
Served-added (suc b) sent lost id p (r ∷ rest) sub g h room fits again =
    let d : Delivery = told lost id p (length (r ∷ rest)) in
    rw
      (deliver_more cb lost id p (r ∷ rest) sub sub g (add_signal d p g) (
        cb_adds lost id (length (r ∷ rest)) p sub g fits
        ∙ ap (λ a. (a, sub, add_signal d p g))
            (accepts lost id (length (r ∷ rest)) p sub g (omega (arith, h.iov_count))
              (omega arith))))
      (Served-cons sent lost id (length (r ∷ rest)) p (fitting (suc b) g.size_left (r ∷ rest)) sub g
        _ (again (omega arith) (omega arith)))

-- A run, from a state in which `sent` was gathered and `budget` signals still have room.
pub deliver-Served :
    (rest : List (List ℕ)) (budget : ℕ) (sent : List Sent) (lost id : ℕ) (sub : Subscriber)
    (g : Gather)
    → Holds sent g
    → length sent + budget ≡ max_sig
    → 0 < budget
    → sub.sig_id ≡ id
    → Served sent lost id (fitting budget g.size_left rest) sub g (deliver cb lost id rest sub g)
unfolding add_signal
deliver-Served rest zero sent lost id sub g h room pos at = absurd (omega arith)
deliver-Served [] (suc b) sent lost id sub g h room pos at =
    rw (fitting-nil (suc b) g.size_left) (deliver_nil sent lost id sub g h at)
deliver-Served (p ∷ rest) (suc b) sent lost id sub g h room pos at =
    elim (dec_lt g.size_left (sizeof_signal + length p)) [
      | yes small ↦
          rw
            (
              fitting_none b g.size_left p rest small,
              deliver_stop cb lost id p rest sub sub g g
                  (cb_refuses lost id (length rest) p sub g small),
            )
            (Served-nil sent lost id sub g h at)
      | no fits ↦ rw (fitting_some b g.size_left p rest fits) (
          Served-added b sent lost id p rest sub g h room (omega arith) (λ more left.
            deliver-Served rest b (sent ++ (sent_of (told lost id p (length rest)) p ∷ [])) lost
              (id + 1) (Subscriber.set_sig_id sub (id + 1))
              (add_signal (told lost id p (length rest)) p g)
              (add_signal-Holds sent g (told lost id p (length rest)) p h (omega arith))
              (omega (arith, length-append sent (sent_of (told lost id p (length rest)) p ∷ [])))
              more (position sub (id + 1))))
    ]
