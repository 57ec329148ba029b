-- ===== src/Run/Reading.antt =====
-- What a subscriber has read at one moment of a run, and that every step of the file keeps it right.
use native.Mathlib.Decide.{ℕ_discrete}
use sigfs.Base.{
  ℕ, ◌≤◌, ◌≡◌, ◌≢◌, sym, ◌∙◌, subst, List, [], ◌++◌, Option, some, arith, ◌==◌, if◌then◌else◌, inl,
  inr, ==_iff, ==_ne,
}
use sigfs.Subscriber
use sigfs.Subscriber.{Subscriber}
use sigfs.Queue
use sigfs.Queue.{Queue, init}
use sigfs.Channel.{PolledSubscriber, Channel, attach, find, store, fresh}
use sigfs.Open.{do_release}
use sigfs.Poll.{do_poll, remember}
use sigfs.Read.{read_interrupt}
use sigfs.Read.Gathering.{Sent}
use sigfs.Run.Received.{Genuine, Genuine-published}
use sigfs.Run.Seats.{seat, seat-store, seat-remove, Undisturbed}
use sigfs.Run.Sound.{IsSound, remember-seat, next_sub_id-remember, do_poll_cases}
use sigfs.Run.Life.{seat-find}

-- What the subscriber `k` has got is genuine, and it stands behind all of it. Before it is created
-- it has got nothing.
pub record IsReading (k : ℕ) (log : List (List ℕ)) (ch : Channel) (got : List Sent) : Type 0 where
  pub top : ℕ
  pub genuine : Genuine log 1 top got
  pub stands : (s : Subscriber) → seat k ch.subscribers ≡ some s → top ≤ s.sig_id
  pub unborn : ch.next_sub_id ≤ k → got ≡ []

pub attach-IsReading :
    (k : ℕ) (log : List (List ℕ)) (ch : Channel) (got : List Sent)
    → IsSound log ch
    → IsReading k log ch got
    → IsReading k log (attach ch) got
unfolding attach fresh find Queue.initialize_subscriber Subscriber.set_sig_id Subscriber.fresh
attach-IsReading k log ch got h r = elim (ℕ_discrete ch.next_sub_id k) [
  | yes new ↦ record {
    top = 1;
    genuine = subst (Genuine log 1 1) (sym (r.unborn (omega (arith, new)))) (omega arith);
    stands = λ s e. ground (arith, e, new, h.holds.next_id);
    unborn = λ le. r.unborn (omega (arith, le));
  }
  | no old ↦ record {
    top = r.top;
    genuine = r.genuine;
    stands = λ s e. ground (arith, e, old, r.stands s);
    unborn = λ le. r.unborn (omega (arith, le));
  }
]

pub do_release-IsReading :
    (k : ℕ) (log : List (List ℕ)) (ch : Channel) (got : List Sent) (id : ℕ)
    → IsReading k log ch got
    → IsReading k log (do_release ch id) got
unfolding do_release
do_release-IsReading k log ch got id r = record {
  top = r.top;
  genuine = r.genuine;
  stands = λ s e. ground (arith, e, seat-remove k id ch.subscribers, r.stands s);
  unborn = r.unborn;
}

pub write-IsReading :
    (k : ℕ) (log ps : List (List ℕ)) (ch ch' : Channel) (got : List Sent)
    → Undisturbed ch ch'
    → IsReading k log ch got
    → IsReading k (log ++ ps) ch' got
write-IsReading k log ps ch ch' got still r = record {
  top = r.top;
  genuine = Genuine-published log ps 1 r.top got r.genuine;
  stands = λ s e. r.stands s (sym (still.0 k) ∙ e);
  unborn = λ le. r.unborn (omega (arith, le, still.1));
}

pub remember-IsReading :
    (k : ℕ) (log : List (List ℕ)) (ch : Channel) (got : List Sent) (sub : PolledSubscriber)
    (events : ℕ) (ph : Option ℕ)
    → find sub.subscriber.sub_id ch.subscribers ≡ some sub
    → IsReading k log ch got
    → IsReading k log (remember ch sub events ph).0 got
remember-IsReading k log ch got sub events ph live r = record {
  top = r.top;
  genuine = r.genuine;
  stands = λ s e. r.stands s (sym (remember-seat k ch sub events ph live) ∙ e);
  unborn = λ le. r.unborn (omega (arith, le, next_sub_id-remember ch sub events ph));
}

pub do_poll-IsReading :
    (k : ℕ) (log : List (List ℕ)) (ch : Channel) (got : List Sent) (sub : PolledSubscriber)
    (events : ℕ) (ph : Option ℕ)
    → find sub.subscriber.sub_id ch.subscribers ≡ some sub
    → IsReading k log ch got
    → IsReading k log (do_poll ch sub events ph).0 got
do_poll-IsReading k log ch got sub events ph live r = elim (do_poll_cases ch sub events ph) [
  | inl same ↦ subst (λ c. IsReading k log c got) (sym same) r
  | inr later ↦
      subst (λ c. IsReading k log c got) (sym later)
        (remember-IsReading k log ch got sub events ph live r)
]

-- A change to a subscriber, by which it reads `more`.
pub store-IsReading :
    (k : ℕ) (log : List (List ℕ)) (ch : Channel) (got more : List Sent) (s t : PolledSubscriber)
    (top : ℕ)
    → find t.subscriber.sub_id ch.subscribers ≡ some s
    → IsReading k log ch got
    → (t.subscriber.sub_id ≡ k → Genuine log 1 top (got ++ more) × (top ≤ t.subscriber.sig_id))
    → (ch.next_sub_id ≤ k → t.subscriber.sub_id ≢ k)
    → IsReading k log
        (record ch { subscribers = store t ch.subscribers })
        (if t.subscriber.sub_id == k then got ++ more else got)
store-IsReading k log ch got more s t top live r mine born =
    elim (ℕ_discrete t.subscriber.sub_id k) [
      | yes same ↦ rw ((==_iff t.subscriber.sub_id k).1 same) (record {
        top = top;
        genuine = (mine same).0;
        stands =
            λ u e. ground (arith, e, same, (mine same).1, seat-store k t s ch.subscribers live);
        unborn = λ le. absurd (born le same);
      })
      | no other ↦ rw (==_ne other) (record {
        top = r.top;
        genuine = r.genuine;
        stands = λ u e. ground (arith, e, other, r.stands u, seat-store k t s ch.subscribers live);
        unborn = r.unborn;
      })
    ]

pub interrupt-IsReading :
    (k : ℕ) (log : List (List ℕ)) (ch : Channel) (got : List Sent) (sub : PolledSubscriber)
    → find sub.subscriber.sub_id ch.subscribers ≡ some sub
    → IsReading k log ch got
    → IsReading k log (record ch { subscribers = store (read_interrupt ch sub) ch.subscribers }) got
unfolding read_interrupt Queue.interrupt_dequeue Subscriber.set_interrupted
interrupt-IsReading k log ch got sub live r = record {
  top = r.top;
  genuine = r.genuine;
  stands = λ s e. ground (
    arith,
    e,
    r.stands s,
    r.stands sub.subscriber,
    seat-find ch.subscribers sub live,
    seat-store k (read_interrupt ch sub) sub ch.subscribers live,
  );
  unborn = r.unborn;
}
