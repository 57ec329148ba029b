-- ===== src/Read/Gathering.antt =====
-- The arrays of do_read while signals are added, and the bytes that the entries point to.
use sigfs.Base.{
  ℕ, suc, ◌+◌, ◌*◌, ◌<◌, ◌≡◌, refl, sym, ap, ap₂, ◌∙◌, List, [], ◌∷◌, ◌++◌, map, arith, length,
  take, drop, set, get_or, append_assoc, length-append, length-set, take-set_next, get_or-append,
  take-append-drop,
}
use mathlib.Core.List.{map-append}
use sigfs.Wire.{SignalHeader, header_bytes}
use sigfs.Queue.Dequeue.{Delivery}
use sigfs.Read.{
  Iovec, header, bytes, Gather, add_signal, start, iov_bytes, no_header, max_iov, max_sig,
}

-- A signal as it is replied: its header and its payload.
abbrev pub Sent : Type 0
Sent = SignalHeader × List ℕ

abbrev pub sent_bytes : List Sent → List ℕ
sent_bytes [] = []
sent_bytes ((h, p) ∷ ss) = header_bytes h ++ (p ++ sent_bytes ss)

abbrev headers : List Sent → List SignalHeader
headers = map (λ s. s.0)

-- The entries of the signals, whose headers stand in sig from index i on.
abbrev entries : ℕ → List Sent → List Iovec
entries i [] = []
entries i ((h, p) ∷ ss) = header i ∷ bytes p ∷ entries (suc i) ss

pub record Holds (sent : List Sent) (g : Gather) : Type 0 where
  pub sig_count : g.sig_ind ≡ length sent
  pub iov_count : g.iov_ind ≡ 2 * length sent
  pub sig_size : length g.sig ≡ max_sig
  pub iov_size : length g.iov ≡ max_iov
  pub sig_holds : take g.sig_ind g.sig ≡ headers sent
  pub iov_holds : take g.iov_ind g.iov ≡ entries 0 sent

pub start-Holds : (size : ℕ) → Holds [] (start size)
start-Holds size = record {
  sig_count = refl;
  iov_count = refl;
  sig_size = refl;
  iov_size = refl;
  sig_holds = refl;
  iov_holds = refl;
}

entries-append :
    (ss ts : List Sent) (i : ℕ) → entries i (ss ++ ts) ≡ entries i ss ++ entries (i + length ss) ts
entries-append [] ts i = ap (λ k. entries k ts) (omega arith)
entries-append ((h, p) ∷ ss) ts i =
    ap (λ r. header i ∷ bytes p ∷ r)
      (entries-append ss ts (suc i) ∙ ap (λ k. entries (suc i) ss ++ entries k ts) (omega arith))

abbrev pub sent_of : Delivery → List ℕ → Sent
sent_of d payload = (
  record { lost_signals = d.lost_signals; signal_id = d.signal_id; payload_size = d.payload_size },
  payload,
)

-- While fewer than max_sig signals were added, adding one more writes inside the two arrays of
-- do_read, which then hold the signals that were added, each as a header and a payload.
pub add_signal-Holds :
    (sent : List Sent) (g : Gather) (d : Delivery) (payload : List ℕ)
    → Holds sent g
    → length sent < max_sig
    → Holds (sent ++ (sent_of d payload ∷ [])) (add_signal d payload g)
unfolding add_signal
add_signal-Holds sent g d payload h room = record {
  sig_count = omega (arith, h.sig_count, longer);
  iov_count = omega (arith, h.iov_count, longer);
  sig_size = length-set g.sig g.sig_ind (sent_of d payload).0 ∙ h.sig_size;
  iov_size = length-set once (g.iov_ind + 1) (bytes payload) ∙ once_size;
  sig_holds =
      take-set_next g.sig g.sig_ind (sent_of d payload).0 (omega (arith, h.sig_count, h.sig_size))
      ∙ ap (λ l. l ++ ((sent_of d payload).0 ∷ [])) h.sig_holds
      ∙ sym (map-append (λ (s : Sent). s.0) sent (sent_of d payload ∷ []));
  iov_holds =
      two_steps
      ∙ append_assoc (take g.iov_ind g.iov) (header g.sig_ind ∷ []) (bytes payload ∷ [])
      ∙ ap₂ (λ l k. l ++ (header k ∷ bytes payload ∷ [])) h.iov_holds h.sig_count
      ∙ sym (
          entries-append sent (sent_of d payload ∷ []) 0
          ∙ ap (λ k. entries 0 sent ++ entries k (sent_of d payload ∷ [])) (omega arith));
}
  where
    longer : length (sent ++ (sent_of d payload ∷ [])) ≡ length sent + 1
    longer = length-append sent (sent_of d payload ∷ []) ∙ omega arith

    once : List Iovec
    once = set g.iov g.iov_ind (header g.sig_ind)

    once_size : length once ≡ max_iov
    once_size = length-set g.iov g.iov_ind (header g.sig_ind) ∙ h.iov_size

    two : g.iov_ind + 2 ≡ g.iov_ind + 1 + 1
    two = omega arith

    two_steps :
        take (g.iov_ind + 2) (set once (g.iov_ind + 1) (bytes payload))
        ≡ (take g.iov_ind g.iov ++ (header g.sig_ind ∷ [])) ++ (bytes payload ∷ [])
    two_steps =
        ap (λ k. take k (set once (g.iov_ind + 1) (bytes payload))) two
        ∙ take-set_next once (g.iov_ind + 1) (bytes payload) (omega (arith, h.iov_count, once_size))
        ∙ ap (λ l. l ++ (bytes payload ∷ []))
            (take-set_next g.iov g.iov_ind (header g.sig_ind)
              (omega (arith, h.iov_count, h.iov_size)))

-- The entries find their headers, wherever in sig these stand.
iov_bytes-entries :
    (sent : List Sent) (before after sig : List SignalHeader)
    → sig ≡ before ++ (headers sent ++ after)
    → iov_bytes sig (entries (length before) sent) ≡ sent_bytes sent
iov_bytes-entries [] before after sig e = refl
iov_bytes-entries ((h, p) ∷ ss) before after sig e =
    ap₂ (λ a b. header_bytes a ++ (p ++ b))
      (ap (λ l. get_or l (length before) no_header) e
        ∙ get_or-append before (headers ss ++ after) h no_header)
      (ap (λ k. iov_bytes sig (entries k ss)) longer
        ∙ iov_bytes-entries ss (before ++ (h ∷ [])) after sig
            (e ∙ sym (append_assoc before (h ∷ []) (headers ss ++ after))))
  where
    longer : suc (length before) ≡ length (before ++ (h ∷ []))
    longer = omega (arith, length-append before (h ∷ []))

-- If the arrays of do_read hold some signals, the bytes that their iovec entries point to are those
-- of the signals, header and payload, in order.
pub iov_bytes-sent :
    (sent : List Sent) (g : Gather)
    → Holds sent g
    → iov_bytes g.sig (take g.iov_ind g.iov) ≡ sent_bytes sent
iov_bytes-sent sent g h =
    ap (iov_bytes g.sig) h.iov_holds
    ∙ iov_bytes-entries sent [] (drop g.sig_ind g.sig) g.sig
        (sym (take-append-drop g.sig_ind g.sig) ∙ ap (λ l. l ++ drop g.sig_ind g.sig) h.sig_holds)
