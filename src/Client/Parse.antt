-- ===== src/Client/Parse.antt =====
-- The subscriber's loop on the bytes of a reply.
use sigfs.Base.{
  drop-add, ℕ, zero, suc, ◌^◌, ◌≤◌, ◌<◌, ◌≡◌, refl, ap, ◌∙◌, List, [], ◌∷◌, ◌++◌, some, arith,
  length, take, drop, All, length-append, take-append_length, drop-append_length,
}
use sigfs.Common.{sigfs_signal_size}
use sigfs.Wire.{SignalHeader, header_bytes}
use sigfs.Wire.Bytes.{from_bytes-to_bytes}
use sigfs.Read.Gathering.{Sent, sent_bytes}
use sigfs.Client.{header_at, read_signals}

-- The fields fit their types, and the header tells the payload's length.
pub record IsSent (s : Sent) : Type 0 where
  pub lost_fits : s.0.lost_signals < 2 ^ 32
  pub id_fits : s.0.signal_id < 2 ^ 64
  pub size_fits : s.0.payload_size < 2 ^ 32
  pub sized : s.0.payload_size ≡ length s.1

pub header_at-header_bytes :
    (s : Sent) (rest : List ℕ) → IsSent s → header_at (header_bytes s.0 ++ rest) ≡ s.0
header_at-header_bytes (h, p) rest fits = λ i. record {
  lost_signals = from_bytes-to_bytes 4 h.lost_signals fits.lost_fits i;
  signal_id = from_bytes-to_bytes 8 h.signal_id fits.id_fits i;
  payload_size = from_bytes-to_bytes 4 h.payload_size fits.size_fits i;
}

-- The loop's round on a buffer that begins with a record of `n` bytes of payload.
read_signals_round :
    (fuel : ℕ) (buf rest p : List ℕ) (h : SignalHeader) (more : List Sent)
    → header_at buf ≡ h
    → take h.payload_size (drop 16 buf) ≡ p
    → drop (sigfs_signal_size h.payload_size) buf ≡ rest
    → sigfs_signal_size h.payload_size ≤ length buf
    → read_signals fuel rest ≡ some more
    → read_signals (suc fuel) buf ≡ some ((h, p) ∷ more)
unfolding read_signals
read_signals_round fuel [] rest p h more at content next room e = absurd (omega arith)
read_signals_round fuel (b ∷ bs) rest p h more at content next room e =
    ground (arith, ap (λ t. t.payload_size) at, at, content, next, room, e)

-- The subscriber program's loop, with a round for each of them, reads back exactly the signals of a
-- reply whose headers' fields fit their types and tell their payloads' lengths.
pub read_signals-sent_bytes :
    (fuel : ℕ) (sent : List Sent)
    → All IsSent sent
    → length sent ≤ fuel
    → read_signals fuel (sent_bytes sent) ≡ some sent
unfolding read_signals
read_signals-sent_bytes zero [] fits enough = refl
read_signals-sent_bytes (suc fuel) [] fits enough = refl
read_signals-sent_bytes zero (s ∷ ss) fits enough = absurd (omega arith)
read_signals-sent_bytes (suc fuel) ((h, p) ∷ ss) (fits, all) enough =
    read_signals_round fuel (sent_bytes ((h, p) ∷ ss)) (sent_bytes ss) p h ss
      (header_at-header_bytes (h, p) (p ++ sent_bytes ss) fits)
      (ap (λ k. take k (p ++ sent_bytes ss)) fits.sized ∙ take-append_length p (sent_bytes ss))
      (drop-add 16 h.payload_size (sent_bytes ((h, p) ∷ ss))
        ∙ ap (λ k. drop k (p ++ sent_bytes ss)) fits.sized
        ∙ drop-append_length p (sent_bytes ss))
      (omega (arith, length-append p (sent_bytes ss), fits.sized))
      (read_signals-sent_bytes fuel ss all (omega arith))
