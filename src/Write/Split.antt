-- ===== src/Write/Split.antt =====
-- The records of any buffer, and a write of it.
use native.Mathlib.Decide.{dec_lt}
use sigfs.Base.{
  All-take, All-drop, ◌*◌, ℕ, zero, suc, ◌+◌, ◌^◌, ◌≤◌, ◌<◌, ◌≡◌, refl, sym, ap, ap₂, ◌∙◌, List, [],
  ◌∷◌, ◌++◌, some, arith, length, take, drop, All, append_assoc, length-take, length-drop,
  take-append-drop, drop-add, subst,
}
use sigfs.Common.{sizeof_payload}
use sigfs.Fuse.{Call}
use sigfs.Wire.Bytes.{IsByte, to_bytes-from_bytes, from_bytes_lt}
use sigfs.Wire.{to_bytes, payload_bytes, payloads_bytes}
use sigfs.Queue.History.{Retains}
use sigfs.Queue.Runs.{IsSized}
use sigfs.Channel.{Channel}
use sigfs.Write.{WriteEnd, complete, unaligned, payload_size_at, do_write}
use sigfs.Write.Records.{Ends, reply_of, do_write_records}

abbrev pub Splits : List ℕ → Type 0
Splits buffer =
    (ps : List (List ℕ)) × (tail : List ℕ) × (end : WriteEnd) × (buffer ≡ payloads_bytes ps ++ tail)
    × All IsSized ps
    × Ends tail end
    × (4 * length ps ≤ length buffer)

module _ (buffer : List ℕ) (bytes : All IsByte buffer) where
  abbrev n : ℕ
  n = payload_size_at buffer

  abbrev p : List ℕ
  p = take n (drop 4 buffer)

  abbrev rest : List ℕ
  rest = drop (sizeof_payload + n) buffer

  module _ (room : sizeof_payload + n ≤ length buffer) where
    length-p : length p ≡ n
    length-p = omega (arith, length-take n (drop 4 buffer), length-drop 4 buffer, room)

    whole_header : length (take 4 buffer) ≡ 4
    whole_header = omega (arith, length-take 4 buffer, room)

    header : to_bytes 4 n ≡ take 4 buffer
    header =
        ap (λ k. to_bytes k n) (sym whole_header)
        ∙ to_bytes-from_bytes (take 4 buffer) (All-take IsByte 4 buffer bytes)

    p-IsSized : IsSized p
    p-IsSized = omega (
      arith,
      length-p,
      from_bytes_lt (take 4 buffer) (All-take IsByte 4 buffer bytes),
      ap (λ k. 256 ^ k) whole_header,
    )

    -- The buffer is its first record, and the rest.
    first_record : buffer ≡ payload_bytes p ++ rest
    first_record =
        sym (take-append-drop 4 buffer)
        ∙ ap₂ ◌++◌ (sym header ∙ ap (to_bytes 4) (sym length-p)) (
            sym (take-append-drop n (drop 4 buffer)) ∙ ap (λ t. p ++ t) (sym (drop-add 4 n buffer)))
        ∙ sym (append_assoc (to_bytes 4 (length p)) p rest)

split_below :
    (fuel : ℕ) (buffer : List ℕ) → All IsByte buffer → length buffer ≤ fuel → Splits buffer
split_below fuel [] bytes h = ([], [], complete, refl, tt, refl, omega arith)
split_below zero (b ∷ bs) bytes h = absurd (omega arith)
split_below (suc fuel) (b ∷ bs) bytes h =
    let buffer : List ℕ = b ∷ bs in
    elim (dec_lt (length buffer) (sizeof_payload + payload_size_at buffer)) [
      | yes short ↦ ([], buffer, unaligned, refl, tt, (omega arith, short), omega arith)
      | no long ↦
          let room : sizeof_payload + n buffer bytes ≤ length buffer = omega (arith, long) in
          let (ps, tail, end, e, sized, ends, few) =
            split_below fuel (rest buffer bytes)
              (All-drop IsByte (sizeof_payload + n buffer bytes) buffer bytes)
              (omega (arith, length-drop (sizeof_payload + n buffer bytes) buffer)) in
          (
            p buffer bytes ∷ ps,
            tail,
            end,
            first_record buffer bytes room
                ∙ ap (λ t. payload_bytes (p buffer bytes) ++ t) e
                ∙ sym (append_assoc (payload_bytes (p buffer bytes)) (payloads_bytes ps) tail),
            (p-IsSized buffer bytes room, sized),
            ends,
            omega (arith, few, length-drop (sizeof_payload + n buffer bytes) buffer, room),
          )
    ]

-- Any buffer of bytes is a run of whole records, each of a size that fits its header, and then
-- nothing, or less than the record that comes next.
pub split : (buffer : List ℕ) → All IsByte buffer → Splits buffer
split buffer bytes = split_below (length buffer) buffer bytes (omega arith)

-- A write of any bytes to a channel whose queue retains a history, while the signals published and
-- the buffer's length come to less than 2^32 - 1: the whole records at the front of the buffer are
-- published in order, and the reply is the buffer's length if nothing follows them, and EINVAL if
-- less than a record does.
pub do_write_lem :
    (log : List (List ℕ)) (ch : Channel) (buffer : List ℕ)
    → Retains log ch.queue
    → All IsByte buffer
    → length log + length buffer + 1 < 2 ^ 32
    → (ps : List (List ℕ)) × (tail : List ℕ) × (end : WriteEnd) × (ch' : Channel) × (calls : List
        Call)
      × (buffer ≡ payloads_bytes ps ++ tail)
      × All IsSized ps
      × Ends tail end
      × (do_write ch buffer (length buffer)
          ≡ some (ch', calls ++ (reply_of end (length buffer) ∷ [])))
      × Retains (log ++ ps) ch'.queue
do_write_lem log ch buffer holds bytes few =
    let (ps, tail, end, e, sized, ends, small) = split buffer bytes in
    let (ch', calls, run, holds') =
      do_write_records ps tail end log ch holds sized (omega (arith, small)) ends in
    (
      ps,
      tail,
      end,
      ch',
      calls,
      e,
      sized,
      ends,
      subst (λ b. do_write ch b (length b) ≡ some (ch', calls ++ (reply_of end (length b) ∷ [])))
          (sym e) run,
      holds',
    )
