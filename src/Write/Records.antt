-- ===== src/Write/Records.antt =====
-- What a write of whole records, and of an incomplete one, publishes and replies.
use sigfs.Base.{
  ℕ, zero, suc, ◌+◌, ◌-◌, ◌^◌, ◌≤◌, ◌<◌, ◌≡◌, ◌≢◌, sym, ap, ◌∙◌, List, [], ◌∷◌, ◌++◌, Option, none,
  some, arith, length, drop, All, append_assoc, append-nil, length-append, take-append_length,
  drop-append_length, subst,
}
use sigfs.Common.{sizeof_payload, sub_u64, sub_u64_of_le}
use sigfs.Fuse.{Call, reply_err, reply_write, einval}
use sigfs.Wire.{to_bytes, from_bytes, payloads_bytes}
use sigfs.Wire.Bytes.{length-to_bytes, from_bytes-to_bytes, take-to_bytes}
use sigfs.Queue.{store_signal}
use sigfs.Queue.History.{Retains}
use sigfs.Queue.Publish.{store_signal-Retains}
use sigfs.Queue.Runs.{IsSized}
use sigfs.Channel
use sigfs.Channel.{Channel, queue-queue_signal}
use sigfs.Write.{WriteEnd, complete, unaligned, payload_size_at, write_loop, do_write}

-- What may follow the last whole record, and how the write then ends.
abbrev pub Ends : List ℕ → WriteEnd → Type 0
Ends tail complete = tail ≡ []
Ends tail unaligned = (0 < length tail) × (length tail < sizeof_payload + payload_size_at tail)

module _ (p rest : List ℕ) (sized : IsSized p) where
  abbrev front : List ℕ
  front = to_bytes 4 (length p) ++ (p ++ rest)

  size-front : payload_size_at front ≡ length p
  size-front =
      ap from_bytes (take-to_bytes 4 (length p) (p ++ rest))
      ∙ from_bytes-to_bytes 4 (length p) sized

  rest-front : drop (sizeof_payload + length p) front ≡ rest
  rest-front = ap (λ k. drop k front) four ∙ drop-append_length p rest
    where
      four : sizeof_payload + length p ≡ suc (suc (suc (suc (length p))))
      four = omega arith

  length-front : length front ≡ sizeof_payload + length p + length rest
  length-front = omega (
    arith,
    length-append (to_bytes 4 (length p)) (p ++ rest),
    length-append p rest,
    length-to_bytes 4 (length p),
  )

-- One round of the loop, on a whole record.
write_loop_round :
    (fuel remaining n : ℕ) (buffer rest : List ℕ) (ch : Channel) (calls : List Call)
    → payload_size_at buffer ≡ n
    → drop (sizeof_payload + n) buffer ≡ rest
    → sizeof_payload + n ≤ remaining
    → let (ch', more) = Channel.queue_signal ch (drop 4 buffer) n in
      write_loop (suc fuel) remaining buffer ch calls
      ≡ write_loop fuel (remaining - (sizeof_payload + n)) rest ch' (calls ++ more)
unfolding write_loop
write_loop_round fuel remaining n buffer rest ch calls size next room =
    rw (size, next, sub_u64_of_le remaining (sizeof_payload + n) room) (ground arith)

-- The channel after a record was published, and the calls.
abbrev publish : Channel → List ℕ → List ℕ → Channel × List Call
publish ch p rest = Channel.queue_signal ch (p ++ rest) (length p)

publish-Retains :
    (log : List (List ℕ)) (ch : Channel) (p rest : List ℕ)
    → Retains log ch.queue
    → IsSized p
    → length log + 2 < 2 ^ 32
    → Retains (log ++ (p ∷ [])) (publish ch p rest).0.queue
publish-Retains log ch p rest h sized few = rw (queue-queue_signal ch (p ++ rest) (length p)) (
    subst (λ t. Retains (log ++ (t ∷ [])) (store_signal ch.queue (p ++ rest) (length p)))
      (take-append_length p rest)
      (store_signal-Retains log ch.queue (p ++ rest) (length p) h sized
        (omega (arith, length-append p rest)) few))

-- A buffer that begins with a record: the record is published, and the loop goes on behind it.
write_loop_record :
    (fuel : ℕ) (p rest buffer : List ℕ) (ch : Channel) (calls : List Call)
    → IsSized p
    → buffer ≡ to_bytes 4 (length p) ++ (p ++ rest)
    → let (ch', more) = publish ch p rest in
      write_loop (suc fuel) (length buffer) buffer ch calls
      ≡ write_loop fuel (length rest) rest ch' (calls ++ more)
write_loop_record fuel p rest buffer ch calls sized e =
    ap (λ b. write_loop (suc fuel) (length b) b ch calls) e
    ∙ write_loop_round fuel (length whole) (length p) whole rest ch calls (size-front p rest sized)
        (rest-front p rest sized) (omega (arith, length-front p rest sized))
    ∙ ap (λ k. write_loop fuel k rest (publish ch p rest).0 (calls ++ (publish ch p rest).1))
        (omega (arith, length-front p rest sized))
  where
    whole : List ℕ
    whole = front p rest sized

-- The last round.
write_loop_end :
    (fuel : ℕ) (tail : List ℕ) (end : WriteEnd) (ch : Channel) (calls : List Call)
    → Ends tail end
    → write_loop (suc fuel) (length tail) tail ch calls ≡ some (end, ch, calls)
unfolding write_loop
write_loop_end fuel tail complete ch calls e = rw e
write_loop_end fuel tail unaligned ch calls e = ground arith

-- What a write leaves behind: its end, the history with the payloads added, and the calls before
-- the reply.
abbrev Published : List (List ℕ) → WriteEnd → Option (WriteEnd × Channel × List Call) → Type 0
Published log end result =
    (ch : Channel) × (calls : List Call) × (result ≡ some (end, ch, calls)) × Retains log ch.queue

write_loop_records :
    (ps : List (List ℕ)) (fuel : ℕ) (tail : List ℕ) (end : WriteEnd) (log : List (List ℕ))
    (ch : Channel) (calls : List Call)
    → Retains log ch.queue
    → All IsSized ps
    → length log + length ps + 1 < 2 ^ 32
    → Ends tail end
    → length (payloads_bytes ps ++ tail) < fuel
    → Published
        (log ++ ps)
        end
        (write_loop fuel (length (payloads_bytes ps ++ tail)) (payloads_bytes ps ++ tail) ch calls)
write_loop_records ps zero tail end log ch calls h sized few e enough = absurd (omega arith)
write_loop_records [] (suc fuel) tail end log ch calls h sized few e enough = (
  ch,
  calls,
  write_loop_end fuel tail end ch calls e,
  subst (λ l. Retains l ch.queue) (sym (append-nil log)) h,
)
write_loop_records (p ∷ ps) (suc fuel) tail end log ch calls h sized few e enough =
    subst (Published (log ++ (p ∷ ps)) end)
      (sym (write_loop_record fuel p rest whole ch calls sized.0 shape))
      (subst (λ l. Published l end (write_loop fuel (length rest) rest next.0 (calls ++ next.1)))
        (append_assoc log (p ∷ []) ps)
        (write_loop_records ps fuel tail end (log ++ (p ∷ [])) next.0 (calls ++ next.1)
          (publish-Retains log ch p rest h sized.0 (omega arith)) sized.1
          (omega (arith, length-append log (p ∷ []))) e
          (omega (arith, ap length shape, length-append p rest))))
  where
    rest : List ℕ
    rest = payloads_bytes ps ++ tail

    whole : List ℕ
    whole = payloads_bytes (p ∷ ps) ++ tail

    next : Channel × List Call
    next = publish ch p rest

    shape : whole ≡ to_bytes 4 (length p) ++ (p ++ rest)
    shape = ap (λ t. to_bytes 4 (length p) ++ t) (append_assoc p (payloads_bytes ps) tail)

abbrev pub reply_of : WriteEnd → ℕ → Call
reply_of complete size = reply_write size
reply_of unaligned size = reply_err einval

-- A write of whole records, each of a size below 2^32, to a channel whose queue retains a history,
-- while fewer than 2^32 - 1 signals are published in all: it publishes their payloads, in order,
-- and replies with its length. A write that ends in an incomplete record publishes the whole ones
-- all the same, and replies EINVAL.
pub do_write_records :
    (ps : List (List ℕ)) (tail : List ℕ) (end : WriteEnd) (log : List (List ℕ)) (ch : Channel)
    → Retains log ch.queue
    → All IsSized ps
    → length log + length ps + 1 < 2 ^ 32
    → Ends tail end
    → let buffer = payloads_bytes ps ++ tail in
      (ch' : Channel) × (calls : List Call) × (do_write ch buffer (length buffer)
        ≡ some (ch', calls ++ (reply_of end (length buffer) ∷ [])))
      × Retains (log ++ ps) ch'.queue
unfolding do_write
do_write_records ps tail end log ch h sized few e =
    let (ch', calls, run, h') =
      write_loop_records ps (suc (length (payloads_bytes ps ++ tail))) tail end log ch [] h sized
        few e (omega arith) in
    (ch', calls, replies end ch' calls run, h')
  where
    buffer : List ℕ
    buffer = payloads_bytes ps ++ tail

    replies :
        (end : WriteEnd) (ch' : Channel) (calls : List Call)
        → write_loop (suc (length buffer)) (length buffer) buffer ch [] ≡ some (end, ch', calls)
        → do_write ch buffer (length buffer)
          ≡ some (ch', calls ++ (reply_of end (length buffer) ∷ []))
    replies complete ch' calls run = rw (run, do_write)
    replies unaligned ch' calls run = rw (run, do_write)

write_loop_total :
    (fuel remaining : ℕ) (buffer : List ℕ) (ch : Channel) (calls : List Call)
    → remaining < fuel
    → write_loop fuel remaining buffer ch calls ≢ none
unfolding write_loop
write_loop_total zero remaining buffer ch calls h = absurd (omega arith)
write_loop_total (suc fuel) remaining buffer ch calls h =
    let n = payload_size_at buffer in
    let (ch', more) = Channel.queue_signal ch (drop 4 buffer) n in
    ground (
      arith,
      sub_u64_of_le remaining (sizeof_payload + n),
      write_loop_total fuel (sub_u64 remaining (sizeof_payload + n))
          (drop (sizeof_payload + n) buffer) ch' (calls ++ more),
    )

-- Whatever a buffer holds, and whatever size is told for it, the loop of do_write over it ends.
do_write_total : (ch : Channel) (buffer : List ℕ) (size : ℕ) → do_write ch buffer size ≢ none
unfolding do_write
do_write_total ch buffer size e = ground (arith, write_loop_total (suc size) size buffer ch [])
