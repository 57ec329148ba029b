-- ===== src/Write.antt =====
-- sigfs.cc, do_write: a write(2) carries any number of sigfs_payload_t records, each of which is
-- published as one signal. The records before a malformed one have been published when the write
-- is refused.
pub mod Records
pub mod Split
pub mod Replies
use sigfs.Base.{
  ℕ, zero, suc, ◌+◌, ◌-◌, Bool, true, false, List, [], ◌∷◌, ◌++◌, Option, none, some, ltb, ◌==◌,
  if◌then◌else◌, take, drop,
}
use sigfs.Common.{sub_u64, sizeof_payload, sigfs_payload_size}
use sigfs.Fuse.{Call, reply_err, reply_write, einval}
use sigfs.Wire.{from_bytes}
use sigfs.Channel
use sigfs.Channel.{Channel}

-- payload->payload_size, for a buffer of at least four bytes
abbrev pub payload_size_at : List ℕ → ℕ
payload_size_at buffer = from_bytes (take sizeof_payload buffer)

-- How the loop ends: the buffer is used up, or a record does not fit what is left of it.
pub data WriteEnd : Type 0 where
  complete unaligned : WriteEnd

-- The loop `while (remaining_bytes)`, with the number of its rounds as fuel; `none` means that the
-- fuel ran out. The third test of the code repeats the first.
unfoldable pub write_loop :
    ℕ → ℕ → List ℕ → Channel → List Call → Option (WriteEnd × Channel × List Call)
unfolding sub_u64
write_loop zero remaining_bytes buffer ch calls = none
write_loop (suc fuel) remaining_bytes buffer ch calls =
    let payload_size = payload_size_at buffer in
    let (ch', more) = Channel.queue_signal ch (drop sizeof_payload buffer) payload_size in
    let rest =
      write_loop fuel (sub_u64 remaining_bytes (sigfs_payload_size payload_size))
        (drop (sigfs_payload_size payload_size) buffer) ch' (calls ++ more) in
    if remaining_bytes == 0
    then some (complete, ch, calls)
    else if ltb remaining_bytes sizeof_payload
    then some (unaligned, ch, calls)
    else if ltb remaining_bytes (sizeof_payload + payload_size)
    then some (unaligned, ch, calls)
    else rest

-- The reply: all of `size` bytes were taken, or EINVAL.
unfoldable pub do_write : Channel → List ℕ → ℕ → Option (Channel × List Call)
unfolding write_loop
do_write ch buffer size = elim (write_loop (suc size) size buffer ch []) [
  | none ↦ none
  | some (complete, ch', calls) ↦ some (ch', calls ++ (reply_write size ∷ []))
  | some (unaligned, ch', calls) ↦ some (ch', calls ++ (reply_err einval ∷ []))
]
