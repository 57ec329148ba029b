-- ===== src/Wire.antt =====
-- sigfs_common.h: how a sigfs_payload_t and a sigfs_signal_t lie in memory. Both are packed, and
-- the machine is taken to be little-endian.
pub mod Bytes
use sigfs.Base.{ℕ, zero, suc, ◌+◌, ◌*◌, ◌/◌, ◌%◌, List, [], ◌∷◌, ◌++◌, length}

-- An unsigned integer as a number of bytes, and back.
abbrev pub to_bytes : ℕ → ℕ → List ℕ
to_bytes zero x = []
to_bytes (suc width) x = x % 256 ∷ to_bytes width (x / 256)

abbrev pub from_bytes : List ℕ → ℕ
from_bytes [] = 0
from_bytes (b ∷ bs) = b + 256 * from_bytes bs

-- The fixed part of a sigfs_signal_t.
pub record SignalHeader : Type 0 where
  pub lost_signals : ℕ
  pub signal_id : ℕ
  pub payload_size : ℕ

-- Its sizeof(sigfs_signal_t) bytes.
abbrev pub header_bytes : SignalHeader → List ℕ
header_bytes h = to_bytes 4 h.lost_signals ++ (to_bytes 8 h.signal_id ++ to_bytes 4 h.payload_size)

-- A record that a publisher writes: a sigfs_payload_t with its payload.
abbrev pub payload_bytes : List ℕ → List ℕ
payload_bytes bytes = to_bytes 4 (length bytes) ++ bytes

abbrev pub payloads_bytes : List (List ℕ) → List ℕ
payloads_bytes [] = []
payloads_bytes (p ∷ ps) = payload_bytes p ++ payloads_bytes ps
