-- ===== src/Common.antt =====
-- sigfs_common.h: the machine integers of the program and the sizes of its two packed records.
-- A value of a w-bit type is the number that it holds, and each store to such a type reduces it.
use sigfs.Base.{ℕ, ◌+◌, ◌-◌, ◌%◌, ◌^◌, arith, ◌≤◌, ◌≡◌, ltb, if◌then◌else◌}

-- Storing to a uint32_t: signal_count_t, payload_size, Queue::index_t, and the id_t of a Signal.
abbrev pub to_u32 : ℕ → ℕ
to_u32 x = x % 2 ^ 32

-- Storing to a uint64_t: signal_id_t, size_t, ino_t.
abbrev pub to_u64 : ℕ → ℕ
to_u64 x = x % 2 ^ 64

-- sizeof(sigfs_payload_t): a uint32_t and a flexible array, packed.
abbrev pub sizeof_payload : ℕ
sizeof_payload = 4

-- sizeof(sigfs_signal_t): a uint32_t, a uint64_t and a sigfs_payload_t, packed.
abbrev pub sizeof_signal : ℕ
sizeof_signal = 16

-- SIGFS_PAYLOAD_SIZE
abbrev pub sigfs_payload_size : ℕ → ℕ
sigfs_payload_size payload_size = sizeof_payload + payload_size

-- SIGFS_SIGNAL_SIZE
abbrev pub sigfs_signal_size : ℕ → ℕ
sigfs_signal_size payload_size = sizeof_signal + payload_size

-- a - b of size_t
unfoldable pub sub_u64 : ℕ → ℕ → ℕ
sub_u64 a b = if ltb a b then a + 2 ^ 64 - b else a - b

pub sub_u64_of_le : (a b : ℕ) → b ≤ a → sub_u64 a b ≡ a - b
unfolding sub_u64
sub_u64_of_le a b h = ground arith
