-- ===== src/Signal.antt =====
-- queue.hh, class Queue::Signal: a slot of the ring, with a buffer that it keeps and reuses.
pub mod Memory
use sigfs.Base.{
  ℕ, ◌+◌, List, [], ◌++◌, Option, none, some, ltb, if◌then◌else◌, take, drop, replicate,
}
use sigfs.Common.{to_u32, to_u64, sizeof_payload, sizeof_signal}

-- payload_t. The list holds the bytes of the flexible array that were allocated.
pub record Payload : Type 0 where
  pub payload_size : ℕ
  pub payload : List ℕ

-- `none` is the null pointer.
pub record Signal : Type 0 where
  pub payload_alloc : ℕ
  pub sig_id : ℕ
  pub payload : Option Payload

abbrev pub init : Signal
init = record { payload_alloc = 0; sig_id = 0; payload = none }

unfoldable pub set_sig_id : Signal → ℕ → Signal
set_sig_id s id = record s { sig_id = to_u32 id }

-- memcpy(dst, src, n): the first n bytes change. A copy past the end of dst would make it longer.
abbrev pub memcpy : List ℕ → List ℕ → ℕ → List ℕ
memcpy dst src n = take n src ++ drop n dst

-- new char[n]. What it holds is not known: the copy that follows overwrites all of it.
abbrev pub new_payload : ℕ → Payload
new_payload n = record { payload_size = 0; payload = replicate n 0 }

allocate : Signal → ℕ → Signal
allocate s n = record s { payload_alloc = n + sizeof_payload; payload = some (new_payload n) }

-- A store through the null pointer does nothing here.
fill : Signal → ℕ → List ℕ → ℕ → Signal
fill s id src n = record s {
  sig_id = to_u32 id;
  payload = elim s.payload [
    | none ↦ none
    | some p ↦ some (record { payload_size = to_u32 n; payload = memcpy p.payload src n })
  ];
}

-- A buffer that is too small is replaced by one of the exact size.
unfoldable pub set : Signal → ℕ → List ℕ → ℕ → Signal
unfolding allocate fill
set s id src n =
    fill (if ltb s.payload_alloc (to_u64 (n + sizeof_signal)) then allocate s n else s) id src n

-- The bytes that a reader of the slot sees: payload_size bytes from the start of the array.
abbrev pub read : Payload → List ℕ
read p = take p.payload_size p.payload
