-- ===== src/Client.antt =====
-- example/sigfs_subscribe.cc and example/sigfs_publish.cc: how a program reads signals from a file
-- and writes them to it. The texts that it prints and the two main functions are in the children.
pub mod Parse
pub mod Escape
pub mod Subscribe
pub mod Publish
use sigfs.Base.{
  ℕ, zero, suc, ◌+◌, List, [], ◌∷◌, ◌++◌, Option, none, some, ltb, if◌then◌else◌, length, take,
  drop,
}
use sigfs.Common.{sizeof_payload, sizeof_signal, sigfs_signal_size}
use sigfs.Wire.{SignalHeader, from_bytes, payload_bytes}

-- The fields of a sigfs_signal_t, read from the front of a buffer that holds one.
abbrev pub header_at : List ℕ → SignalHeader
header_at buf = record {
  lost_signals = from_bytes (take 4 buf);
  signal_id = from_bytes (take 8 (drop 4 buf));
  payload_size = from_bytes (take 4 (drop 12 buf));
}

-- The loop `while(read_res)` of the subscriber: the records that it prints, for the bytes that read(2)
-- returned. `none` is a record that is not wholly among them, of which the code reads past the end,
-- or fuel that ran out.
unfoldable pub read_signals : ℕ → List ℕ → Option (List (SignalHeader × List ℕ))
read_signals fuel [] = some []
read_signals zero (b ∷ bs) = none
read_signals (suc fuel) (b ∷ bs) =
    let buf : List ℕ = b ∷ bs in
    let size = (header_at buf).payload_size in
    let rest = read_signals fuel (drop (sigfs_signal_size size) buf) in
    if ltb (length buf) sizeof_signal
    then none
    else if ltb (length buf) (sigfs_signal_size size)
    then none
    else elim rest [
      | none ↦ none
      | some more ↦ some ((header_at buf, take size (drop sizeof_signal buf)) ∷ more)
    ]

-- The publisher's buffer for write(2): a sigfs_payload_t with the text that sprintf made.
unfoldable pub publish_buffer : List ℕ → List ℕ
publish_buffer text = payload_bytes text
