-- ===== src/Write/Replies.antt =====
-- The reply that do_write makes of its loop's result.
use sigfs.Base.{
  ℕ, suc, ◌≡◌, refl, sym, ap, ◌∙◌, List, [], ◌∷◌, ◌++◌, Option, none, some, Option-cases, inl, inr,
  ◌⊎◌, arith, drop,
}
use sigfs.Fuse.{Call}
use sigfs.Common.{sub_u64, sigfs_payload_size}
use sigfs.Channel
use sigfs.Channel.{Channel}
use sigfs.Write.{WriteEnd, complete, unaligned, payload_size_at, write_loop, do_write}
use sigfs.Write.Records.{reply_of}

-- A round that ends the loop of do_write leaves the channel as it is; any other publishes and goes on.
pub write_loop_round :
    (fuel remaining : ℕ) (buffer : List ℕ) (ch : Channel) (calls : List Call) (end : WriteEnd)
    (ch' : Channel) (calls' : List Call)
    → write_loop (suc fuel) remaining buffer ch calls ≡ some (end, ch', calls')
    → let n = payload_size_at buffer in
      let (ch1, more) = Channel.queue_signal ch (drop 4 buffer) n in
      ((ch ≡ ch') × (calls ≡ calls'))
      ⊎ (write_loop fuel
            (sub_u64 remaining (sigfs_payload_size n))
            (drop (sigfs_payload_size n) buffer)
            ch1
            (calls ++ more)
          ≡ some (end, ch', calls'))
unfolding write_loop
write_loop_round fuel remaining buffer ch calls end ch' calls' e = ground arith

abbrev replied_end : ℕ → Option (WriteEnd × Channel × List Call) → Option (Channel × List Call)
replied_end size none = none
replied_end size (some (end, ch, calls)) = some (ch, calls ++ (reply_of end size ∷ []))

replied_end_cases :
    (size : ℕ) (r : Option (WriteEnd × Channel × List Call)) (ch' : Channel) (calls : List Call)
    → replied_end size r ≡ some (ch', calls)
    → (end : WriteEnd) × (calls' : List Call) × (r ≡ some (end, ch', calls'))
      × (calls ≡ calls' ++ (reply_of end size ∷ []))
replied_end_cases size none ch' calls e = cc e
replied_end_cases size (some (end, ch, calls')) ch' calls e =
    (end, calls', ap (λ c. some (end, c, calls')) (cc e), cc e)

do_write_replied :
    (ch : Channel) (buffer : List ℕ) (size : ℕ)
    → do_write ch buffer size ≡ replied_end size (write_loop (suc size) size buffer ch [])
unfolding do_write
do_write_replied ch buffer size = elim (Option-cases (write_loop (suc size) size buffer ch [])) [
  | inl e ↦ rw (do_write, e) refl
  | inr ((complete, ch', calls), e) ↦ rw (do_write, e) refl
  | inr ((unaligned, ch', calls), e) ↦ rw (do_write, e) refl
]

pub do_write_cases :
    (ch : Channel) (buffer : List ℕ) (size : ℕ) (ch' : Channel) (calls : List Call)
    → do_write ch buffer size ≡ some (ch', calls)
    → (end : WriteEnd) × (calls' : List Call) × (write_loop (suc size) size buffer ch []
        ≡ some (end, ch', calls'))
      × (calls ≡ calls' ++ (reply_of end size ∷ []))
do_write_cases ch buffer size ch' calls e =
    replied_end_cases size (write_loop (suc size) size buffer ch []) ch' calls
      (sym (do_write_replied ch buffer size) ∙ e)
