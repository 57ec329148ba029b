-- ===== src/Client/Publish/Writes.antt =====
-- What the publisher writes.
use sigfs.Base.{
  ℕ, zero, suc, ◌+◌, ◌<◌, ◌^◌, ◌≡◌, refl, sym, ap, subst, ◌∙◌, true, false, Bool, ◌==◌,
  if◌then◌else◌, List, [], ◌∷◌, ◌++◌, Option, none, some, arith, length, replicate, append-nil,
  append_assoc, length-append,
}
use sigfs.Base.Int.{pos}
use sigfs.Fuse.{Call, reply_write}
use sigfs.Wire.{payload_bytes, payloads_bytes}
use sigfs.Queue.History.{Retains}
use sigfs.Channel.{Channel}
use sigfs.Write.{complete, do_write}
use sigfs.Write.Records.{do_write_records}
use sigfs.Client.{publish_buffer}
use sigfs.Client.Publish.{
  Opt, Settings, finished, chosen, defaults, read_options, goes_on, next_buffer, with_write,
  write_loop, main,
}

-- The records of the texts numbered from ind + 1 on.
abbrev pub numbered : (ℕ → List ℕ) → ℕ → ℕ → List (List ℕ)
numbered text ind zero = []
numbered text ind (suc k) = publish_buffer (text (ind + 1)) ∷ numbered text (ind + 1) k

next_fits :
    (sprintf : List ℕ → ℕ → List ℕ) (fmt : List ℕ) (ind : ℕ)
    → length (sprintf fmt (ind + 1)) < length fmt + 100
    → next_buffer sprintf fmt ind ≡ some (publish_buffer (sprintf fmt (ind + 1)))
unfolding next_buffer publish_buffer
next_fits sprintf fmt ind h = ground (arith, h)

-- One of the buffers is a record, which do_write takes whole.
publish_buffer_written :
    (log : List (List ℕ)) (ch : Channel) (text : List ℕ)
    → Retains log ch.queue
    → length text < 2 ^ 32
    → length log + 2 < 2 ^ 32
    → (ch' : Channel) × (calls : List Call) × (do_write ch
          (publish_buffer text)
          (length (publish_buffer text))
        ≡ some (ch', calls ++ (reply_write (length (publish_buffer text)) ∷ [])))
      × Retains (log ++ (text ∷ [])) ch'.queue
unfolding publish_buffer
publish_buffer_written log ch text holds small few =
    let (ch', calls, run, holds') =
      do_write_records (text ∷ []) [] complete log ch holds (small, tt) (omega arith) refl in
    (
      ch',
      calls,
      subst (λ b. do_write ch b (length b) ≡ some (ch', calls ++ (reply_write (length b) ∷ [])))
          (append-nil (payloads_bytes (text ∷ [])) ∙ append-nil (payload_bytes text)) run,
      holds',
    )

write_loop_lem :
    (sprintf : List ℕ → ℕ → List ℕ) (s : Settings) (n k ind : ℕ)
    → s.count ≡ pos n
    → n ≡ ind + k
    → ((i : ℕ) → length (sprintf s.fmt_string i) < length s.fmt_string + 100)
    → write_loop sprintf s ind (replicate k true)
      ≡ (numbered (sprintf s.fmt_string) ind k, finished)
unfolding write_loop with_write
write_loop_lem sprintf s n zero ind count left fits =
    let off : goes_on s.count ind ≡ false = ap (λ c. goes_on c ind) count ∙ ground (arith, left) in
    rw (write_loop, off) refl
write_loop_lem sprintf s n (suc k) ind count left fits =
    let on : goes_on s.count ind ≡ true = ap (λ c. goes_on c ind) count ∙ ground (arith, left) in
    rw (write_loop, on, next_fits sprintf s.fmt_string ind (fits (ind + 1)))
      (ap (with_write (publish_buffer (sprintf s.fmt_string (ind + 1))))
        (write_loop_lem sprintf s n k (ind + 1) count (omega arith) fits))

-- The texts numbered from ind + 1 on.
abbrev pub texts : (ℕ → List ℕ) → ℕ → ℕ → List (List ℕ)
texts text ind zero = []
texts text ind (suc k) = text (ind + 1) ∷ texts text (ind + 1) k

-- The last of a handler's calls is the reply that `size` bytes were taken.
abbrev pub is_taken : ℕ → List Call → Bool
is_taken size [] = false
is_taken size (reply_write n ∷ []) = n == size
is_taken size (c ∷ []) = false
is_taken size (c ∷ d ∷ calls) = is_taken size (d ∷ calls)

-- The writes of a program to one file, one after the other, as long as each is taken whole.
unfoldable pub write_all : Channel → List (List ℕ) → Option Channel
write_all ch [] = some ch
write_all ch (w ∷ ws) = elim (do_write ch w (length w)) [
  | none ↦ none
  | some (ch', calls) ↦ if is_taken (length w) calls then write_all ch' ws else none
]

is_taken-append : (n : ℕ) (calls : List Call) → is_taken n (calls ++ (reply_write n ∷ [])) ≡ true
is_taken-append n [] = ground arith
is_taken-append n (c ∷ []) = ground arith
is_taken-append n (c ∷ d ∷ calls) = is_taken-append n (d ∷ calls)

length-texts : (text : ℕ → List ℕ) (ind k : ℕ) → length (texts text ind k) ≡ k
length-texts text ind zero = refl
length-texts text ind (suc k) = ap suc (length-texts text (ind + 1) k)

write_all-numbered :
    (text : ℕ → List ℕ) (k ind : ℕ) (log : List (List ℕ)) (ch : Channel)
    → Retains log ch.queue
    → ((i : ℕ) → length (text i) < 2 ^ 32)
    → length log + k + 1 < 2 ^ 32
    → (ch' : Channel) × (write_all ch (numbered text ind k) ≡ some ch')
      × Retains (log ++ texts text ind k) ch'.queue
unfolding write_all
write_all-numbered text zero ind log ch holds small few =
    (ch, refl, subst (λ l. Retains l ch.queue) (sym (append-nil log)) holds)
write_all-numbered text (suc k) ind log ch holds small few =
    let t = text (ind + 1) in
    let w = publish_buffer t in
    let ws = numbered text (ind + 1) k in
    let (ch1, calls, run, holds1) =
      publish_buffer_written log ch t holds (small (ind + 1)) (omega arith) in
    let (ch', rest, holds') =
      write_all-numbered text k (ind + 1) (log ++ (t ∷ [])) ch1 holds1 small
        (omega (arith, length-append log (t ∷ []))) in
    (
      ch',
      ap (on_reply ws w) run
          ∙ ap (λ b. if b then write_all ch1 ws else none) (is_taken-append (length w) calls)
          ∙ rest,
      subst (λ l. Retains l ch'.queue) (append_assoc log (t ∷ []) (texts text (ind + 1) k)) holds',
    )
  where
    on_reply : List (List ℕ) → List ℕ → Option (Channel × List Call) → Option Channel
    on_reply ws w o = elim o [
      | none ↦ none
      | some (c, calls) ↦ if is_taken (length w) calls then write_all c ws else none
    ]

-- The publisher program, with options that give a text and a file, neither of them empty, and a
-- count, when the text is more than 100 bytes shorter than 2^32, sprintf makes of it, with any
-- number, less than 100 bytes more than it has, the file opens, and the count's writes succeed: it
-- exits with 0; and if its writes go to a channel whose queue retains a history, with fewer than
-- 2^32 - 1 signals in all, do_write replies to each that it was taken whole, and the queue then
-- retains the history with the texts for the numbers from 1 to the count at its end.
pub main_writes :
    (sprintf : List ℕ → ℕ → List ℕ) (opts : List Opt) (c d n : ℕ) (cs ds : List ℕ)
    (log : List (List ℕ)) (ch : Channel)
    → read_options opts defaults
      ≡ chosen (record { fmt_string = c ∷ cs; file = d ∷ ds; count = pos n })
    → ((i : ℕ) → length (sprintf (c ∷ cs) i) < length (c ∷ cs) + 100)
    → length cs + 101 < 2 ^ 32
    → Retains log ch.queue
    → length log + n + 1 < 2 ^ 32
    → (writes : List (List ℕ)) × (ch' : Channel) × (main sprintf opts true (replicate n true)
        ≡ (writes, finished))
      × (write_all ch writes ≡ some ch')
      × Retains (log ++ texts (sprintf (c ∷ cs)) 0 n) ch'.queue
unfolding main
main_writes sprintf opts c d n cs ds log ch e fits bound holds few =
    let s : Settings = record { fmt_string = c ∷ cs; file = d ∷ ds; count = pos n } in
    let (ch', run, holds') =
      write_all-numbered (sprintf (c ∷ cs)) n 0 log ch holds (λ i. omega (arith, fits i)) few in
    (
      numbered (sprintf (c ∷ cs)) 0 n,
      ch',
      rw (main, e) (write_loop_lem sprintf s n n 0 refl (omega arith) fits),
      run,
      holds',
    )
