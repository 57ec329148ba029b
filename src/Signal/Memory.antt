-- ===== src/Signal/Memory.antt =====
-- The buffer of a slot: its size, copies into it, and what is read from it.
use sigfs.Base.{
  ℕ, zero, suc, ap, ltb, ◌∙◌, Bool, true, false, if◌then◌else◌, ◌+◌, ◌≤◌, ◌<◌, ◌^◌, ◌≡◌, refl, ◌⊎◌,
  inl, inr, List, [], ◌∷◌, ◌++◌, none, some, arith, length, take, drop, length-append, length-take,
  length-drop, length-replicate,
}
use sigfs.Common.{sizeof_payload, sizeof_signal, to_u32, to_u64}
use sigfs.Signal.{Payload, Signal, fill, allocate, init, set_sig_id, set, memcpy, read, new_payload}

-- The slot has no buffer yet, or one whose allocation payload_alloc records, header included.
abbrev pub IsAllocated : Signal → Type 0
IsAllocated s =
    ((s.payload ≡ none) × (s.payload_alloc ≡ 0))
    ⊎ ((p : Payload) × (s.payload ≡ some p)
        × (sizeof_payload + length p.payload ≡ s.payload_alloc)
        × (p.payload_size ≤ length p.payload))

-- The slot holds a signal: its id, and its bytes.
abbrev pub Stores : Signal → ℕ → List ℕ → Type 0
Stores s id bytes =
    (s.sig_id ≡ id)
    × (p : Payload) × (s.payload ≡ some p)
    × (p.payload_size ≡ length bytes)
    × (read p ≡ bytes)

length-memcpy :
    (dst src : List ℕ) (n : ℕ)
    → n ≤ length dst
    → n ≤ length src
    → length (memcpy dst src n) ≡ length dst
length-memcpy dst src n h k =
    omega (arith, length-append (take n src) (drop n dst), length-take n src, length-drop n dst)

take-memcpy : (dst src : List ℕ) (n : ℕ) → n ≤ length src → take n (memcpy dst src n) ≡ take n src
take-memcpy dst src n h = take-append_take n src (drop n dst) h
  where
    take-append_take :
        (n : ℕ) (xs ys : List ℕ) → n ≤ length xs → take n (take n xs ++ ys) ≡ take n xs
    take-append_take zero xs ys h = refl
    take-append_take (suc n) [] ys h = absurd (omega arith)
    take-append_take (suc n) (x ∷ xs) ys h = ap (◌∷◌ x) (take-append_take n xs ys (omega arith))

pub init-IsAllocated : IsAllocated init
init-IsAllocated = inl (refl, refl)

pub set_sig_id-IsAllocated : (s : Signal) (id : ℕ) → IsAllocated s → IsAllocated (set_sig_id s id)
unfolding set_sig_id
set_sig_id-IsAllocated s id a = a

module _ (id n : ℕ) (src : List ℕ) (small : n < 2 ^ 32) (enough : n ≤ length src) where
  -- `fill` on a slot whose buffer has room.
  fill_fits :
      (s : Signal) (p : Payload)
      → s.payload ≡ some p
      → n ≤ length p.payload
      → sizeof_payload + length p.payload ≡ s.payload_alloc
      → IsAllocated (fill s id src n) × Stores (fill s id src n) (to_u32 id) (take n src)
  unfolding fill
  fill_fits s p e room alloc = (
    inr (q, stored, omega (arith, kept), omega (arith, kept)),
    (refl, q, stored, omega (arith, length-take n src), bytes),
  )
    where
      q : Payload
      q = record { payload_size = to_u32 n; payload = memcpy p.payload src n }

      kept : length (memcpy p.payload src n) ≡ length p.payload
      kept = length-memcpy p.payload src n room enough

      bytes : read q ≡ take n src
      bytes = ap (λ k. take k q.payload) (omega arith) ∙ take-memcpy p.payload src n enough

      stored : (fill s id src n).payload ≡ some q
      stored = rw e

  -- A buffer that is kept has room for the payload and for a sigfs_signal_t.
  reused :
      (s : Signal)
      → IsAllocated s
      → ltb s.payload_alloc (to_u64 (n + sizeof_signal)) ≡ false
      → IsAllocated (fill s id src n) × Stores (fill s id src n) (to_u32 id) (take n src)
  reused s (inl (e, alloc)) h = absurd (ground arith)
  reused s (inr (p, e, alloc, size)) h = fill_fits s p e (ground arith) alloc

  abbrev Fits : Signal → Type 0
  Fits s = IsAllocated s × Stores s (to_u32 id) (take n src)

  chosen :
      (s : Signal) (b : Bool)
      → IsAllocated s
      → ltb s.payload_alloc (to_u64 (n + sizeof_signal)) ≡ b
      → Fits (fill (if b then allocate s n else s) id src n)
  unfolding allocate
  chosen s true a e =
      fill_fits (allocate s n) (new_payload n) refl (omega (arith, length-replicate {A = ℕ} n 0))
        (omega (arith, length-replicate {A = ℕ} n 0))
  chosen s false a e = reused s a e

  -- Setting a slot whose buffer has the size that is recorded for it, from data of at least `n`
  -- bytes, with `n` below 2^32: the copy stays inside the slot's buffer, whose size is recorded
  -- again, and the slot holds the first `n` bytes of the data and the low 32 bits of the id.
  pub set_fits :
      (s : Signal)
      → IsAllocated s
      → IsAllocated (set s id src n) × Stores (set s id src n) (to_u32 id) (take n src)
  unfolding set
  set_fits s a = chosen s _ a refl
