-- ===== src/Listing/Pages.antt =====
-- One call of do_readdir, against the whole listing and the offsets that its records tell.
use native.Mathlib.Decide.{dec_lt}
use sigfs.Base.{
  ℕ, zero, suc, ◌+◌, ◌-◌, ◌≤◌, ◌≡◌, refl, sym, ap, ap₂, ◌∙◌, List, [], ◌∷◌, ◌++◌, some, arith,
  if◌then◌else◌, take, drop, min, length, All, append_assoc, append-nil, length-append, length-drop,
  drop_of_le, drop-append_length, lt→ltb, not_lt→ltb, subst,
}
use sigfs.Fuse.{reply_buf}
use sigfs.FileSystem.{FileSystem, Inode, directory, lookup_inode}
use sigfs.Listing.{Dirbuf, reply_buf_limited, dirbuf_add, for_each_entry, do_readdir}

take_all : (xs : List ℕ) (n : ℕ) → length xs ≤ n → take n xs ≡ xs
take_all [] zero h = refl
take_all [] (suc n) h = refl
take_all (x ∷ xs) zero h = absurd (omega arith)
take_all (x ∷ xs) (suc n) h = ap (◌∷◌ x) (take_all xs n (omega arith))

take-min : (xs : List ℕ) (n : ℕ) → take (min (length xs) n) xs ≡ take n xs
take-min xs n = elim (dec_lt n (length xs)) [
  | yes less ↦ ap (λ k. take k xs) (omega (arith, less))
  | no more ↦
      ap (λ k. take k xs) (omega (arith, more))
      ∙ take_all xs (length xs) (omega arith)
      ∙ sym (take_all xs n (omega (arith, more)))
]

reply_buf_limited_lem :
    (buf : List ℕ) (off size : ℕ)
    → reply_buf_limited buf (length buf) off size ≡ reply_buf (take size (drop off buf))
unfolding reply_buf_limited
reply_buf_limited_lem buf off size = elim (dec_lt off (length buf)) [
  | yes inside ↦
      ap
        (λ b.
          if b then reply_buf (take (min (length buf - off) size) (drop off buf)) else reply_buf [])
        (lt→ltb off (length buf) inside)
      ∙ ap (λ k. reply_buf (take (min k size) (drop off buf))) (sym (length-drop off buf))
      ∙ ap reply_buf (take-min (drop off buf) size)
  | no outside ↦
      ap
        (λ b.
          if b then reply_buf (take (min (length buf - off) size) (drop off buf)) else reply_buf [])
        (not_lt→ltb off (length buf) outside)
      ∙ ap reply_buf (
          sym (
            ap (take size) (drop_of_le off buf (omega (arith, outside)))
            ∙ take_all [] size (omega arith)))
]

-- The entry of a map leads to an inode of its name and its number.
abbrev pub IsResolved : FileSystem → List ℕ × ℕ → Type 0
IsResolved fs (name, ino) =
    (n : Inode) × (lookup_inode fs ino ≡ some n) × (n.name ≡ name) × (n.inode ≡ ino)

module _ (direntry_size : List ℕ → ℕ) (direntry_bytes : List ℕ → ℕ → ℕ → List ℕ)
    (as_told : (name : List ℕ) (ino off : ℕ)
      → length (direntry_bytes name ino off) ≡ direntry_size name) where
  -- The records of some entries, of which the first stands at an offset. Each tells the offset
  -- behind it.
  abbrev pub listed : ℕ → List (List ℕ × ℕ) → List ℕ
  listed off [] = []
  listed off ((name, ino) ∷ es) =
      let next = off + direntry_size name in direntry_bytes name ino next ++ listed next es

  -- The offset behind some entries.
  abbrev pub span : List (List ℕ × ℕ) → ℕ
  span [] = 0
  span ((name, ino) ∷ es) = direntry_size name + span es

  length-listed : (off : ℕ) (es : List (List ℕ × ℕ)) → length (listed off es) ≡ span es
  length-listed off [] = refl
  length-listed off ((name, ino) ∷ es) = omega (
    arith,
    length-append (direntry_bytes name ino (off + direntry_size name))
        (listed (off + direntry_size name) es),
    as_told name ino (off + direntry_size name),
    length-listed (off + direntry_size name) es,
  )

  listed-append :
      (off : ℕ) (es fs : List (List ℕ × ℕ))
      → listed off (es ++ fs) ≡ listed off es ++ listed (off + span es) fs
  listed-append off [] fs = ap (λ k. listed k fs) (omega arith)
  listed-append off ((name, ino) ∷ es) fs =
      ap (λ t. record_here ++ t) (listed-append next es fs)
      ∙ sym (append_assoc record_here (listed next es) (listed (next + span es) fs))
      ∙ ap (λ k. (record_here ++ listed next es) ++ listed k fs) (omega arith)
    where
      next : ℕ
      next = off + direntry_size name

      record_here : List ℕ
      record_here = direntry_bytes name ino next

  -- The buffer holds exactly some bytes.
  abbrev Filled : Dirbuf → List ℕ → Type 0
  Filled b bytes = (b.p ≡ bytes) × (b.size ≡ length bytes)

  abbrev add : Dirbuf → List ℕ → ℕ → Dirbuf
  add = dirbuf_add direntry_size direntry_bytes

  add-Filled :
      (b : Dirbuf) (bytes : List ℕ) (name : List ℕ) (ino : ℕ)
      → Filled b bytes
      → Filled
          (add b name ino)
          (bytes ++ direntry_bytes name ino (length bytes + direntry_size name))
  unfolding dirbuf_add
  add-Filled b bytes name ino (content, size) = (
    ap₂ ◌++◌ (ap₂ take size content ∙ take_all bytes (length bytes) (omega arith))
        (ap (λ k. direntry_bytes name ino (k + direntry_size name)) size),
    omega (
      arith,
      size,
      length-append bytes (direntry_bytes name ino (length bytes + direntry_size name)),
      as_told name ino (length bytes + direntry_size name),
    ),
  )

  -- A record that was written, and the records behind it.
  listed-cons :
      (bytes name : List ℕ) (ino : ℕ) (es : List (List ℕ × ℕ))
      → let grown = bytes ++ direntry_bytes name ino (length bytes + direntry_size name) in
        grown ++ listed (length grown) es ≡ bytes ++ listed (length bytes) ((name, ino) ∷ es)
  listed-cons bytes name ino es =
      append_assoc bytes here (listed (length (bytes ++ here)) es)
      ∙ ap (λ k. bytes ++ (here ++ listed k es))
          (omega
            (arith, length-append bytes here, as_told name ino (length bytes + direntry_size name)))
    where
      here : List ℕ
      here = direntry_bytes name ino (length bytes + direntry_size name)

  for_each_entry-Filled :
      (fs : FileSystem) (es : List (List ℕ × ℕ)) (b : Dirbuf) (bytes : List ℕ)
      → All (IsResolved fs) es
      → Filled b bytes
      → (b' : Dirbuf) × (for_each_entry direntry_size direntry_bytes fs es b ≡ some b')
        × Filled b' (bytes ++ listed (length bytes) es)
  unfolding for_each_entry
  for_each_entry-Filled fs [] b bytes h f = (b, refl, subst (Filled b) (sym (append-nil bytes)) f)
  for_each_entry-Filled fs ((name, ino) ∷ es) b bytes ((n, found, named, numbered), h) f =
      let (b', run, filled) =
        for_each_entry-Filled fs es (add b name ino) grown h (add-Filled b bytes name ino f) in
      (
        b',
        one_round n found
            ∙ ap₂ (λ x i. for_each_entry direntry_size direntry_bytes fs es (add b x i)) named
                numbered
            ∙ run,
        subst (Filled b') (listed-cons bytes name ino es) filled,
      )
    where
      here : List ℕ
      here = direntry_bytes name ino (length bytes + direntry_size name)

      grown : List ℕ
      grown = bytes ++ here

      one_round :
          (n : Inode)
          → lookup_inode fs ino ≡ some n
          → for_each_entry direntry_size direntry_bytes fs ((name, ino) ∷ es) b
            ≡ for_each_entry direntry_size direntry_bytes fs es (add b n.name n.inode)
      one_round n found = rw (for_each_entry, found) refl

  -- The whole listing of a directory.
  whole-Filled :
      (fs : FileSystem) (ino parent : ℕ) (es : List (List ℕ × ℕ))
      → All (IsResolved fs) es
      → (b : Dirbuf) × (for_each_entry direntry_size direntry_bytes fs es
            (add (add (record { p = []; size = 0 }) (46 ∷ []) ino) (46 ∷ 46 ∷ []) parent)
          ≡ some b)
        × Filled b (listed 0 ((46 ∷ [], ino) ∷ (46 ∷ 46 ∷ [], parent) ∷ es))
  whole-Filled fs ino parent es h =
      let (b, run, filled) =
        for_each_entry-Filled fs es
          (add (add (record { p = []; size = 0 }) (46 ∷ []) ino) (46 ∷ 46 ∷ []) parent) _ h
          (add-Filled _ _ (46 ∷ 46 ∷ []) parent
            (add-Filled (record { p = []; size = 0 }) [] (46 ∷ []) ino (refl, refl))) in
      let first : List ℕ = direntry_bytes (46 ∷ []) ino (0 + direntry_size (46 ∷ [])) in
      (
        b,
        run,
        subst (Filled b)
            (listed-cons first (46 ∷ 46 ∷ []) parent es
              ∙ listed-cons [] (46 ∷ []) ino ((46 ∷ 46 ∷ [], parent) ∷ es))
            filled,
      )

  -- Let fuse_add_direntry write records of the size that it tells. A directory whose entries lead
  -- to inodes of their names and numbers is asked for what follows the first records of its
  -- listing, by the offset behind these: the reply is the remaining records, cut at the size asked
  -- for. The listing is ".", "..", with the number of the parent, and the entries in their order,
  -- each record with the offset behind itself.
  pub do_readdir_lem :
      (fs : FileSystem) (ino size : ℕ) (dir : Inode) (es before after : List (List ℕ × ℕ))
      → lookup_inode fs ino ≡ some dir
      → dir.kind ≡ directory es
      → All (IsResolved fs) es
      → (46 ∷ [], ino) ∷ (46 ∷ 46 ∷ [], dir.parent_inode) ∷ es ≡ before ++ after
      → do_readdir direntry_size direntry_bytes fs ino size (span before)
        ≡ some (reply_buf (take size (listed (span before) after)))
  unfolding do_readdir
  do_readdir_lem fs ino size dir es before after found kind h split =
      let (b, run, filled) = whole-Filled fs ino dir.parent_inode es h in
      rw (do_readdir, found, kind, run)
        (ap some (
          ap₂ (λ p k. reply_buf_limited p k (span before) size) filled.0 filled.1
          ∙ reply_buf_limited_lem whole (span before) size
          ∙ ap (λ l. reply_buf (take size l)) rest))
    where
      whole : List ℕ
      whole = listed 0 ((46 ∷ [], ino) ∷ (46 ∷ 46 ∷ [], dir.parent_inode) ∷ es)

      rest : drop (span before) whole ≡ listed (span before) after
      rest =
          ap₂ drop (sym (length-listed 0 before))
            (ap (listed 0) split ∙ listed-append 0 before after)
          ∙ drop-append_length (listed 0 before) (listed (0 + span before) after)
          ∙ ap (λ k. listed k after) (omega arith)
