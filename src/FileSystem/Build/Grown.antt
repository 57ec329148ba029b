-- ===== src/FileSystem/Build/Grown.antt =====
-- The file system while the tree is built: which entries are registered, and which are under
-- construction.
use sigfs.Base.{
  ℕ, ◌+◌, ◌<◌, ◌^◌, ◌≡◌, ◌≢◌, ◌⊎◌, inl, inr, refl, sym, ◌∙◌, Bool, true, false, ◌||◌, List, [], ◌∷◌,
  none, some, arith, ◌==◌, if◌then◌else◌, Option-cases,
}
use sigfs.FileSystem.{FileSystem, Inode, lookup_inode}
use sigfs.FileSystem.Build.{
  Config, file_config, directory_config, Configs, end, entry, build, build_entries, new_inode,
  take_inode, register_inode, insert_entry, name_of,
}

-- How many entries a configuration has.
abbrev mutual
  pub size : Config → ℕ
  size (file_config name u g length) = 1
  size (directory_config name u g cs) = 1 + sizes cs

  pub sizes : Configs → ℕ
  sizes end = 0
  sizes (entry c cs) = size c + sizes cs

-- `open` are the numbers of the directories under construction.
abbrev pub among : ℕ → List ℕ → Bool
among k [] = false
among k (x ∷ xs) = k == x || among k xs

pub record IsGrown (open' : List ℕ) (fs : FileSystem) : Type 0 where
  pub below :
      (ino : ℕ) (n : Inode)
      → lookup_inode fs ino ≡ some n
      → (n.inode ≡ ino) × (ino < fs.next_inode_nr)
  pub rooted :
      (ino : ℕ) (n : Inode)
      → lookup_inode fs ino ≡ some n
      → (n.parent_inode < ino)
        × ((among n.parent_inode open' ≡ true) ⊎ (lookup_inode fs n.parent_inode ≢ none))
  pub pending : (k : ℕ) → among k open' ≡ true → (k < fs.next_inode_nr) × (lookup_inode fs k ≡ none)

lookup-take_inode : (fs : FileSystem) (k : ℕ) → lookup_inode (take_inode fs) k ≡ lookup_inode fs k
unfolding lookup_inode take_inode
lookup-take_inode fs k = refl

pub lookup-register_inode :
    (fs : FileSystem) (n : Inode) (k : ℕ)
    → lookup_inode fs n.inode ≡ none
    → lookup_inode (register_inode fs n) k ≡ (if n.inode == k then some n else lookup_inode fs k)
unfolding register_inode lookup_inode
lookup-register_inode fs n k fresh = rw (register_inode, fresh) refl

pub next-register_inode :
    (fs : FileSystem) (n : Inode) → (register_inode fs n).next_inode_nr ≡ fs.next_inode_nr
unfolding register_inode
next-register_inode fs n = ground arith

-- A number is taken: its directory is under construction.
pub take_inode-IsGrown :
    (open' : List ℕ) (fs : FileSystem)
    → IsGrown open' fs
    → fs.next_inode_nr + 1 < 2 ^ 64
    → IsGrown (fs.next_inode_nr ∷ open') (take_inode fs)
unfolding take_inode
take_inode-IsGrown o fs h room = record {
  below = λ ino n e. ground (arith, h.below ino n, sym (lookup-take_inode fs ino) ∙ e);
  rooted = λ ino n e. ground (
    arith,
    h.rooted ino n,
    sym (lookup-take_inode fs ino) ∙ e,
    lookup-take_inode fs n.parent_inode,
  );
  pending = λ k e. ground (arith, h.pending k, e, lookup-take_inode fs k, absent);
}
  where
    absent : lookup_inode fs fs.next_inode_nr ≡ none
    absent = elim (Option-cases (lookup_inode fs fs.next_inode_nr)) [
      | inl e ↦ e
      | inr (n, e) ↦ absurd (omega (arith, (h.below fs.next_inode_nr n e).1))
    ]

-- An entry is registered: it is no longer under construction.
register_inode-IsGrown :
    (open' : List ℕ) (fs : FileSystem) (n : Inode)
    → IsGrown (n.inode ∷ open') fs
    → n.parent_inode < n.inode
    → among n.parent_inode open' ≡ true
    → ((k : ℕ) → among k open' ≡ true → k < n.inode)
    → IsGrown open' (register_inode fs n)
register_inode-IsGrown o fs n h up under older = record {
  below = λ ino m e.
      ground
        (arith, h.below ino m, found ino, e, next-register_inode fs n, (h.pending n.inode here).0);
  rooted = λ ino m e. ground (arith, h.rooted ino m, found ino, e, up, under, found m.parent_inode);
  pending = λ k e. ground (arith, h.pending k, e, found k, older k e, next-register_inode fs n);
}
  where
    here : among n.inode (n.inode ∷ o) ≡ true
    here = ground arith

    found :
        (k : ℕ)
        → lookup_inode (register_inode fs n) k
          ≡ (if n.inode == k then some n else lookup_inode fs k)
    found k = lookup-register_inode fs n k (h.pending n.inode here).1

-- What was registered stays.
abbrev pub Keeps : FileSystem → FileSystem → Type 0
Keeps fs fs' = (k : ℕ) (m : Inode) → lookup_inode fs k ≡ some m → lookup_inode fs' k ≡ some m

pub register_inode-Keeps : (fs : FileSystem) (n : Inode) → Keeps fs (register_inode fs n)
unfolding register_inode lookup_inode
register_inode-Keeps fs n k m e = ground arith

-- An entry that was built for `parent` out of `k` entries of the configuration, not registered yet.
pub record IsBuilt (open' : List ℕ) (parent k : ℕ) (fs : FileSystem) (r : Inode × FileSystem)
    : Type 0 where
  pub grown : IsGrown (r.0.inode ∷ open') r.1
  pub number : r.0.inode ≡ fs.next_inode_nr
  pub above : r.0.parent_inode ≡ parent
  pub next : r.1.next_inode_nr ≡ fs.next_inode_nr + k
  pub kept : Keeps fs r.1

-- The entries of a directory, built and registered.
pub record AreBuilt (open' : List ℕ) (k : ℕ) (fs fs' : FileSystem) : Type 0 where
  pub grown : IsGrown open' fs'
  pub next : fs'.next_inode_nr ≡ fs.next_inode_nr + k
  pub kept : Keeps fs fs'

-- A step of the loop over the entries.
pub registered-AreBuilt :
    (open' : List ℕ) (parent k : ℕ) (fs : FileSystem) (r : Inode × FileSystem)
    → among parent open' ≡ true
    → IsGrown open' fs
    → IsBuilt open' parent k fs r
    → AreBuilt open' k fs (register_inode r.1 r.0)
registered-AreBuilt o parent k fs (n, fs') under h b = record {
  grown =
      register_inode-IsGrown o fs' n b.grown
        (omega (arith, b.above, b.number, (h.pending parent under).0)) (rw b.above under)
        (λ j e. omega (arith, b.number, (h.pending j e).0));
  next = next-register_inode fs' n ∙ b.next;
  kept = λ j m e. register_inode-Keeps fs' n j m (b.kept j m e);
}

mutual
  unfolding build new_inode take_inode

  pub build-IsBuilt :
      (c : Config) (open' : List ℕ) (parent : ℕ) (fs : FileSystem)
      → among parent open' ≡ true
      → IsGrown open' fs
      → fs.next_inode_nr + size c < 2 ^ 64
      → IsBuilt open' parent (size c) fs (build c parent fs)
  build-IsBuilt (file_config name u g length) o parent fs under h room = record {
    grown = take_inode-IsGrown o fs h (omega arith);
    number = refl;
    above = refl;
    next = omega arith;
    kept = λ k m e. e;
  }
  build-IsBuilt (directory_config name u g cs) o parent fs under h room =
      let b =
        build_entries-AreBuilt cs (fs.next_inode_nr ∷ o) fs.next_inode_nr [] (take_inode fs)
          (ground arith) (take_inode-IsGrown o fs h (omega arith)) (omega arith) in
      record {
        grown = b.grown;
        number = refl;
        above = refl;
        next = omega (arith, b.next);
        kept = b.kept;
      }

  pub build_entries-AreBuilt :
      (cs : Configs) (open' : List ℕ) (parent : ℕ) (es : List (List ℕ × ℕ)) (fs : FileSystem)
      → among parent open' ≡ true
      → IsGrown open' fs
      → fs.next_inode_nr + sizes cs < 2 ^ 64
      → AreBuilt open' (sizes cs) fs (build_entries cs parent es fs).1
  build_entries-AreBuilt end o parent es fs under h room = record {
    grown = h;
    next = omega arith;
    kept = λ k m e. e;
  }
  build_entries-AreBuilt (entry c cs) o parent es fs under h room =
      let (n, fs') = build c parent fs in
      let a =
        registered-AreBuilt o parent (size c) fs (n, fs') under h
          (build-IsBuilt c o parent fs under h (omega arith)) in
      let b =
        build_entries-AreBuilt cs o parent (insert_entry (name_of c) n.inode es)
          (register_inode fs' n) under a.grown (omega (arith, a.next)) in
      record {
        grown = b.grown;
        next = omega (arith, a.next, b.next);
        kept = λ k m e. b.kept k m (a.kept k m e);
      }
