-- ===== src/FileSystem/Build/Root.antt =====
-- The whole constructor, against the configuration that it is given.
use mathlib.Core.Option.{some-injective}
use native.Mathlib.Decide.{ℕ_discrete}
use sigfs.Base.{
  ℕ, ◌+◌, ◌<◌, ◌^◌, ◌≡◌, ◌≢◌, inl, inr, refl, ap, ◌∙◌, List, [], ◌∷◌, some, arith, ◌==◌,
  if◌then◌else◌, Option-cases, subst,
}
use sigfs.FileSystem.{FileSystem, Inode, directory, find_entry, lookup_inode, root_inode}
use sigfs.FileSystem.Cascade.{IsTree}
use sigfs.FileSystem.Build.{
  Config, AccessConfig, file_config, directory_config, Configs, build, build_entries, new_inode,
  take_inode, register_inode, init,
}
use sigfs.FileSystem.Build.Grown.{
  size, sizes, IsGrown, AreBuilt, lookup-register_inode, register_inode-Keeps,
  build_entries-AreBuilt, take_inode-IsGrown,
}
use sigfs.FileSystem.Build.Tree.{
  IsEntry, AreEntries, entry_number, Listed, IsEntry-Keeps, build_entries-Listed,
}

abbrev pub empty : FileSystem
empty = record { inode_entries = []; next_inode_nr = root_inode }

empty-IsGrown : IsGrown [] empty
unfolding lookup_inode
empty-IsGrown = record { below = λ ino n e. cc e; rooted = λ ino n e. cc e; pending = λ k e. cc e }

module _ (name : List ℕ) (u g : AccessConfig) (cs : Configs) (room : sizes cs + 2 < 2 ^ 64) where
  -- The file system before the root is registered, and the root.
  abbrev pub grown : FileSystem
  grown = (build_entries cs root_inode [] (take_inode empty)).1

  abbrev pub root : Inode
  root =
      new_inode name u g root_inode
        (directory (build_entries cs root_inode [] (take_inode empty)).0) empty

  pub first : (take_inode empty).next_inode_nr ≡ 2
  unfolding take_inode
  first = refl

  pub opened : IsGrown (root_inode ∷ []) (take_inode empty)
  opened = take_inode-IsGrown [] empty empty-IsGrown (omega arith)

  pub built : AreBuilt (root_inode ∷ []) (sizes cs) (take_inode empty) grown
  built =
      build_entries-AreBuilt cs (root_inode ∷ []) root_inode [] (take_inode empty) refl opened
        (omega (arith, first))

  pub found :
      (k : ℕ)
      → lookup_inode (register_inode grown root) k
        ≡ (if root_inode == k then some root else lookup_inode grown k)
  unfolding new_inode
  found k = lookup-register_inode grown root k (built.grown.pending root_inode refl).1

  listed :
      Listed cs root_inode [] (take_inode empty) (build_entries cs root_inode [] (take_inode empty))
  listed =
      build_entries-Listed cs (root_inode ∷ []) root_inode [] (take_inode empty) refl opened tt
        (omega (arith, first))

  root-IsEntry : IsEntry (register_inode grown root) (directory_config name u g cs) root
  unfolding new_inode find_entry
  root-IsEntry =
      IsEntry-Keeps (directory_config name u g cs) grown (register_inode grown root) root
        (register_inode-Keeps grown root)
        (
          record { named = refl; uids = refl; gids = refl; uncached = refl },
          (build_entries cs root_inode [] (take_inode empty)).0,
          refl,
          λ x. listed.0 x ∙ ap (λ k. entry_number x k cs) first,
          subst (λ k. AreEntries grown cs k root_inode) first listed.1,
        )

  grown-IsTree : IsTree (register_inode grown root)
  unfolding new_inode
  grown-IsTree = record { parents = parent }
    where
      parent :
          (ino : ℕ) (n : Inode)
          → lookup_inode (register_inode grown root) ino ≡ some n
          → n.inode ≢ root_inode
          → (p : Inode) × (lookup_inode (register_inode grown root) n.parent_inode ≡ some p)
            × (p.inode < n.inode)
      parent ino n e below_root = elim (ℕ_discrete root_inode ino) [
        | yes same ↦ absurd (below_root (ground (arith, found ino, e, same)))
        | no other ↦ above ino n (ground (arith, found ino, e, other))
      ]
        where
          above :
              (ino : ℕ) (n : Inode)
              → lookup_inode grown ino ≡ some n
              → (p : Inode) × (lookup_inode (register_inode grown root) n.parent_inode ≡ some p)
                × (p.inode < n.inode)
          above ino n e = elim (Option-cases (lookup_inode grown n.parent_inode)) [
            | inl lost ↦ (
              root,
              ground (arith, found n.parent_inode, built.grown.rooted ino n e, lost),
              ground (arith, built.grown.rooted ino n e, built.grown.below ino n e, lost),
            )
            | inr (p, e') ↦ (
              p,
              register_inode-Keeps grown root n.parent_inode p e',
              omega (
                arith,
                built.grown.rooted ino n e,
                built.grown.below ino n e,
                built.grown.below n.parent_inode p e',
              ),
            )
          ]

-- If the constructor makes a file system of a configuration with fewer than 2^64 - 1 entries: every
-- entry but the root has a parent with a smaller number, the root is entry 1 and its own parent,
-- and the root and everything below it are what the configuration describes.
pub init-IsEntry :
    (c : Config) {fs : FileSystem}
    → size c + 1 < 2 ^ 64
    → init c ≡ some fs
    → IsTree fs
      × (root : Inode) × (lookup_inode fs root_inode ≡ some root)
      × (root.inode ≡ root_inode)
      × (root.parent_inode ≡ root_inode)
      × IsEntry fs c root
unfolding init build new_inode
init-IsEntry (file_config name u g length) room e = cc e
init-IsEntry (directory_config name u g cs) {fs} room e =
    subst
      (λ t.
        IsTree t
        × (r : Inode) × (lookup_inode t root_inode ≡ some r)
        × (r.inode ≡ root_inode)
        × (r.parent_inode ≡ root_inode)
        × IsEntry t (directory_config name u g cs) r)
      (some-injective _ _ e)
      (
        grown-IsTree name u g cs (omega arith),
        root name u g cs (omega arith),
        found name u g cs (omega arith) root_inode,
        refl,
        refl,
        root-IsEntry name u g cs (omega arith),
      )
