-- ===== src/FileSystem/Saved/Dump.antt =====
-- What the configuration of a new file system says, against the configuration that it was made of.
use mathlib.Core.Option.{some-injective}
use sigfs.Base.{
  ℕ, ◌+◌, ◌≤◌, ◌<◌, ◌^◌, ◌≡◌, refl, sym, ap, ap₂, ◌∙◌, true, List, [], ◌∷◌, none, some, arith, max,
  subst,
}
use sigfs.Access
use sigfs.Access.Listed.{in_order, to_configs-of_configs}
use sigfs.FileSystem.{FileSystem, lookup_inode, root_inode}
use sigfs.FileSystem.Build.{
  Config, AccessConfig, file_config, directory_config, Configs, build, build_entries, init,
  insert_entry, name_of, queue_length_of, take_inode, register_inode, new_inode,
}
use sigfs.FileSystem.Build.Grown.{
  size, sizes, among, IsGrown, register_inode-Keeps, registered-AreBuilt, build-IsBuilt,
  take_inode-IsGrown, next-register_inode,
}
use sigfs.FileSystem.Build.Root.{empty, grown, root, found, first, opened, built}
use sigfs.FileSystem.Build.Tree.{registered-found}
use sigfs.FileSystem.Saved.Written.{
  saved_name, placed, Written, AllWritten, Written-Keeps, AllWritten-Keeps, height, heights,
  to_config-Written, insert_entry-AllWritten,
}
use sigfs.FileSystem.Saved.{
  Fields, Saved, SavedEntries, saved_file, saved_directory, end, entry, inode_to_config,
  root_to_config,
}

-- An access array put in order: the ids ascend, each with the rights and flags that its first
-- element names.
abbrev pub canonical : AccessConfig → AccessConfig
canonical cs = in_order cs []

canonical_lem : (cs : AccessConfig) → Access.to_configs (Access.of_configs cs []) ≡ canonical cs
unfolding Access.to_configs
canonical_lem cs = to_configs-of_configs cs []

abbrev pub fields : List ℕ → AccessConfig → AccessConfig → ℕ → ℕ → Fields
fields name u g ino parent = record {
  inode = ino;
  parent = parent;
  name = name;
  uid_access = canonical u;
  gid_access = canonical g;
}

fields_lem :
    (name : List ℕ) (u g : AccessConfig) (ino parent : ℕ)
    → record {
      inode = ino;
      parent = parent;
      name = name;
      uid_access = Access.to_configs (Access.of_configs u []);
      gid_access = Access.to_configs (Access.of_configs g []);
    }
      ≡ fields name u g ino parent
fields_lem name u g ino parent =
    ap₂
      (λ v h. record { inode = ino; parent = parent; name = name; uid_access = v; gid_access = h })
      (canonical_lem u) (canonical_lem g)

-- The configuration itself, put in order: the entries are numbered as they appear.
abbrev mutual
  pub dump : Config → ℕ → ℕ → Saved
  dump (file_config name u g length) ino parent = saved_file (fields name u g ino parent)
  dump (directory_config name u g cs) ino parent =
      saved_directory (fields name u g ino parent) (dump_entries cs (ino + 1) ino end)

  pub dump_entries : Configs → ℕ → ℕ → SavedEntries → SavedEntries
  dump_entries Configs.end next parent done = done
  dump_entries (Configs.entry c cs) next parent done =
      dump_entries cs (next + size c) parent (placed (dump c next parent) done)

saved_name-dump : (c : Config) (ino parent : ℕ) → saved_name (dump c ino parent) ≡ name_of c
saved_name-dump (file_config name u g length) ino parent = refl
saved_name-dump (directory_config name u g cs) ino parent = refl

mutual
  unfolding build new_inode take_inode inode_to_config

  build-Written :
      (c : Config) (open' : List ℕ) (parent : ℕ) (fs : FileSystem)
      → among parent open' ≡ true
      → IsGrown open' fs
      → fs.next_inode_nr + size c < 2 ^ 64
      → Written (build c parent fs).1 (build c parent fs).0 (dump c fs.next_inode_nr parent)
  build-Written (file_config name u g length) o parent fs under h room =
      (queue_length_of length, none, refl, fields_lem name u g fs.next_inode_nr parent)
  build-Written (directory_config name u g cs) o parent fs under h room = (
    (build_entries cs fs.next_inode_nr [] (take_inode fs)).0,
    refl,
    fields_lem name u g fs.next_inode_nr parent,
    subst
        (λ k.
          AllWritten (build_entries cs fs.next_inode_nr [] (take_inode fs)).1
            (build_entries cs fs.next_inode_nr [] (take_inode fs)).0
            (dump_entries cs k fs.next_inode_nr end))
        wraps
        (build_entries-AllWritten cs (fs.next_inode_nr ∷ o) fs.next_inode_nr [] end (take_inode fs)
          (ground arith) (take_inode-IsGrown o fs h (omega arith)) (omega arith) tt),
  )
    where
      wraps : (take_inode fs).next_inode_nr ≡ fs.next_inode_nr + 1
      wraps = omega arith

  build_entries-AllWritten :
      (cs : Configs) (open' : List ℕ) (parent : ℕ) (es : List (List ℕ × ℕ)) (ds : SavedEntries)
      (fs : FileSystem)
      → among parent open' ≡ true
      → IsGrown open' fs
      → fs.next_inode_nr + sizes cs < 2 ^ 64
      → AllWritten fs es ds
      → AllWritten
          (build_entries cs parent es fs).1
          (build_entries cs parent es fs).0
          (dump_entries cs fs.next_inode_nr parent ds)
  build_entries-AllWritten Configs.end o parent es ds fs under h room all = all
  build_entries-AllWritten (Configs.entry c cs) o parent es ds fs under h room all =
      let (n, fs') = build c parent fs in
      let b = build-IsBuilt c o parent fs under h (omega arith) in
      let a = registered-AreBuilt o parent (size c) fs (n, fs') under h b in
      let s = dump c fs.next_inode_nr parent in
      let fs1 = register_inode fs' n in
      let es' = insert_entry (name_of c) n.inode es in
      subst
        (λ k.
          AllWritten (build_entries cs parent es' fs1).1 (build_entries cs parent es' fs1).0
            (dump_entries cs k parent (placed s ds)))
        a.next
        (build_entries-AllWritten cs o parent es' (placed s ds) fs1 under a.grown
          (omega (arith, a.next))
          (subst (λ t. AllWritten fs1 (insert_entry t n.inode es) (placed s ds))
            (saved_name-dump c fs.next_inode_nr parent)
            (insert_entry-AllWritten fs1 n.inode n s es ds
              (ap (lookup_inode fs1) b.number ∙ registered-found o parent (size c) fs (n, fs') b)
              (Written-Keeps s fs' fs1 n (register_inode-Keeps fs' n)
                (build-Written c o parent fs under h (omega arith)))
              (AllWritten-Keeps ds fs fs1 es a.kept all))))

heights-placed :
    (s : Saved) (ds : SavedEntries) → heights (placed s ds) ≤ max (height s) (heights ds)
heights-placed s end = omega arith
heights-placed s (entry d ds) = ground (arith, heights-placed s ds)

mutual
  height-dump : (c : Config) (ino parent : ℕ) → height (dump c ino parent) ≤ size c
  height-dump (file_config name u g length) ino parent = omega arith
  height-dump (directory_config name u g cs) ino parent =
      omega (arith, heights-dump_entries cs (ino + 1) ino end)

  heights-dump_entries :
      (cs : Configs) (next parent : ℕ) (ds : SavedEntries)
      → heights (dump_entries cs next parent ds) ≤ heights ds + sizes cs
  heights-dump_entries Configs.end next parent ds = omega arith
  heights-dump_entries (Configs.entry c cs) next parent ds = omega (
    arith,
    height-dump c next parent,
    heights-placed (dump c next parent) ds,
    heights-dump_entries cs (next + size c) parent (placed (dump c next parent) ds),
  )

module _ (name : List ℕ) (u g : AccessConfig) (cs : Configs) (room : sizes cs + 2 < 2 ^ 64) where
  abbrev whole : FileSystem
  whole = register_inode (grown name u g cs room) (root name u g cs room)

  root-Written :
      Written whole
        (root name u g cs room)
        (dump (directory_config name u g cs) root_inode root_inode)
  unfolding new_inode inode_to_config
  root-Written =
      Written-Keeps (dump (directory_config name u g cs) root_inode root_inode)
        (grown name u g cs room) whole (root name u g cs room)
        (register_inode-Keeps (grown name u g cs room) (root name u g cs room))
        (
          (build_entries cs root_inode [] (take_inode empty)).0,
          refl,
          fields_lem name u g root_inode root_inode,
          subst
              (λ k.
                AllWritten (grown name u g cs room)
                  (build_entries cs root_inode [] (take_inode empty)).0
                  (dump_entries cs k root_inode end))
              (first name u g cs room)
              (build_entries-AllWritten cs (root_inode ∷ []) root_inode [] end (take_inode empty)
                refl (opened name u g cs room) (omega (arith, first name u g cs room)) tt),
        )

  root_to_config-dump :
      root_to_config whole ≡ some (dump (directory_config name u g cs) root_inode root_inode)
  unfolding root_to_config new_inode
  root_to_config-dump =
      rw (root_to_config, found name u g cs room root_inode)
        (to_config-Written (dump (directory_config name u g cs) root_inode root_inode)
          whole.next_inode_nr whole (root name u g cs room)
          (omega (
            arith,
            height-dump (directory_config name u g cs) root_inode root_inode,
            next-register_inode (grown name u g cs room) (root name u g cs room),
            (built name u g cs room).next,
            first name u g cs room,
          ))
          root-Written)

-- The file system that the constructor makes of a configuration with fewer than 2^64 - 1 entries is
-- written by to_config as that configuration put in order: the entries numbered as they appear, the
-- first of each name kept and sorted by name, in each access array the ids ascending, each with the
-- rights and flags that its first element names, each of these once, and the queue lengths left
-- out. No entry is missing, and the fuel is enough.
pub root_to_config-init :
    (c : Config) {fs : FileSystem}
    → size c + 1 < 2 ^ 64
    → init c ≡ some fs
    → root_to_config fs ≡ some (dump c root_inode root_inode)
unfolding init build
root_to_config-init (file_config name u g length) room e = cc e
root_to_config-init (directory_config name u g cs) room e =
    ap root_to_config (sym (some-injective _ _ e)) ∙ root_to_config-dump name u g cs (omega arith)
