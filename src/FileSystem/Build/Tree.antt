-- ===== src/FileSystem/Build/Tree.antt =====
-- The tree that was built, against the configuration: the number of each entry, its directory, its
-- name and its access maps.
use sigfs.Base.{
  ℕ, ◌+◌, ◌<◌, ◌^◌, ◌≡◌, refl, ap, ◌∙◌, true, false, List, [], ◌∷◌, Option, none, some, arith,
  if◌then◌else◌, subst,
}
use sigfs.Access
use sigfs.FileSystem.{FileSystem, Inode, directory, file, lookup_inode, same_name, find_entry}
use sigfs.FileSystem.Build.{
  Config, AccessConfig, file_config, directory_config, Configs, end, entry, build, build_entries,
  new_inode, take_inode, register_inode, insert_entry, name_of, queue_length_of,
}
use sigfs.FileSystem.Build.Names.{
  IsOrdered, or_else, insert_entry-IsOrdered, find_entry-insert_entry,
}
use sigfs.FileSystem.Build.Grown.{
  size, sizes, among, IsGrown, Keeps, IsBuilt, lookup-register_inode, register_inode-Keeps,
  registered-AreBuilt, build-IsBuilt, build_entries-AreBuilt, take_inode-IsGrown,
}

-- What the constructor of INode sets, besides the numbers.
pub record HasMembers (name : List ℕ) (u g : AccessConfig) (n : Inode) : Type 0 where
  pub named : n.name ≡ name
  pub uids : n.uid_access ≡ Access.of_configs u []
  pub gids : n.gid_access ≡ Access.of_configs g []
  pub uncached : n.access_is_cached ≡ false

-- The number of the first entry of a name, if the first entry of all has the number `next`.
abbrev pub entry_number : List ℕ → ℕ → Configs → Option ℕ
entry_number x next end = none
entry_number x next (entry c cs) =
    let rest = entry_number x (next + size c) cs in
    if same_name x (name_of c) then some next else rest

-- `n` is the entry that `c` describes, and so is everything below it. A file has no queue yet.
abbrev mutual
  pub IsEntry : FileSystem → Config → Inode → Type 0
  IsEntry fs (file_config name u g length) n =
      HasMembers name u g n × (n.kind ≡ file (queue_length_of length) none)
  IsEntry fs (directory_config name u g cs) n =
      HasMembers name u g n
      × (es : List (List ℕ × ℕ)) × (n.kind ≡ directory es)
      × ((x : List ℕ) → find_entry x es ≡ entry_number x (n.inode + 1) cs)
      × AreEntries fs cs (n.inode + 1) n.inode

  pub AreEntries : FileSystem → Configs → ℕ → ℕ → Type 0
  AreEntries fs end next parent = Unit {0}
  AreEntries fs (entry c cs) next parent =
      ((m : Inode) × (lookup_inode fs next ≡ some m)
        × (m.inode ≡ next)
        × (m.parent_inode ≡ parent)
        × IsEntry fs c m)
      × AreEntries fs cs (next + size c) parent

mutual
  pub IsEntry-Keeps :
      (c : Config) (fs fs' : FileSystem) (n : Inode)
      → Keeps fs fs'
      → IsEntry fs c n
      → IsEntry fs' c n
  IsEntry-Keeps (file_config name u g length) fs fs' n k e = e
  IsEntry-Keeps (directory_config name u g cs) fs fs' n k (h, es, kind, found, below) =
      (h, es, kind, found, AreEntries-Keeps cs fs fs' (n.inode + 1) n.inode k below)

  pub AreEntries-Keeps :
      (cs : Configs) (fs fs' : FileSystem) (next parent : ℕ)
      → Keeps fs fs'
      → AreEntries fs cs next parent
      → AreEntries fs' cs next parent
  AreEntries-Keeps end fs fs' next parent k e = tt
  AreEntries-Keeps (entry c cs) fs fs' next parent k ((m, l, num, up, e), rest) = (
    (m, k next m l, num, up, IsEntry-Keeps c fs fs' m k e),
    AreEntries-Keeps cs fs fs' (next + size c) parent k rest,
  )

-- What the loop makes of the entries of a directory: they are found by their names, behind those
-- that were there, and stand at their numbers.
abbrev pub Listed :
    Configs → ℕ → List (List ℕ × ℕ) → FileSystem → List (List ℕ × ℕ) × FileSystem → Type 0
Listed cs parent es fs r =
    ((x : List ℕ)
      → find_entry x r.0 ≡ or_else (find_entry x es) (entry_number x fs.next_inode_nr cs))
    × AreEntries r.1 cs fs.next_inode_nr parent

-- An entry is found once it is registered.
pub registered-found :
    (open' : List ℕ) (parent k : ℕ) (fs : FileSystem) (r : Inode × FileSystem)
    → IsBuilt open' parent k fs r
    → lookup_inode (register_inode r.1 r.0) fs.next_inode_nr ≡ some r.0
registered-found o parent k fs (n, fs') b = ground (
  arith,
  lookup-register_inode fs' n fs.next_inode_nr,
  b.number,
  (b.grown.pending n.inode (ground arith)).1,
)

mutual
  unfolding build new_inode take_inode find_entry

  pub build-IsEntry :
      (c : Config) (open' : List ℕ) (parent : ℕ) (fs : FileSystem)
      → among parent open' ≡ true
      → IsGrown open' fs
      → fs.next_inode_nr + size c < 2 ^ 64
      → IsEntry (build c parent fs).1 c (build c parent fs).0
  build-IsEntry (file_config name u g length) o parent fs under h room =
      (record { named = refl; uids = refl; gids = refl; uncached = refl }, refl)
  build-IsEntry (directory_config name u g cs) o parent fs under h room =
      let (found, below) =
        build_entries-Listed cs (fs.next_inode_nr ∷ o) fs.next_inode_nr [] (take_inode fs)
          (ground arith) (take_inode-IsGrown o fs h (omega arith)) tt (omega arith) in
      (
        record { named = refl; uids = refl; gids = refl; uncached = refl },
        (build_entries cs fs.next_inode_nr [] (take_inode fs)).0,
        refl,
        λ x. found x ∙ ap (λ k. entry_number x k cs) wraps,
        subst
            (λ k.
              AreEntries (build_entries cs fs.next_inode_nr [] (take_inode fs)).1 cs k
                fs.next_inode_nr)
            wraps below,
      )
    where
      wraps : (take_inode fs).next_inode_nr ≡ fs.next_inode_nr + 1
      wraps = omega arith

  pub build_entries-Listed :
      (cs : Configs) (open' : List ℕ) (parent : ℕ) (es : List (List ℕ × ℕ)) (fs : FileSystem)
      → among parent open' ≡ true
      → IsGrown open' fs
      → IsOrdered es
      → fs.next_inode_nr + sizes cs < 2 ^ 64
      → Listed cs parent es fs (build_entries cs parent es fs)
  build_entries-Listed end o parent es fs under h ordered room = (λ x. ground arith, tt)
  build_entries-Listed (entry c cs) o parent es fs under h ordered room =
      let (n, fs') = build c parent fs in
      let es' = insert_entry (name_of c) n.inode es in
      let b = build-IsBuilt c o parent fs under h (omega arith) in
      let a = registered-AreBuilt o parent (size c) fs (n, fs') under h b in
      let rest =
        build_entries-AreBuilt cs o parent es' (register_inode fs' n) under a.grown
          (omega (arith, a.next)) in
      let (found, below) =
        build_entries-Listed cs o parent es' (register_inode fs' n) under a.grown
          (insert_entry-IsOrdered (name_of c) n.inode es ordered) (omega (arith, a.next)) in
      (
        λ x.
            found x
            ∙ ground (
              arith,
              find_entry-insert_entry x (name_of c) n.inode es ordered,
              b.number,
              ap (λ k. entry_number x k cs) a.next,
            ),
        (
          (
            n,
            rest.kept fs.next_inode_nr n (registered-found o parent (size c) fs (n, fs') b),
            b.number,
            b.above,
            IsEntry-Keeps c fs' (build_entries cs parent es' (register_inode fs' n)).1 n
                (λ k m e. rest.kept k m (register_inode-Keeps fs' n k m e))
                (build-IsEntry c o parent fs under h (omega arith)),
          ),
          subst (λ k. AreEntries (build_entries cs parent es' (register_inode fs' n)).1 cs k parent)
              a.next below,
        ),
      )
