-- ===== src/FileSystem/Again.antt =====
-- get_access, asked a second time for the same entry.
use sigfs.Base.{
  ℕ, ◌<◌, ◌≡◌, ◌≢◌, ◌∙◌, inr, refl, ap, ap₂, Bool, ◌||◌, true, List, [], ◌∷◌, Option, none, some,
  arith, false,
}
use sigfs.Access
use sigfs.Access.{Access, AccessControlMap, Rights, assign, insert, find, no_rights}
use sigfs.FileSystem.{
  FileSystem, Inode, root_inode, find_inode, replace_inode, lookup_inode, store_inode,
  get_id_access, with_entry, own_rights, get_access,
}
use sigfs.FileSystem.Cascade.{IsTree, inherit_total}
use sigfs.FileSystem.Granted.{
  uids, gids, reads, writes, pulled, pull_cascaded, answered, get_access_later,
}

find_inode-replace_inode :
    (t n : Inode) (ns : List Inode)
    → find_inode t.inode ns ≡ some n
    → find_inode t.inode (replace_inode t ns) ≡ some t
find_inode-replace_inode t n [] e = cc e
find_inode-replace_inode t n (m ∷ ns) e = ground (arith, e, find_inode-replace_inode t n ns)

-- The entry that was stored is the one that is found.
lookup_inode-store_inode :
    (fs : FileSystem) (t n : Inode)
    → lookup_inode fs t.inode ≡ some n
    → lookup_inode (store_inode fs t) t.inode ≡ some t
unfolding lookup_inode store_inode
lookup_inode-store_inode fs t n e = find_inode-replace_inode t n fs.inode_entries e

replace_inode_found :
    (t : Inode) (ns : List Inode) → find_inode t.inode ns ≡ some t → replace_inode t ns ≡ ns
replace_inode_found t [] e = refl
replace_inode_found t (m ∷ ns) e = ground (arith, e, replace_inode_found t ns)

store_inode_found :
    (fs : FileSystem) (t : Inode) → lookup_inode fs t.inode ≡ some t → store_inode fs t ≡ fs
unfolding lookup_inode store_inode
store_inode_found fs t e =
    ap (λ ns. record fs { inode_entries = ns }) (replace_inode_found t fs.inode_entries e)

find-insert_other :
    (id other : ℕ) (a : Access) (m : AccessControlMap)
    → other ≢ id
    → find other (insert id a m) ≡ find other m
unfolding find insert
find-insert_other id other a [] apart = ground (arith, apart)
find-insert_other id other a ((k, b) ∷ m) apart =
    ground (arith, apart, find-insert_other id other a m apart)

find-assign_other :
    (id other : ℕ) (a : Access) (m : AccessControlMap)
    → other ≢ id
    → find other (assign id a m) ≡ find other m
unfolding find assign
find-assign_other id other a [] apart = refl
find-assign_other id other a ((k, b) ∷ m) apart =
    ground (arith, apart, find-assign_other id other a m apart)

find-with_entry_other :
    (id other : ℕ) (m : AccessControlMap) → other ≢ id → find other (with_entry id m) ≡ find other m
unfolding with_entry
find-with_entry_other id other m apart =
    ground (arith, find-insert_other id other Access.init m apart)

-- What is pulled for one id leaves the others alone.
get_access_other :
    (id other : ℕ) (a : Access) (m : AccessControlMap)
    → other ≢ id
    → Access.get_access (assign id a (with_entry id m)) other no_rights
      ≡ Access.get_access m other no_rights
unfolding Access.get_access
get_access_other id other a m apart =
    ap rights_found (
      find-assign_other id other a (with_entry id m) apart ∙ find-with_entry_other id other m apart)
  where
    rights_found : Option Access → Rights
    rights_found o = elim o [
      | none ↦ no_rights
      | some b ↦ record {
        can_read = b.read_access;
        can_write = b.write_access;
        is_cascaded = b.cascade_flag;
        is_reset = b.reset_flag;
      }
    ]

-- An entry whose access is cached answers from its own map, and stays as it is.
pub get_access_cached :
    (fs : FileSystem) (n : Inode) (uid gid : ℕ)
    → lookup_inode fs n.inode ≡ some n
    → n.access_is_cached ≡ true
    → get_access fs n uid gid
      ≡ some (
        fs,
        reads (get_id_access uids uid n) || reads (get_id_access gids gid n),
        writes (get_id_access uids uid n) || writes (get_id_access gids gid n),
      )
get_access_cached fs n uid gid there cached =
    get_access_later fs n uid gid (inr cached)
    ∙ ap
        (λ f. some (
          f,
          reads (get_id_access uids uid n) || reads (get_id_access gids gid n),
          writes (get_id_access uids uid n) || writes (get_id_access gids gid n),
        ))
        (store_inode_found fs n there)

-- The first call stores the entry with what was pulled.
pub get_access-pulled :
    (fs : FileSystem) (n : Inode) (uid gid : ℕ) (p : Inode)
    → IsTree fs
    → lookup_inode fs n.inode ≡ some n
    → lookup_inode fs n.parent_inode ≡ some p
    → p.inode < n.inode
    → n.inode ≢ root_inode
    → n.access_is_cached ≡ false
    → (u g : Access) × (let n' = pulled fs n uid gid u g in
        (get_access fs n uid gid
          ≡ some (
            store_inode fs n',
            reads (get_id_access uids uid n') || reads (get_id_access gids gid n'),
            writes (get_id_access uids uid n') || writes (get_id_access gids gid n'),
          ))
        × (lookup_inode (store_inode fs n') n.inode ≡ some n'))
get_access-pulled fs n uid gid p tree live found less below fresh =
    let (u, run_u) =
      inherit_total fs uids uid tree n.inode n.parent_inode p (own_rights uid n.uid_access) found
        less in
    let (g, run_g) =
      inherit_total fs gids gid tree n.inode n.parent_inode p (own_rights gid n.gid_access) found
        less in
    let n' = pulled fs n uid gid u g in
    (
      u,
      g,
      (
        answered fs n uid gid n' (pull_cascaded fs n uid gid p u g below fresh found run_u run_g),
        lookup_inode-store_inode fs n' n live,
      ),
    )

-- After a get_access for an entry below the root that is found under its number in a tree, whose
-- access was not cached and whose parent is `p`, with a smaller number: a second one by the same
-- user and group gives the same answer and changes nothing, and one by another user and another
-- group is answered from the entry's own map alone, as it was before the first, so that nothing
-- cascades to them.
pub get_access_again :
    (fs : FileSystem) (n : Inode) (uid gid uid' gid' : ℕ) (p : Inode)
    → IsTree fs
    → lookup_inode fs n.inode ≡ some n
    → lookup_inode fs n.parent_inode ≡ some p
    → p.inode < n.inode
    → n.inode ≢ root_inode
    → n.access_is_cached ≡ false
    → uid' ≢ uid
    → gid' ≢ gid
    → (fs' : FileSystem) × (n' : Inode) × (can_read can_write : Bool) × (get_access fs n uid gid
        ≡ some (fs', can_read, can_write))
      × (lookup_inode fs' n.inode ≡ some n')
      × (get_access fs' n' uid gid ≡ some (fs', can_read, can_write))
      × (get_access fs' n' uid' gid'
          ≡ some (
            fs',
            reads (get_id_access uids uid' n) || reads (get_id_access gids gid' n),
            writes (get_id_access uids uid' n) || writes (get_id_access gids gid' n),
          ))
unfolding get_id_access
get_access_again fs n uid gid uid' gid' p tree live found less below fresh apart_u apart_g =
    let (u, g, (run, there)) = get_access-pulled fs n uid gid p tree live found less below fresh in
    let n' = pulled fs n uid gid u g in
    let fs' = store_inode fs n' in
    (
      fs',
      n',
      _,
      _,
      run,
      there,
      get_access_cached fs' n' uid gid there refl,
      get_access_cached fs' n' uid' gid' there refl
          ∙ ap₂ (λ (a b : Rights). some (fs', reads a || reads b, writes a || writes b))
              (get_access_other uid uid' u n.uid_access apart_u)
              (get_access_other gid gid' g n.gid_access apart_g),
    )
