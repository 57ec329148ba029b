-- ===== src/FileSystem/Kept.antt =====
-- That get_access always returns, and what it leaves of the tree.
use sigfs.Base.{ℕ, ◌≡◌, ◌≢◌, inl, inr, Bool, true, false, ◌||◌, some, arith, ◌==◌, Bool-cases}
use sigfs.FileSystem.{
  FileSystem, Inode, root_inode, lookup_inode, store_inode, own_rights, get_access,
  pull_cascaded_access_rights, get_id_access,
}
use sigfs.FileSystem.Shape.{SameTree-IsTree, get_access-SameTree}
use sigfs.FileSystem.Cascade.{IsTree, inherit_total}
use sigfs.FileSystem.Granted.{uids, gids, pulled, pull_cascaded, answered}

-- The guard of pull_cascaded_access_rights.
skipped :
    (fs : FileSystem) (n : Inode) (uid gid : ℕ)
    → (n.inode == root_inode) || n.access_is_cached ≡ true
    → pull_cascaded_access_rights fs n uid gid ≡ some n
unfolding pull_cascaded_access_rights
skipped fs n uid gid e = rw e

-- What a pull changes of an entry that is found in a tree.
pulls :
    (fs : FileSystem) (n : Inode) (uid gid : ℕ)
    → IsTree fs
    → lookup_inode fs n.inode ≡ some n
    → (n' : Inode) × (pull_cascaded_access_rights fs n uid gid ≡ some n')
pulls fs n uid gid tree found = elim (Bool-cases ((n.inode == root_inode) || n.access_is_cached)) [
  | inl skip ↦ (n, skipped fs n uid gid skip)
  | inr on ↦
      let (below_root, fresh) : (n.inode ≢ root_inode) × (n.access_is_cached ≡ false) =
        (ground arith, ground arith) in
      let (p, up, less) = tree.parents n.inode n found below_root in
      let (u, run_u) =
        inherit_total fs uids uid tree n.inode n.parent_inode p (own_rights uid n.uid_access) up
          less in
      let (g, run_g) =
        inherit_total fs gids gid tree n.inode n.parent_inode p (own_rights gid n.gid_access) up
          less in
      (pulled fs n uid gid u g, pull_cascaded fs n uid gid p u g below_root fresh up run_u run_g)
]

-- For an entry that is found under its number in a tree: get_access returns for every user and
-- group, at the first call and at every later one, without an abort and without running out of
-- fuel, and it leaves a tree.
pub get_access_total :
    (fs : FileSystem) (n : Inode) (uid gid : ℕ)
    → IsTree fs
    → lookup_inode fs n.inode ≡ some n
    → (fs' : FileSystem) × (can_read can_write : Bool) × (get_access fs n uid gid
        ≡ some (fs', can_read, can_write))
      × IsTree fs'
get_access_total fs n uid gid tree found =
    let (n', run) = pulls fs n uid gid tree found in
    (
      store_inode fs n',
      (get_id_access uids uid n').can_read || (get_id_access gids gid n').can_read,
      (get_id_access uids uid n').can_write || (get_id_access gids gid n').can_write,
      answered fs n uid gid n' run,
      SameTree-IsTree fs (store_inode fs n')
          (get_access-SameTree fs (store_inode fs n') n uid gid _ _ found
            (answered fs n uid gid n' run))
          tree,
    )
