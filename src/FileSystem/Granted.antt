-- ===== src/FileSystem/Granted.antt =====
-- get_access: what a user and a group may do with an entry when it is first asked for, and after.
use sigfs.Base.{
  ℕ, ◌≡◌, ◌≢◌, ◌⊎◌, refl, ap, Bool, true, false, ◌||◌, Option, none, some, arith, ◌==◌,
  if◌then◌else◌,
}
use sigfs.Access.{Access, AccessControlMap, Rights, assign}
use sigfs.FileSystem.{
  FileSystem, Inode, root_inode, lookup_inode, store_inode, get_id_access, inherit, own_rights,
  with_entry, pull, pull_cascaded_access_rights, get_access,
}
use sigfs.FileSystem.Cascade.{Inherits}

abbrev pub uids : Inode → AccessControlMap
uids n = n.uid_access

abbrev pub gids : Inode → AccessControlMap
gids n = n.gid_access

abbrev pub reads : Rights → Bool
reads r = r.can_read

abbrev pub writes : Rights → Bool
writes r = r.can_write

module _ (fs : FileSystem) (n : Inode) (uid gid : ℕ) where
  -- The entry after a pull that granted `u` and `g`.
  abbrev pub pulled : Access → Access → Inode
  pulled u g = record n {
    uid_access = assign uid u (with_entry uid n.uid_access);
    gid_access = assign gid g (with_entry gid n.gid_access);
    access_is_cached = true;
  }

  pub pull_cascaded :
      (p : Inode) (u g : Access)
      → n.inode ≢ root_inode
      → n.access_is_cached ≡ false
      → lookup_inode fs n.parent_inode ≡ some p
      → inherit n.inode uids uid fs p (own_rights uid n.uid_access) ≡ some u
      → inherit n.inode gids gid fs p (own_rights gid n.gid_access) ≡ some g
      → pull_cascaded_access_rights fs n uid gid ≡ some (pulled u g)
  unfolding pull_cascaded_access_rights pull
  pull_cascaded p u g e f found run_u run_g = rw (guard, found, pull, run_u, run_g) refl
    where
      guard : ((n.inode == root_inode) || n.access_is_cached) ≡ false
      guard = ground arith

  -- The reference parameters of get_access, once the rights were pulled.
  pub answered :
      (n' : Inode)
      → pull_cascaded_access_rights fs n uid gid ≡ some n'
      → get_access fs n uid gid
        ≡ some (
          store_inode fs n',
          (get_id_access uids uid n').can_read || (get_id_access gids gid n').can_read,
          (get_id_access uids uid n').can_write || (get_id_access gids gid n').can_write,
        )
  unfolding get_access store_inode get_id_access
  answered n' e = rw (get_access, e) refl

  -- Who may use the entry: the user or the group, by its own entry of the map or by one above.
  abbrev pub Granted : (Rights → Bool) → Inode → Type 0
  Granted right p =
      (right (get_id_access uids uid n) ≡ true)
      ⊎ (right (get_id_access gids gid n) ≡ true)
      ⊎ Inherits fs uids uid right p
      ⊎ Inherits fs gids gid right p

  -- get_access for the root, or for an entry whose access is cached, answers from the entry's own
  -- map alone: for a user and a group that are not in it, nothing cascades.
  pub get_access_later :
      (n.inode ≡ root_inode) ⊎ (n.access_is_cached ≡ true)
      → get_access fs n uid gid
        ≡ some (
          store_inode fs n,
          (get_id_access uids uid n).can_read || (get_id_access gids gid n).can_read,
          (get_id_access uids uid n).can_write || (get_id_access gids gid n).can_write,
        )
  unfolding pull_cascaded_access_rights
  get_access_later h = answered n (ap (λ b. if b then some n else pull_from) (skips h))
    where
      pull_from : Option Inode
      pull_from = elim (lookup_inode fs n.parent_inode) [
        | none ↦ none
        | some parent ↦ pull fs n parent uid gid
      ]

      skips :
          (n.inode ≡ root_inode) ⊎ (n.access_is_cached ≡ true)
          → ((n.inode == root_inode) || n.access_is_cached) ≡ true
      skips e = ground (arith, e)
