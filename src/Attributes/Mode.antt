-- ===== src/Attributes/Mode.antt =====
-- The bits of st_mode, against the caller's rights.
use sigfs.Base.{ℕ, ◌≡◌, refl, Bool, ◌&&◌, some, arith, if◌then◌else◌}
use sigfs.Fuse.{Stat, reply_attr, s_ifdir, s_irusr, s_iwusr, s_ixusr}
use sigfs.FileSystem.{FileSystem, Inode, lookup_inode, is_directory, get_access}
use sigfs.Open.{has}
use sigfs.Attributes.{mode, setup_stat, do_getattr}

-- The bits for the owner: read, write, and search, which goes with read on a directory.
abbrev pub Shows : Inode → Bool → Bool → ℕ → Type 0
Shows n can_read can_write m =
    (has m s_irusr ≡ can_read)
    × (has m s_iwusr ≡ can_write)
    × (has m s_ixusr ≡ is_directory n && can_read)
    × (has m s_ifdir ≡ is_directory n)

mode-Shows : (n : Inode) (r w : Bool) → Shows n r w (mode n r w)
unfolding mode has
mode-Shows n r w = ground arith

abbrev pub stat_of : Inode → ℕ → ℕ → Bool → Bool → Stat
stat_of n uid gid can_read can_write = record {
  st_mode = mode n can_read can_write;
  st_nlink = if is_directory n then 2 else 1;
  st_ino = n.inode;
  st_uid = uid;
  st_gid = gid;
}

-- do_getattr for an entry that is found and for which get_access answers: the reply tells the
-- entry's number, the caller as its owner, a link count of 2 for a directory and 1 for a file, and
-- in the mode the caller's rights to read and write. Search goes with read alone: a caller who may
-- only write to a directory may not search it.
pub do_getattr_lem :
    (fs fs' : FileSystem) (ino uid gid : ℕ) (n : Inode) (can_read can_write : Bool)
    → lookup_inode fs ino ≡ some n
    → get_access fs n uid gid ≡ some (fs', can_read, can_write)
    → (st : Stat) × (do_getattr fs ino uid gid ≡ some (fs', reply_attr st))
      × (st.st_ino ≡ n.inode)
      × (st.st_uid ≡ uid)
      × (st.st_gid ≡ gid)
      × (st.st_nlink ≡ (if is_directory n then 2 else 1))
      × Shows n can_read can_write st.st_mode
unfolding do_getattr setup_stat
do_getattr_lem fs fs' ino uid gid n r w found acc = (
  stat_of n uid gid r w,
  rw (do_getattr, found, setup_stat, acc) refl,
  refl,
  refl,
  refl,
  refl,
  mode-Shows n r w,
)
