-- ===== src/Open/Checks.antt =====
-- Which opens are refused.
use sigfs.Base.{◌||◌, ◌&&◌, not, if◌then◌else◌, ℕ, ◌≡◌, Bool, true, false, some, arith}
use sigfs.Base.Bits.{bit_and-mask}
use sigfs.Fuse.{reply_err, eacces, o_rdonly, o_wronly, o_rdwr}
use sigfs.FileSystem.{FileSystem, Inode, lookup_inode, is_file, get_access}
use sigfs.Open.{has, refused, subscribe, check_flags, do_open}

-- O_RDONLY is 0, so no flags have it.
has_rdonly : (flags : ℕ) → has flags o_rdonly ≡ false
unfolding has
has_rdonly flags = ground (arith, bit_and-mask 0 flags)

-- Whether the flags are refused to a caller who may or may not write.
abbrev pub is_denied : ℕ → Bool → Bool
is_denied flags can_write = has flags o_rdwr || (has flags o_wronly && not can_write)

check_flags_lem :
    (fs : FileSystem) (ino flags sub_id : ℕ) (r w : Bool)
    → check_flags fs ino flags sub_id r w ≡ (
        if is_denied flags w
        then some (fs, refused (reply_err eacces))
        else subscribe fs ino sub_id)
unfolding check_flags
check_flags_lem fs ino flags sub_id r w = ground (arith, has_rdonly flags)

module _ (fs : FileSystem) (ino uid gid flags sub_id : ℕ) (n : Inode)
    (found : lookup_inode fs ino ≡ some n) where
  -- An open of a file for which get_access answers is refused with EACCES if the flags have O_RDWR,
  -- or have O_WRONLY and the caller may not write. Every other open goes on to a subscriber,
  -- whether or not the caller may read.
  pub do_open_lem :
      (fs' : FileSystem) (can_read can_write : Bool)
      → is_file n ≡ true
      → get_access fs n uid gid ≡ some (fs', can_read, can_write)
      → do_open fs ino uid gid flags sub_id ≡ (
          if is_denied flags can_write
          then some (fs', refused (reply_err eacces))
          else subscribe fs' ino sub_id)
  unfolding do_open
  do_open_lem fs' r w e acc = rw (do_open, found, e, acc) (check_flags_lem fs' ino flags sub_id r w)
