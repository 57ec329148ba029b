-- ===== src/Fuse.antt =====
-- The calls of libfuse that the handlers of sigfs.cc make. libfuse itself is not modelled: a
-- handler returns its calls, in order, with the arguments that decide what the caller sees.
use sigfs.Base.{ℕ, List, Option}

-- <errno.h>, as far as the handlers use it
pub data Errno : Type 0 where
  enoent enotdir eisdir eacces einval eintr : Errno

-- struct stat, as far as setup_stat fills it. The times are not modelled.
pub record Stat : Type 0 where
  pub st_mode : ℕ
  pub st_nlink : ℕ
  pub st_ino : ℕ
  pub st_uid : ℕ
  pub st_gid : ℕ

-- A poll handle, and an opened file, are known by a number.
pub data Call : Type 0 where
  reply_err : Errno → Call
  -- fuse_reply_write: the number of bytes taken
  reply_write : ℕ → Call
  -- fuse_reply_iov: the bytes of all entries
  reply_iov : List ℕ → Call
  -- fuse_reply_buf
  reply_buf : List ℕ → Call
  reply_poll : ℕ → Call
  -- fuse_reply_open, with fi->fh
  reply_open : ℕ → Call
  -- fuse_reply_entry, with the inode number, and fuse_reply_attr
  reply_entry : ℕ → Stat → Call
  reply_attr : Stat → Call
  -- fuse_req_interrupt_func: the subscriber to interrupt, or none to clear it
  req_interrupt_func : Option ℕ → Call
  lowlevel_notify_poll : ℕ → Call
  pollhandle_destroy : ℕ → Call

-- POLLIN of <poll.h>
abbrev pub pollin : ℕ
pollin = 1

-- The bits of st_mode of <sys/stat.h>, and the flags of open(2)
abbrev pub s_ifdir : ℕ
s_ifdir = 16384

abbrev pub s_ifreg : ℕ
s_ifreg = 32768

abbrev pub s_irusr : ℕ
s_irusr = 256

abbrev pub s_iwusr : ℕ
s_iwusr = 128

abbrev pub s_ixusr : ℕ
s_ixusr = 64

abbrev pub o_rdonly : ℕ
o_rdonly = 0

abbrev pub o_wronly : ℕ
o_wronly = 1

abbrev pub o_rdwr : ℕ
o_rdwr = 2
