-- ===== src/Requests.antt =====
-- The requests that the kernel makes of the tree, in any order: do_lookup, do_getattr and do_open.
-- do_readdir changes nothing.
pub mod Tree
pub mod Paths
use sigfs.Base.{ℕ, List, ◌≡◌, some}
use sigfs.Fuse.{Call}
use sigfs.FileSystem.{FileSystem}
use sigfs.Open.{OpenEnd, do_open}
use sigfs.Attributes.{do_lookup, do_getattr}

-- The file systems that requests lead to.
pub data Served (fs0 : FileSystem) : FileSystem → Type 0 where
  start : Served fs0 fs0
  lookup :
      {fs : FileSystem}
      → Served fs0 fs
      → (dir : ℕ) (name : List ℕ) (uid gid : ℕ) (fs' : FileSystem) (call : Call)
      → do_lookup fs dir name uid gid ≡ some (fs', call)
      → Served fs0 fs'
  getattr :
      {fs : FileSystem}
      → Served fs0 fs
      → (ino uid gid : ℕ) (fs' : FileSystem) (call : Call)
      → do_getattr fs ino uid gid ≡ some (fs', call)
      → Served fs0 fs'
  open_file :
      {fs : FileSystem}
      → Served fs0 fs
      → (ino uid gid flags sub_id : ℕ) (fs' : FileSystem) (end : OpenEnd)
      → do_open fs ino uid gid flags sub_id ≡ some (fs', end)
      → Served fs0 fs'
