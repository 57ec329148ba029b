-- ===== src/Attributes.antt =====
-- sigfs.cc, setup_stat, do_lookup and do_getattr: how the kernel is told of an entry. The caller is
-- always shown as the owner, and the mode holds the caller's rights.
pub mod Mode
use sigfs.Base.{ℕ, Bool, true, false, List, [], ◌∷◌, Option, none, some, bit_or, if◌then◌else◌}
use sigfs.Fuse.{
  Stat, Call, reply_err, reply_entry, reply_attr, enoent, s_ifdir, s_ifreg, s_irusr, s_iwusr,
  s_ixusr,
}
use sigfs.FileSystem.{
  FileSystem, Inode, directory, file, lookup_inode, is_directory, get_access, find_entry,
}

-- `if (right) st_mode |= bits;`
abbrev pub add_bits : ℕ → Bool → ℕ → ℕ
add_bits bits right m = if right then bit_or m bits else m

-- st_mode, of a directory and of a file
unfoldable pub mode : Inode → Bool → Bool → ℕ
unfolding is_directory
mode n can_read can_write =
    if is_directory n
    then add_bits s_iwusr can_write (add_bits (bit_or s_irusr s_ixusr) can_read s_ifdir)
    else add_bits s_iwusr can_write (add_bits s_irusr can_read s_ifreg)

unfoldable pub setup_stat : FileSystem → Inode → ℕ → ℕ → Option (FileSystem × Stat)
unfolding mode get_access
setup_stat fs n uid gid = elim (get_access fs n uid gid) [
  | none ↦ none
  | some (fs', can_read, can_write) ↦ some (
    fs',
    record {
      st_mode = mode n can_read can_write;
      st_nlink = if is_directory n then 2 else 1;
      st_ino = n.inode;
      st_uid = uid;
      st_gid = gid;
    },
  )
]

-- The entry that was found in a directory.
unfoldable pub reply_found : FileSystem → Option ℕ → ℕ → ℕ → Option (FileSystem × Call)
unfolding setup_stat lookup_inode
reply_found fs none uid gid = some (fs, reply_err enoent)
reply_found fs (some ino) uid gid = elim (lookup_inode fs ino) [
  | none ↦ none
  | some n ↦ elim (setup_stat fs n uid gid) [
    | none ↦ none
    | some (fs', st) ↦ some (fs', reply_entry n.inode st)
  ]
]

-- `none` is abort(): the directory does not exist, or is none.
unfoldable pub do_lookup : FileSystem → ℕ → List ℕ → ℕ → ℕ → Option (FileSystem × Call)
unfolding reply_found find_entry
do_lookup fs dir_ino name uid gid = elim (lookup_inode fs dir_ino) [
  | none ↦ none
  | some dir ↦ elim dir.kind [
    | file _ _ ↦ none
    | directory entries ↦ reply_found fs (find_entry name entries) uid gid
  ]
]

unfoldable pub do_getattr : FileSystem → ℕ → ℕ → ℕ → Option (FileSystem × Call)
unfolding setup_stat lookup_inode
do_getattr fs ino uid gid = elim (lookup_inode fs ino) [
  | none ↦ none
  | some n ↦ elim (setup_stat fs n uid gid) [
    | none ↦ none
    | some (fs', st) ↦ some (fs', reply_attr st)
  ]
]
