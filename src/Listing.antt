-- ===== src/Listing.antt =====
-- sigfs.cc, dirbuf_add, reply_buf_limited and do_readdir, and fs_dir.cc, for_each_entry: the listing
-- of a directory, as one buffer of which each call replies the part that it is asked for. How libfuse
-- writes an entry is not known here: fuse_add_direntry is two parameters, the size of an entry's
-- record, and its bytes.
pub mod Pages
use sigfs.Base.{
  ℕ, ◌+◌, ◌-◌, List, [], ◌∷◌, ◌++◌, Option, none, some, ltb, if◌then◌else◌, take, drop, min,
}
use sigfs.Fuse.{Call, reply_err, reply_buf, enotdir}
use sigfs.FileSystem.{FileSystem, Inode, directory, file, lookup_inode}

-- struct dirbuf
pub record Dirbuf : Type 0 where
  pub p : List ℕ
  pub size : ℕ

-- reply_buf_limited
unfoldable pub reply_buf_limited : List ℕ → ℕ → ℕ → ℕ → Call
reply_buf_limited buf bufsize off maxsize =
    if ltb off bufsize
    then reply_buf (take (min (bufsize - off) maxsize) (drop off buf))
    else reply_buf []

-- fuse_add_direntry: its result for a name, when it is given no buffer, and the bytes that it writes
-- for a name, an inode number and an offset.
module _ (direntry_size : List ℕ → ℕ) (direntry_bytes : List ℕ → ℕ → ℕ → List ℕ) where
  -- The record is written behind what the buffer held.
  unfoldable pub dirbuf_add : Dirbuf → List ℕ → ℕ → Dirbuf
  dirbuf_add b name ino =
      let size = b.size + direntry_size name in
      record { p = take b.size b.p ++ direntry_bytes name ino size; size = size }

  -- The callback of do_readdir, for every entry in turn.
  unfoldable pub for_each_entry : FileSystem → List (List ℕ × ℕ) → Dirbuf → Option Dirbuf
  unfolding lookup_inode dirbuf_add
  for_each_entry fs [] b = some b
  for_each_entry fs ((name, ino) ∷ es) b = elim (lookup_inode fs ino) [
    | none ↦ none
    | some n ↦ for_each_entry fs es (dirbuf_add b n.name n.inode)
  ]

  -- The names of the first two records are "." and "..".
  unfoldable pub do_readdir : FileSystem → ℕ → ℕ → ℕ → Option Call
  unfolding lookup_inode for_each_entry reply_buf_limited dirbuf_add
  do_readdir fs dir_inode size off = elim (lookup_inode fs dir_inode) [
    | none ↦ none
    | some dir ↦ elim dir.kind [
      | file _ _ ↦ some (reply_err enotdir)
      | directory es ↦
          let b0 : Dirbuf = record { p = []; size = 0 } in
          let b1 = dirbuf_add b0 (46 ∷ []) dir_inode in
          let b2 = dirbuf_add b1 (46 ∷ 46 ∷ []) dir.parent_inode in
          elim (for_each_entry fs es b2) [
            | none ↦ none
            | some b ↦ some (reply_buf_limited b.p b.size off size)
          ]
    ]
  ]
