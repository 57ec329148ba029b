-- ===== src/Open.antt =====
-- sigfs.cc, do_open and do_release: who may open a signal file, and the subscriber that an open
-- file has until it is released.
pub mod Checks
pub mod Visited
use sigfs.Base.{
  ℕ, Bool, true, false, not, ◌&&◌, List, [], ◌∷◌, Option, none, some, bit_and, ◌==◌, if◌then◌else◌,
}
use sigfs.Fuse.{Call, reply_err, reply_open, eacces, eisdir, o_rdonly, o_wronly, o_rdwr}
use sigfs.Queue.{Queue}
use sigfs.Channel
use sigfs.Channel.{Channel, PolledSubscriber}
use sigfs.FileSystem
use sigfs.FileSystem.{FileSystem, Inode, lookup_inode, store_inode, is_file, get_access}

-- fi->flags & flag
unfoldable pub has : ℕ → ℕ → Bool
has flags flag = not (bit_and flags flag == 0)

-- How an open ends: refused, or with a new subscriber of the file's queue, which is fi->fh.
pub data OpenEnd : Type 0 where
  refused : Call → OpenEnd
  opened : PolledSubscriber → Call → OpenEnd

-- Past the checks. The pointer still leads to the entry, so it is looked up again.
unfoldable pub subscribe : FileSystem → ℕ → ℕ → Option (FileSystem × OpenEnd)
unfolding FileSystem.queue Channel.fresh
subscribe fs ino sub_id = elim (lookup_inode fs ino) [
  | none ↦ none
  | some n ↦ elim (FileSystem.queue n) [
    | none ↦ none
    | some (n', q) ↦ some (store_inode fs n', opened (Channel.fresh q sub_id) (reply_open sub_id))
  ]
]

-- The checks of the flags, with the caller's rights.
unfoldable pub check_flags : FileSystem → ℕ → ℕ → ℕ → Bool → Bool → Option (FileSystem × OpenEnd)
unfolding has subscribe
check_flags fs ino flags sub_id can_read can_write =
    if has flags o_rdwr
    then some (fs, refused (reply_err eacces))
    else if has flags o_rdonly && not can_read
    then some (fs, refused (reply_err eacces))
    else if has flags o_wronly && not can_write
    then some (fs, refused (reply_err eacces))
    else subscribe fs ino sub_id

-- do_open; sub_id is the number of the new subscriber. `none` is abort() or exit().
unfoldable pub do_open : FileSystem → ℕ → ℕ → ℕ → ℕ → ℕ → Option (FileSystem × OpenEnd)
unfolding check_flags is_file get_access
do_open fs ino uid gid flags sub_id = elim (lookup_inode fs ino) [
  | none ↦ none
  | some n ↦
      if not (is_file n)
      then some (fs, refused (reply_err eisdir))
      else elim (get_access fs n uid gid) [
        | none ↦ none
        | some (fs', can_read, can_write) ↦ check_flags fs' ino flags sub_id can_read can_write
      ]
]

-- do_release: the subscriber is deleted, which takes it off the queue's notification list.
unfoldable pub do_release : Channel → ℕ → Channel
unfolding Channel.unsubscribe_read_ready_notifications Channel.remove
do_release ch id = record ch {
  queue = Channel.unsubscribe_read_ready_notifications ch.queue id;
  subscribers = Channel.remove id ch.subscribers;
}
