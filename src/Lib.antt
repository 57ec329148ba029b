-- ===== src/Lib.antt =====
-- sigfs is a file system in user space (FUSE) for publishing signals: a write(2) to a file
-- publishes signals, and every program that has the file open for reading gets each of them by
-- read(2), with its id and the number of those that it lost. This library models the driver's own
-- logic.
--
-- The parts of the program, and the files that model them:
--
-- * sigfs_common.h, the two packed records of the interface and their sizes: Common. Wire has
--   their bytes, in the little-endian order of the platforms that sigfs is built for.
-- * queue.hh, queue.cc and queue_impl.hh, class Queue: a ring of slots with a head and a tail.
--   Signal models a slot (Queue::Signal), Queue the constructor and the operations of publishers
--   and of the poll handler (queue_signal, signal_available, interrupt_dequeue,
--   initialize_subscriber), and Queue.Dequeue the reader's side (dequeue_signal with its
--   callback). Queue.History has the abstract view that the others are measured by: the list of
--   all payloads that were ever published.
-- * subscriber.hh, class Subscriber: Subscriber, with the reader's position.
-- * sigfs.cc, class PolledSubscriber: Channel, which joins the queue of one file with the
--   subscribers of those who have opened it, and the notifications of queue_signal.
-- * fs.hh, fs_access.cc, fs_inode.cc, fs_dir.cc, fs_file.cc and fs_filesys.cc, class FileSystem:
--   Access has the access profiles and maps, FileSystem the tree of entries with get_access and
--   pull_cascaded_access_rights, FileSystem.Build the constructors, from a configuration, and
--   FileSystem.Saved to_config, which writes one.
-- * sigfs.cc, the handlers of FUSE requests: Open (do_open, do_release), Read (do_read and its
--   callback, read_interrupt), Write (do_write), Poll (do_poll), Attributes (setup_stat,
--   do_lookup, do_getattr) and Listing (do_readdir).
-- * sigfs.cc, main: Driver, with the argument vector for libfuse, the configuration, and the calls
--   of libfuse that start and end the session.
-- * example/sigfs_subscribe.cc and example/sigfs_publish.cc: Client, the loop that reads records
--   from the bytes of a reply, and the buffer that is written. Client.Escape has escape_string and
--   hex_string, Client.Subscribe and Client.Publish the two main functions, with their options,
--   their loops over read(2) and write(2), and their exit codes.
-- * Run puts the handlers of a file together: the runs of one file, from its queue's creation on,
--   with what a subscriber reads, and Run.Handles and Run.Leak with the poll handles that change
--   hands. Requests does the same for the requests that use the tree: lookups, getattrs and opens,
--   in any order.
--
-- How they interact: do_open asks FileSystem for the caller's rights and the file's queue, and
-- makes a subscriber; do_write publishes to that queue, which notifies the subscribers on its
-- list; do_poll puts a subscriber there; do_read passes dequeue_signal a callback that gathers
-- signals for one reply.
--
-- How the code is translated. State is passed explicitly, and a handler returns the calls of
-- libfuse that it makes, in order (Fuse). A value of a machine integer is a natural number,
-- reduced where the code stores it: `to_u32` and `to_u64`. Pointers are positions: a subscriber's
-- address is its number, an entry of the file system is known by its inode number, and a change
-- through a pointer is a change at that number. `none` is abort(), exit(), or a case that the
-- comment at the definition names.
--
-- What may overlap. The driver serves requests on several threads unless it is told otherwise, and
-- each operation of a queue takes the queue's lock. The model's steps are whole handlers: a run is
-- a sequence of handlers, each of which ends before the next begins, with two exceptions. A read
-- that waits changes nothing, and is answered by a later step; and a signal may be published
-- between the two halves of a poll, which take the lock separately. What is stated of runs is
-- stated of these alone, and waiting on the condition variable is the result `waits`. The tree of
-- entries has no lock in the code, and Requests, too, is about sequences of whole handlers. Two
-- parts of the handlers are outside every lock. do_read replies with pointers into the slots after
-- it has given up the lock, while an Iovec of the model has the bytes that they led to when the
-- signal was delivered: Read.Unprotected is about a publication before the reply. poll_handle and
-- poll_events read and write the subscriber without a lock, and `remember` is both as one step:
-- Poll.Overlap is about a poll that works on a subscriber that has changed. A write takes the lock
-- for each record, and a write of several records, between which others get the lock, changes the
-- channel as writes of one record each do.
--
-- Bounds and fuel. dequeue_signal's loop has one round for each slot, which is more than the
-- signals that a ring retains; the loop of do_write has one round for each byte and one more; the
-- climb to the root has as many rounds as the entry's inode number, since parents have smaller
-- ones; the subscriber's loop has one round for each byte of a reply, and a record has 16 or more;
-- to_config may go as deep as the next inode number. Signal ids are 64 bits wide in readers and in
-- next_sig_id_, but 32 bits in the slots, since Signal uses the id_t of <sys/types.h>: hence the
-- bound of 2^32 on the number of signals in most statements.
--
-- Not modelled: log.cc and log.h, which are acquired from another repository, and all other
-- logging and usage texts, with do_init and do_destroy, which only log; the times in struct stat
-- and the pauses of the publisher; the JSON library (a configuration is a data type of what the
-- constructors read of it, and what to_config writes is another); libfuse itself (its calls are
-- data, its results arguments, and how it writes a directory entry is a parameter); getopt_long,
-- sprintf with a format of the user, and the results of open(2), read(2) and write(2) in the
-- programs, which are arguments; the operations that the table of handlers leaves out; the members
-- active_subscribers_ and parent_entry_, which no behaviour depends on; the order in which a
-- std::set visits pointers; and the tests and the Python examples. A char is signed, as on x86,
-- and its text a byte. The counters of signals in the programs do not overflow.
pub mod Base
pub mod Common
pub mod Subscriber
pub mod Signal
pub mod Queue
pub mod Access
pub mod FileSystem
pub mod Fuse
pub mod Channel
pub mod Wire
pub mod Write
pub mod Read
pub mod Open
pub mod Poll
pub mod Attributes
pub mod Listing
pub mod Client
pub mod Run
pub mod Tests
pub mod Driver
pub mod Requests
