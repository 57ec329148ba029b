-- ===== src/Read/Unprotected.antt =====
-- What the payload pointers of a reply lead to. They point into the slots, and do_read replies after
-- dequeue_signal has given up the lock on the queue, so publishers may come first.
use sigfs.Queue.{Queue}
