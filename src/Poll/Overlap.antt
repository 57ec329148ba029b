-- ===== src/Poll/Overlap.antt =====
-- Polls of one open file that overlap with each other or with a publication: poll_handle and
-- poll_events look at the subscriber and change it without a lock, so `remember` may work on the
-- subscriber as it was before another thread changed it.
use sigfs.Queue
use sigfs.Channel
use sigfs.Channel.{Channel}
