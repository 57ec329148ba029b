-- ===== src/Subscriber.antt =====
-- subscriber.hh: what a Subscriber keeps for itself. Its queue is the one that the operations are
-- given, and its virtual notifications are those of the file system driver's PolledSubscriber.
use sigfs.Base.{ℕ, Bool, false}

pub record Subscriber : Type 0 where
  -- The id of the next signal to read.
  pub sig_id : ℕ
  pub sub_id : ℕ
  pub interrupted : Bool

unfoldable pub set_sig_id : Subscriber → ℕ → Subscriber
set_sig_id sub id = record sub { sig_id = id }

unfoldable pub set_interrupted : Subscriber → Bool → Subscriber
set_interrupted sub interrupted = record sub { interrupted = interrupted }

-- The constructor's members, before initialize_subscriber has placed it.
unfoldable pub fresh : ℕ → Subscriber
fresh sub_id = record { sig_id = 0; sub_id = sub_id; interrupted = false }
