-- ===== src/Run/Leak.antt =====
-- PolledSubscriber's destructor, which leaves the poll handle as it is.
use sigfs.Base.{ℕ, ◌∙◌, ◌+◌, ◌^◌, ◌≤◌, ◌<◌, ◌≡◌, ap, List, [], ◌∷◌, some, arith, length}
use sigfs.Channel.{PolledSubscriber, Channel, find, remove}
use sigfs.Open.{do_release}
use sigfs.Poll.Handles.{held, stored, stored-remove, destroyed}
use sigfs.Read.Gathering.{Sent}
use sigfs.Run.{Run, release}
use sigfs.Run.Handles.{given, made, Run-handles}

-- Whoever leaves takes the handle along.
stored-removed :
    (h id : ℕ) (s : PolledSubscriber) (ss : List PolledSubscriber)
    → find id ss ≡ some s
    → stored h (remove id ss) + held h s.poll_handle ≤ stored h ss
unfolding find remove
stored-removed h id s [] e = cc e
stored-removed h id s (t ∷ ss) e =
    ground (arith, e, stored-removed h id s ss, stored-remove h id ss)

held_self : (h : ℕ) → held h (some h) ≡ 1
held_self h = ground arith

-- In a run of a file with fewer than 2^32 slots, whose handlers do not overlap, to which fewer than
-- 2^32 - 1 signals were published, in which libfuse gave a poll handle once: when a live subscriber
-- that holds the handle is closed, the handlers have not destroyed it, and no subscriber holds it
-- any more.
pub release_leaks :
    (n k h id : ℕ) {log : List (List ℕ)} {ch : Channel} {got : List Sent} (sub : PolledSubscriber)
    → n < 2 ^ 32
    → (r : Run n k log ch got) → length log + 1 < 2 ^ 32
    → given h r ≡ 1
    → find id ch.subscribers ≡ some sub
    → sub.poll_handle ≡ some h
    → (destroyed h (made (release r id)) ≡ 0) × (stored h (do_release ch id).subscribers ≡ 0)
unfolding made do_release
release_leaks n k h id {ch = ch} sub small r few once live keeps =
    let bound = Run-handles n k h small r few in
    let gone = stored-removed h id sub ch.subscribers live in
    let mine : held h sub.poll_handle ≡ 1 = ap (held h) keeps ∙ held_self h in
    (omega (arith, bound, gone, mine, once), omega (arith, bound, gone, mine, once))
