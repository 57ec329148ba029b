-- ===== src/Queue/Runs.antt =====
-- A run of publishers on one queue: each payload is given with its size to queue_signal in turn.
use sigfs.Base.{
  ℕ, ◌+◌, ◌^◌, ◌<◌, ◌≡◌, sym, subst, List, [], ◌∷◌, ◌++◌, some, arith, length, take,
  take-append_length, All, append_assoc, append-nil, length-append,
}
use sigfs.Queue.{Queue, init, store_signal}
use sigfs.Queue.History.{Retains}
use sigfs.Queue.Create.{init-Retains}
use sigfs.Queue.Publish.{store_signal-Retains}

unfoldable pub publish_all : Queue → List (List ℕ) → Queue
publish_all q [] = q
publish_all q (p ∷ ps) = publish_all (store_signal q p (length p)) ps

-- A size that a sigfs_payload_t can tell.
abbrev pub IsSized : List ℕ → Type 0
IsSized p = length p < 2 ^ 32

publish-Retains :
    (log : List (List ℕ)) (q : Queue) (p : List ℕ)
    → Retains log q
    → IsSized p
    → length log + 2 < 2 ^ 32
    → Retains (log ++ (p ∷ [])) (store_signal q p (length p))
publish-Retains log q p h sized few =
    subst (λ t. Retains (log ++ (t ∷ [])) (store_signal q p (length p))) whole
      (store_signal-Retains log q p (length p) h sized (omega arith) few)
  where
    whole : take (length p) p ≡ p
    whole = subst (λ t. take (length p) t ≡ p) (append-nil p) (take-append_length p [])

pub publish_all-Retains_from :
    (log ps : List (List ℕ)) (q : Queue)
    → Retains log q
    → All IsSized ps
    → length log + length ps + 1 < 2 ^ 32
    → Retains (log ++ ps) (publish_all q ps)
unfolding publish_all
publish_all-Retains_from log [] q h sized few = subst (λ l. Retains l q) (sym (append-nil log)) h
publish_all-Retains_from log (p ∷ ps) q h sized few =
    subst (λ l. Retains l (publish_all (store_signal q p (length p)) ps))
      (append_assoc log (p ∷ []) ps)
      (publish_all-Retains_from (log ++ (p ∷ [])) ps (store_signal q p (length p))
        (publish-Retains log q p h sized.0 (omega arith)) sized.1
        (omega (arith, length-append log (p ∷ []))))

-- A queue that was created with fewer than 2^32 slots, after any run of fewer than 2^32 - 1
-- publications of sizes below 2^32, retains exactly their payloads, in order.
pub publish_all-Retains :
    (n : ℕ) {q : Queue} (ps : List (List ℕ))
    → n < 2 ^ 32
    → init n ≡ some q
    → All IsSized ps
    → length ps + 1 < 2 ^ 32
    → Retains ps (publish_all q ps)
publish_all-Retains n {q} ps small made sized few =
    publish_all-Retains_from [] ps q (init-Retains n small made).0 sized (omega arith)
