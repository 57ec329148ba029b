-- ===== src/Client/Subscribe/Prints.antt =====
-- What the subscriber prints for the replies that it reads.
use sigfs.Base.{ℕ, ◌<◌, List, [], ◌∷◌, ◌++◌, length, All}
use sigfs.Read.Gathering.{Sent}
use sigfs.Client.Parse.{IsSent}
use sigfs.Client.Escape.Stale.{IsPlain}

abbrev pub joined : List (List Sent) → List Sent
joined [] = []
joined (r ∷ rs) = r ++ joined rs

abbrev pub IsShown : ℕ → List Sent → Type 0
IsShown n sent = All IsSent sent × All (λ s. All IsPlain s.1) sent × All (λ s. length s.1 < n) sent
