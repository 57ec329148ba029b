-- ===== src/Access/Maps.antt =====
-- Finding entries of an access control map.
use sigfs.Base.{ℕ, ◌≡◌, [], ◌∷◌, none, some, arith}
use sigfs.Access.{Access, AccessControlMap, find, insert, assign}

pub find-insert :
    (id : ℕ) (a : Access) (m : AccessControlMap)
    → find id m ≡ none
    → find id (insert id a m) ≡ some a
unfolding find insert
find-insert id a [] e = ground arith
find-insert id a ((k, b) ∷ m) e = ground (arith, find-insert id a m)

pub find-assign :
    (id : ℕ) (a b : Access) (m : AccessControlMap)
    → find id m ≡ some b
    → find id (assign id a m) ≡ some a
unfolding find assign
find-assign id a b [] e = cc e
find-assign id a b ((k, c) ∷ m) e = ground (arith, find-assign id a b m)
