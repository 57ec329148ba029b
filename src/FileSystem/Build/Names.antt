-- ===== src/FileSystem/Build/Names.antt =====
-- The order of the names in a directory's map, and what is found after an insertion.
use sigfs.Base.{ℕ, ◌≡◌, refl, true, false, List, [], ◌∷◌, Option, none, some, arith, if◌then◌else◌}
use sigfs.FileSystem.{same_name, find_entry}
use sigfs.FileSystem.Build.{insert_entry, name_before}

same_name_refl : (x : List ℕ) → same_name x x ≡ true
same_name_refl [] = refl
same_name_refl (a ∷ x) = ground (arith, same_name_refl x)

same_name-eq : (x y : List ℕ) → same_name x y ≡ true → x ≡ y
same_name-eq [] [] e = refl
same_name-eq [] (b ∷ y) e = cc e
same_name-eq (a ∷ x) [] e = cc e
same_name-eq (a ∷ x) (b ∷ y) e = ground (arith, same_name-eq x y)

name_before_irrefl : (x : List ℕ) → name_before x x ≡ false
name_before_irrefl [] = refl
name_before_irrefl (a ∷ x) = ground (arith, name_before_irrefl x)

name_before_trans :
    (x y z : List ℕ) → name_before x y ≡ true → name_before y z ≡ true → name_before x z ≡ true
name_before_trans [] [] z e f = cc
name_before_trans [] (b ∷ y) [] e f = cc f
name_before_trans [] (b ∷ y) (c ∷ z) e f = refl
name_before_trans (a ∷ x) [] z e f = cc e
name_before_trans (a ∷ x) (b ∷ y) [] e f = cc f
name_before_trans (a ∷ x) (b ∷ y) (c ∷ z) e f = ground (arith, name_before_trans x y z)

name_before_total :
    (x y : List ℕ) → same_name x y ≡ false → name_before x y ≡ false → name_before y x ≡ true
name_before_total [] [] e f = cc e
name_before_total [] (b ∷ y) e f = cc f
name_before_total (a ∷ x) [] e f = refl
name_before_total (a ∷ x) (b ∷ y) e f = ground (arith, name_before_total x y)

-- A name stands before every name of the map.
abbrev pub IsBefore : List ℕ → List (List ℕ × ℕ) → Type 0
IsBefore x [] = Unit {0}
IsBefore x ((k, j) ∷ es) = (name_before x k ≡ true) × IsBefore x es

abbrev pub IsOrdered : List (List ℕ × ℕ) → Type 0
IsOrdered [] = Unit {0}
IsOrdered ((k, j) ∷ es) = IsBefore k es × IsOrdered es

IsBefore-trans :
    (x y : List ℕ) (es : List (List ℕ × ℕ)) → name_before x y ≡ true → IsBefore y es → IsBefore x es
IsBefore-trans x y [] e h = tt
IsBefore-trans x y ((k, j) ∷ es) e h = (name_before_trans x y k e h.0, IsBefore-trans x y es e h.1)

IsBefore-insert_entry :
    (x name : List ℕ) (ino : ℕ) (es : List (List ℕ × ℕ))
    → name_before x name ≡ true
    → IsBefore x es
    → IsBefore x (insert_entry name ino es)
unfolding insert_entry
IsBefore-insert_entry x name ino [] e h = (e, tt)
IsBefore-insert_entry x name ino ((k, j) ∷ es) e h =
    ground (arith, h, IsBefore-insert_entry x name ino es e h.1)

pub insert_entry-IsOrdered :
    (name : List ℕ) (ino : ℕ) (es : List (List ℕ × ℕ))
    → IsOrdered es
    → IsOrdered (insert_entry name ino es)
unfolding insert_entry
insert_entry-IsOrdered name ino [] h = (tt, tt)
insert_entry-IsOrdered name ino ((k, j) ∷ es) h = ground (
  arith,
  h,
  insert_entry-IsOrdered name ino es h.1,
  name_before_total name k,
  IsBefore-trans name k es,
  IsBefore-insert_entry k name ino es,
)

find_entry_before : (x : List ℕ) (es : List (List ℕ × ℕ)) → IsBefore x es → find_entry x es ≡ none
unfolding find_entry
find_entry_before x [] h = refl
find_entry_before x ((k, j) ∷ es) h =
    ground (arith, find_entry_before x es h.1, h, same_name-eq x k, name_before_irrefl x)

-- The entry that was there, or else the one that was inserted.
abbrev pub or_else : Option ℕ → Option ℕ → Option ℕ
or_else (some a) o = some a
or_else none o = o

pub find_entry-insert_entry :
    (x name : List ℕ) (ino : ℕ) (es : List (List ℕ × ℕ))
    → IsOrdered es
    → find_entry x (insert_entry name ino es)
      ≡ or_else (find_entry x es) (if same_name x name then some ino else none)
unfolding find_entry insert_entry
find_entry-insert_entry x name ino [] h = ground arith
find_entry-insert_entry x name ino ((k, j) ∷ es) h = ground (
  arith,
  find_entry-insert_entry x name ino es h.1,
  same_name-eq x name,
  same_name-eq name k,
  same_name-eq x k,
  same_name_refl x,
  find_entry_before x es,
  IsBefore-trans x k es,
  h,
)
