-- ===== src/FileSystem/OwnRights.antt =====
-- The rights of one user or group in an access control map that get_access changed.
use sigfs.Base.{ℕ, ◌≡◌, ◌↔◌, ◌⊎◌, inl, inr, refl, Bool, true, ◌||◌, some, arith, Option-cases}
use sigfs.Access
use sigfs.Access.{Access, AccessControlMap, Rights, find, insert, assign, no_rights}
use sigfs.Access.Maps.{find-insert, find-assign}
use sigfs.FileSystem.{own_rights, with_entry}

pub find-with_entry :
    (id : ℕ) (m : AccessControlMap) → find id (with_entry id m) ≡ some (own_rights id m)
unfolding with_entry own_rights
find-with_entry id m = elim (Option-cases (find id m)) [
  | inl e ↦ rw (with_entry, e, own_rights) (find-insert id Access.init m e)
  | inr (a, e) ↦ rw (with_entry, e, own_rights, e) refl
]

-- The rights of an id whose entry was changed.
abbrev pub rights_of : Access → Rights
rights_of a = record {
  can_read = a.read_access;
  can_write = a.write_access;
  is_cascaded = a.cascade_flag;
  is_reset = a.reset_flag;
}

pub access-found :
    (m : AccessControlMap) (id : ℕ) (a : Access)
    → find id m ≡ some a
    → Access.get_access m id no_rights ≡ rights_of a
unfolding Access.get_access
access-found m id a e = rw (Access.get_access, e) refl

pub access-assign :
    (id : ℕ) (a : Access) (m : AccessControlMap)
    → Access.get_access (assign id a (with_entry id m)) id no_rights ≡ rights_of a
access-assign id a m =
    access-found (assign id a (with_entry id m)) id a
      (find-assign id a (own_rights id m) (with_entry id m) (find-with_entry id m))

pub own_rights-read :
    (id : ℕ) (m : AccessControlMap)
    → (own_rights id m).read_access ≡ (Access.get_access m id no_rights).can_read
unfolding own_rights Access.get_access
own_rights-read id m = ground arith

pub own_rights-write :
    (id : ℕ) (m : AccessControlMap)
    → (own_rights id m).write_access ≡ (Access.get_access m id no_rights).can_write
unfolding own_rights Access.get_access
own_rights-write id m = ground arith

-- The rights of the user and of the group together.
pub joined {ℓ} :
    {I J : Type ℓ} (x y a b : Bool)
    → (x ≡ true) ↔ ((a ≡ true) ⊎ I)
    → (y ≡ true) ↔ ((b ≡ true) ⊎ J)
    → (x || y ≡ true) ↔ ((a ≡ true) ⊎ (b ≡ true) ⊎ I ⊎ J)
joined x y a b h k = ground (arith, h, k)
