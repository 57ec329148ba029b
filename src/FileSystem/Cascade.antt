-- ===== src/FileSystem/Cascade.antt =====
-- The climb of pull_cascaded_access_rights: what an entry inherits from the directories above it.
use sigfs.Base.{
  ℕ, zero, suc, ◌<◌, ◌≡◌, ◌≢◌, ◌↔◌, ◌⊎◌, inl, inr, refl, sym, ◌∙◌, Bool, true, false, ◌||◌, none,
  some, arith, Bool-cases, Option-cases, ◌==◌, subst,
}
use sigfs.Access.{Access, AccessControlMap, Rights}
use sigfs.FileSystem.{FileSystem, Inode, root_inode, lookup_inode, force, get_id_access, inherit}

-- A right cascades to the entries of `p`: it is granted and cascaded by p itself, or p does not
-- reset it and is not the root, and it cascades to the entries of p's parent.
pub data Inherits (fs : FileSystem) (own : Inode → AccessControlMap) (id : ℕ)
    (right : Rights → Bool) : Inode → Type 0 where
  here :
      (p : Inode)
      → (get_id_access own id p).is_cascaded ≡ true
      → right (get_id_access own id p) ≡ true
      → Inherits fs own id right p
  above :
      (p gp : Inode)
      → (get_id_access own id p).is_reset ≡ false
      → p.inode ≢ root_inode
      → lookup_inode fs p.parent_inode ≡ some gp
      → Inherits fs own id right gp
      → Inherits fs own id right p

-- Every entry but the root has a parent, with a smaller inode number.
pub record IsTree (fs : FileSystem) : Type 0 where
  pub parents :
      (ino : ℕ) (n : Inode)
      → lookup_inode fs ino ≡ some n
      → n.inode ≢ root_inode
      → (p : Inode) × (lookup_inode fs n.parent_inode ≡ some p) × (p.inode < n.inode)

-- A right that the climb forces through: a field of Rights, and the field of Access that it sets.
abbrev pub IsForced : (Rights → Bool) → (Access → Bool) → Type 0
IsForced right field =
    (r : Rights) (a : Access)
    → (field (force r a) ≡ true) ↔ ((field a ≡ true) ⊎ ((r.is_cascaded ≡ true) × (right r ≡ true)))

pub read_IsForced : IsForced (λ r. r.can_read) (λ a. a.read_access)
unfolding force
read_IsForced r a = ground arith

pub write_IsForced : IsForced (λ r. r.can_write) (λ a. a.write_access)
unfolding force
write_IsForced r a = ground arith

module _ (fs : FileSystem) (own : Inode → AccessControlMap) (id : ℕ) where
  abbrev stops : Inode → Bool
  stops p = (get_id_access own id p).is_reset || (p.inode == root_inode)

  abbrev passed : Inode → Access → Access
  passed p a = force (get_id_access own id p) a

  inherit_empty : (p : Inode) (a : Access) → inherit 0 own id fs p a ≡ none
  unfolding inherit
  inherit_empty p a = refl

  inherit_stop :
      (fuel : ℕ) (p : Inode) (a : Access)
      → stops p ≡ true
      → inherit (suc fuel) own id fs p a ≡ some (passed p a)
  unfolding inherit
  inherit_stop fuel p a e = rw e

  inherit_up :
      (fuel : ℕ) (p gp : Inode) (a : Access)
      → stops p ≡ false
      → lookup_inode fs p.parent_inode ≡ some gp
      → inherit (suc fuel) own id fs p a ≡ inherit fuel own id fs gp (passed p a)
  unfolding inherit
  inherit_up fuel p gp a e f = rw (e, f)

  inherit_lost :
      (fuel : ℕ) (p : Inode) (a : Access)
      → stops p ≡ false
      → lookup_inode fs p.parent_inode ≡ none
      → inherit (suc fuel) own id fs p a ≡ none
  unfolding inherit
  inherit_lost fuel p a e f = rw (e, f)

  goes_on :
      (p : Inode)
      → stops p ≡ false
      → ((get_id_access own id p).is_reset ≡ false) × (p.inode ≢ root_inode)
  goes_on p e = ground arith

  stops_on :
      (p : Inode)
      → (get_id_access own id p).is_reset ≡ false
      → p.inode ≢ root_inode
      → stops p ≡ false
  stops_on p e f = ground arith

  -- In a tree, the climb from an entry that is found there, for either map and any id, ends within
  -- a number of rounds that is larger than the entry's inode number.
  pub inherit_total :
      IsTree fs
      → (fuel ino : ℕ) (p : Inode) (a : Access) → lookup_inode fs ino ≡ some p
      → p.inode < fuel
      → (a' : Access) × (inherit fuel own id fs p a ≡ some a')
  inherit_total tree zero ino p a e h = absurd (omega arith)
  inherit_total tree (suc fuel) ino p a e h = elim (Bool-cases (stops p)) [
    | inl s ↦ (passed p a, inherit_stop fuel p a s)
    | inr s ↦
        let (gp, found, less) = tree.parents ino p e (goes_on p s).1 in
        let (a', run) =
          inherit_total tree fuel p.parent_inode gp (passed p a) found (omega arith) in
        (a', inherit_up fuel p gp a s found ∙ run)
  ]

  module _ (right : Rights → Bool) (field : Access → Bool) (forced : IsForced right field) where
    abbrev From : Inode → Type 0
    From = Inherits fs own id right

    stopped :
        (p : Inode) (a : Access)
        → stops p ≡ true
        → (field (passed p a) ≡ true) ↔ ((field a ≡ true) ⊎ From p)
    stopped p a s = (to, from)
      where
        to : field (passed p a) ≡ true → (field a ≡ true) ⊎ From p
        to h = elim ((forced (get_id_access own id p) a).0 h) [
          | inl x ↦ inl x
          | inr (c, r) ↦ inr (here p c r)
        ]

        from : (field a ≡ true) ⊎ From p → field (passed p a) ≡ true
        from (inl x) = (forced (get_id_access own id p) a).1 (inl x)
        from (inr (here p' c r)) = (forced (get_id_access own id p) a).1 (inr (c, r))
        from (inr (above p' gp e f l i)) = cc (s, stops_on p e f)

    went_on :
        (p gp : Inode) (a a' : Access)
        → stops p ≡ false
        → lookup_inode fs p.parent_inode ≡ some gp
        → (field a' ≡ true) ↔ ((field (passed p a) ≡ true) ⊎ From gp)
        → (field a' ≡ true) ↔ ((field a ≡ true) ⊎ From p)
    went_on p gp a a' s found (rest_to, rest_from) = (to, from)
      where
        to : field a' ≡ true → (field a ≡ true) ⊎ From p
        to h = elim (rest_to h) [
          | inl x ↦ elim ((forced (get_id_access own id p) a).0 x) [
            | inl y ↦ inl y
            | inr (c, r) ↦ inr (here p c r)
          ]
          | inr i ↦ inr (above p gp (goes_on p s).0 (goes_on p s).1 found i)
        ]

        from : (field a ≡ true) ⊎ From p → field a' ≡ true
        from (inl x) = rest_from (inl ((forced (get_id_access own id p) a).1 (inl x)))
        from (inr (here p' c r)) =
            rest_from (inl ((forced (get_id_access own id p) a).1 (inr (c, r))))
        from (inr (above p' gp' e f l i)) = rest_from (inr (subst From (same l) i))
          where
            same : {gp' : Inode} → lookup_inode fs p.parent_inode ≡ some gp' → gp' ≡ gp
            same l = cc (l, found)

    -- What the climb grants: what was there before, and what cascades down to the entry.
    pub inherit-Inherits :
        (fuel : ℕ) (p : Inode) (a a' : Access)
        → inherit fuel own id fs p a ≡ some a'
        → (field a' ≡ true) ↔ ((field a ≡ true) ⊎ From p)
    inherit-Inherits zero p a a' e = cc (e, inherit_empty p a)
    inherit-Inherits (suc fuel) p a a' e = elim (Bool-cases (stops p)) [
      | inl s ↦ subst (λ t. (field t ≡ true) ↔ ((field a ≡ true) ⊎ From p)) (last s) (stopped p a s)
      | inr s ↦ elim (Option-cases (lookup_inode fs p.parent_inode)) [
        | inl l ↦ cc (e, inherit_lost fuel p a s l)
        | inr (gp, l) ↦
            went_on p gp a a' s l
              (inherit-Inherits fuel gp (passed p a) a' (sym (inherit_up fuel p gp a s l) ∙ e))
      ]
    ]
      where
        last : stops p ≡ true → passed p a ≡ a'
        last s = cc (e, inherit_stop fuel p a s)
