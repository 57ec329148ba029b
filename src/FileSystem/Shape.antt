-- ===== src/FileSystem/Shape.antt =====
-- What requests leave alone: the numbers, parents, names and entries of the tree.
use sigfs.Base.{
  ℕ, ◌<◌, ◌≡◌, ◌≢◌, refl, sym, ap, ◌∙◌, Bool, List, [], ◌∷◌, Option, none, some, arith, inl, inr,
  Option-cases, subst,
}
use sigfs.Queue.{Queue}
use sigfs.FileSystem.Cascade.{IsTree}
use sigfs.FileSystem.Granted.{answered}
use sigfs.FileSystem.{
  FileSystem, Inode, Kind, directory, file, find_inode, replace_inode, lookup_inode, store_inode,
  queue, root_inode, get_access, pull, pull_cascaded_access_rights,
}

-- The entries of a directory.
abbrev pub entries_of : Kind → Option (List (List ℕ × ℕ))
entries_of (directory es) = some es
entries_of (file length q) = none

pub record Shape : Type 0 where
  pub inode : ℕ
  pub parent_inode : ℕ
  pub name : List ℕ
  pub entries : Option (List (List ℕ × ℕ))

abbrev pub shape : Inode → Shape
shape n = record {
  inode = n.inode;
  parent_inode = n.parent_inode;
  name = n.name;
  entries = entries_of n.kind;
}

abbrev pub shape_of : Option Inode → Option Shape
shape_of none = none
shape_of (some n) = some (shape n)

-- The same tree, whatever else is known of its entries.
abbrev pub SameTree : FileSystem → FileSystem → Type 0
SameTree fs fs' = (k : ℕ) → shape_of (lookup_inode fs' k) ≡ shape_of (lookup_inode fs k)

find_inode-replace :
    (k : ℕ) (t : Inode) (n : Inode) (ns : List Inode)
    → find_inode t.inode ns ≡ some n
    → shape t ≡ shape n
    → shape_of (find_inode k (replace_inode t ns)) ≡ shape_of (find_inode k ns)
find_inode-replace k t n [] e same = refl
find_inode-replace k t n (m ∷ ns) e same = ground (arith, e, same, find_inode-replace k t n ns)

store_inode-SameTree :
    (fs : FileSystem) (t n : Inode)
    → lookup_inode fs t.inode ≡ some n
    → shape t ≡ shape n
    → SameTree fs (store_inode fs t)
unfolding lookup_inode store_inode
store_inode-SameTree fs t n e same k = find_inode-replace k t n fs.inode_entries e same

pull-shape :
    (fs : FileSystem) (n parent n' : Inode) (uid gid : ℕ)
    → pull fs n parent uid gid ≡ some n'
    → shape n' ≡ shape n
unfolding pull
pull-shape fs n parent n' uid gid e = ground arith

pull_cascaded-shape :
    (fs : FileSystem) (n n' : Inode) (uid gid : ℕ)
    → pull_cascaded_access_rights fs n uid gid ≡ some n'
    → shape n' ≡ shape n
unfolding pull_cascaded_access_rights
pull_cascaded-shape fs n n' uid gid e = ground arith

unanswered :
    (fs : FileSystem) (n : Inode) (uid gid : ℕ)
    → pull_cascaded_access_rights fs n uid gid ≡ none
    → get_access fs n uid gid ≡ none
unfolding get_access
unanswered fs n uid gid e = rw (get_access, e) refl

pub get_access-SameTree :
    (fs fs' : FileSystem) (n : Inode) (uid gid : ℕ) (r w : Bool)
    → lookup_inode fs n.inode ≡ some n
    → get_access fs n uid gid ≡ some (fs', r, w)
    → SameTree fs fs'
get_access-SameTree fs fs' n uid gid r w live e =
    elim (Option-cases (pull_cascaded_access_rights fs n uid gid)) [
      | inl f ↦ cc (sym (unanswered fs n uid gid f) ∙ e)
      | inr (n', f) ↦
          let same : shape n' ≡ shape n = pull_cascaded-shape fs n n' uid gid f in
          let there : lookup_inode fs n'.inode ≡ some n =
            ap (λ t. lookup_inode fs t.inode) same ∙ live in
          let stored : store_inode fs n' ≡ fs' = cc (sym (answered fs n uid gid n' f) ∙ e) in
          subst (SameTree fs) stored (store_inode-SameTree fs n' n there same)
    ]

queue-shape : (n n' : Inode) (q : Queue) → queue n ≡ some (n', q) → shape n' ≡ shape n
unfolding queue
queue-shape n n' q e = ground arith

pub queue-SameTree :
    (fs : FileSystem) (n n' : Inode) (q : Queue)
    → lookup_inode fs n.inode ≡ some n
    → queue n ≡ some (n', q)
    → SameTree fs (store_inode fs n')
queue-SameTree fs n n' q live e =
    let same : shape n' ≡ shape n = queue-shape n n' q e in
    store_inode-SameTree fs n' n (ap (λ t. lookup_inode fs t.inode) same ∙ live) same

-- An entry of one is there in the other.
shape-found :
    (o : Option Inode) (n : Inode)
    → shape_of o ≡ some (shape n)
    → (m : Inode) × (o ≡ some m) × (shape m ≡ shape n)
shape-found none n e = cc e
shape-found (some m) n e = (m, refl, cc e)

pub SameTree-found :
    (fs fs' : FileSystem) (k : ℕ) (n : Inode)
    → SameTree fs fs'
    → lookup_inode fs k ≡ some n
    → (m : Inode) × (lookup_inode fs' k ≡ some m) × (shape m ≡ shape n)
SameTree-found fs fs' k n same e = shape-found (lookup_inode fs' k) n (same k ∙ ap shape_of e)

pub lookup_inode-inode :
    (fs : FileSystem) (k : ℕ) (n : Inode) → lookup_inode fs k ≡ some n → n.inode ≡ k
unfolding lookup_inode
lookup_inode-inode fs k n e = found k fs.inode_entries n e
  where
    found : (k : ℕ) (ns : List Inode) (n : Inode) → find_inode k ns ≡ some n → n.inode ≡ k
    found k [] n e = cc e
    found k (m ∷ ns) n e = ground (arith, e, found k ns n)

-- The parents are above in the one as in the other.
pub SameTree-IsTree : (fs fs' : FileSystem) → SameTree fs fs' → IsTree fs → IsTree fs'
SameTree-IsTree fs fs' same tree = record { parents = parent }
  where
    back : SameTree fs' fs
    back k = sym (same k)

    parent :
        (ino : ℕ) (n : Inode)
        → lookup_inode fs' ino ≡ some n
        → n.inode ≢ root_inode
        → (p : Inode) × (lookup_inode fs' n.parent_inode ≡ some p) × (p.inode < n.inode)
    parent ino n e below_root =
        let (m, there, shaped) = SameTree-found fs' fs ino n back e in
        let (p, up, less) =
          tree.parents ino m there (λ z. below_root (sym (ap (λ t. t.inode) shaped) ∙ z)) in
        let (p', up', shaped') = SameTree-found fs fs' m.parent_inode p same up in
        (
          p',
          ap (lookup_inode fs') (sym (ap (λ t. t.parent_inode) shaped)) ∙ up',
          omega (arith, less, ap (λ t. t.inode) shaped, ap (λ t. t.inode) shaped'),
        )
