-- ===== src/FileSystem.antt =====
-- fs.hh, fs_inode.cc, fs_file.cc, fs_dir.cc and fs_filesys.cc: the tree of directories and signal
-- files. An entry is known by its inode number, through inode_entries_; parent_entry_, which
-- remembers the result of a lookup that never changes, is left out. `none` is abort(), or a climb
-- that ran out of fuel.
pub mod Cascade
pub mod OwnRights
pub mod Granted
pub mod Kept
pub mod Again
pub mod Build
pub mod Shape
pub mod Saved
use sigfs.Base.{
  ℕ, zero, suc, ◌+◌, Bool, true, false, ◌||◌, List, [], ◌∷◌, Option, none, some, ltb, ◌==◌,
  if◌then◌else◌,
}
use sigfs.Access
use sigfs.Access.{Access, AccessControlMap, Rights, no_rights}
use sigfs.Queue
use sigfs.Queue.{Queue}

-- A name is the list of its bytes. entries_ maps names to inode numbers.
pub data Kind : Type 0 where
  directory : List (List ℕ × ℕ) → Kind
  file : ℕ → Option Queue → Kind

pub record Inode : Type 0 where
  pub name : List ℕ
  pub inode : ℕ
  pub parent_inode : ℕ
  pub uid_access : AccessControlMap
  pub gid_access : AccessControlMap
  pub access_is_cached : Bool
  pub kind : Kind

pub record FileSystem : Type 0 where
  pub inode_entries : List Inode
  pub next_inode_nr : ℕ

abbrev pub root_inode : ℕ
root_inode = 1

abbrev pub find_inode : ℕ → List Inode → Option Inode
find_inode ino [] = none
find_inode ino (n ∷ ns) = let rest = find_inode ino ns in if n.inode == ino then some n else rest

unfoldable pub lookup_inode : FileSystem → ℕ → Option Inode
lookup_inode fs ino = find_inode ino fs.inode_entries

abbrev pub replace_inode : Inode → List Inode → List Inode
replace_inode t [] = []
replace_inode t (n ∷ ns) =
    let rest = replace_inode t ns in if n.inode == t.inode then t ∷ ns else n ∷ rest

-- A change to an entry, seen through every pointer to it.
unfoldable pub store_inode : FileSystem → Inode → FileSystem
store_inode fs t = record fs { inode_entries = replace_inode t fs.inode_entries }

unfoldable pub is_directory : Inode → Bool
is_directory n = elim n.kind [ directory _ ↦ true | file _ _ ↦ false ]

unfoldable pub is_file : Inode → Bool
is_file n = elim n.kind [ directory _ ↦ false | file _ _ ↦ true ]

-- What one ancestor passes down: read and write are forced through when it cascades.
unfoldable pub force : Rights → Access → Access
force r a =
    let forced = record a {
      read_access = if r.can_read then true else a.read_access;
      write_access = if r.can_write then true else a.write_access;
    } in
    if r.is_cascaded then forced else a

-- get_uid_access and get_gid_access, on false variables: `own` chooses the map.
unfoldable pub get_id_access : (Inode → AccessControlMap) → ℕ → Inode → Rights
get_id_access own id n = Access.get_access (own n) id no_rights

-- The loop over the parents, of which the source has one copy for the user and one for the group,
-- with the number of its rounds as fuel.
unfoldable pub inherit :
    ℕ → (Inode → AccessControlMap) → ℕ → FileSystem → Inode → Access → Option Access
unfolding force get_id_access lookup_inode
inherit zero own id fs parent a = none
inherit (suc fuel) own id fs parent a =
    let r = get_id_access own id parent in
    if r.is_reset || (parent.inode == root_inode)
    then some (force r a)
    else elim (lookup_inode fs parent.parent_inode) [
      | none ↦ none
      | some grandparent ↦ inherit fuel own id fs grandparent (force r a)
    ]

-- The id's own entry, which is inserted empty when there is none.
unfoldable pub own_rights : ℕ → AccessControlMap → Access
unfolding Access.find
own_rights id m = elim (Access.find id m) [ none ↦ Access.init | some a ↦ a ]

unfoldable pub with_entry : ℕ → AccessControlMap → AccessControlMap
unfolding Access.find Access.insert
with_entry id m = elim (Access.find id m) [ none ↦ Access.insert id Access.init m | some _ ↦ m ]

-- pull_cascaded_access_rights past its guard, for the entry `n` below `parent`.
unfoldable pub pull : FileSystem → Inode → Inode → ℕ → ℕ → Option Inode
unfolding inherit own_rights with_entry Access.assign
pull fs n parent uid gid =
    elim (inherit n.inode (λ t. t.uid_access) uid fs parent (own_rights uid n.uid_access)) [
      | none ↦ none
      | some u ↦
          elim (inherit n.inode (λ t. t.gid_access) gid fs parent (own_rights gid n.gid_access)) [
            | none ↦ none
            | some g ↦ some (record n {
              uid_access = Access.assign uid u (with_entry uid n.uid_access);
              gid_access = Access.assign gid g (with_entry gid n.gid_access);
              access_is_cached = true;
            })
          ]
    ]

unfoldable pub pull_cascaded_access_rights : FileSystem → Inode → ℕ → ℕ → Option Inode
unfolding pull lookup_inode
pull_cascaded_access_rights fs n uid gid =
    if (n.inode == root_inode) || n.access_is_cached
    then some n
    else elim (lookup_inode fs n.parent_inode) [
      | none ↦ none
      | some parent ↦ pull fs n parent uid gid
    ]

-- get_access: the file system afterwards, can_read, and can_write.
unfoldable pub get_access : FileSystem → Inode → ℕ → ℕ → Option (FileSystem × Bool × Bool)
unfolding pull_cascaded_access_rights get_id_access store_inode
get_access fs n uid gid = elim (pull_cascaded_access_rights fs n uid gid) [
  | none ↦ none
  | some n' ↦
      let u = get_id_access (λ t. t.uid_access) uid n' in
      let g = get_id_access (λ t. t.gid_access) gid n' in
      some (store_inode fs n', u.can_read || g.can_read, u.can_write || g.can_write)
]

-- std::string::operator==
abbrev pub same_name : List ℕ → List ℕ → Bool
same_name [] [] = true
same_name [] (y ∷ ys) = false
same_name (x ∷ xs) [] = false
same_name (x ∷ xs) (y ∷ ys) = if x == y then same_name xs ys else false

-- lookup_entry
unfoldable pub find_entry : List ℕ → List (List ℕ × ℕ) → Option ℕ
find_entry name [] = none
find_entry name ((k, ino) ∷ es) =
    let rest = find_entry name es in if same_name name k then some ino else rest

-- File::queue: the queue is created when it is first asked for. `none` is exit(255) of its
-- constructor, or an entry that is no file.
unfoldable pub queue : Inode → Option (Inode × Queue)
unfolding Queue.init
queue n = elim n.kind [
  | directory _ ↦ none
  | file length (some q) ↦ some (n, q)
  | file length none ↦ elim (Queue.init length) [
    | none ↦ none
    | some q ↦ some (record n { kind = file length (some q) }, q)
  ]
]
