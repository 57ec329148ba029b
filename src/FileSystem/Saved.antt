-- ===== src/FileSystem/Saved.antt =====
-- fs_inode.cc, fs_dir.cc and fs_filesys.cc, to_config: the file system written to a configuration.
-- A Saved is the JSON object of an entry, with the fields that to_config gives it.
pub mod Written
pub mod Dump
use sigfs.Base.{ℕ, zero, suc, List, [], ◌∷◌, Option, none, some}
use sigfs.Access
use sigfs.FileSystem.{FileSystem, Inode, directory, file, root_inode, lookup_inode}
use sigfs.FileSystem.Build.{AccessConfig}

-- What every entry has.
pub record Fields : Type 0 where
  pub inode : ℕ
  pub parent : ℕ
  pub name : List ℕ
  pub uid_access : AccessConfig
  pub gid_access : AccessConfig

mutual
  pub data Saved : Type 0 where
    saved_file : Fields → Saved
    saved_directory : Fields → SavedEntries → Saved

  pub data SavedEntries : Type 0 where
    end : SavedEntries
    entry : Saved → SavedEntries → SavedEntries

-- INode::to_config. File has none of its own.
unfoldable pub inode_to_config : Inode → Fields
unfolding Access.to_configs
inode_to_config n = record {
  inode = n.inode;
  parent = n.parent_inode;
  name = n.name;
  uid_access = Access.to_configs n.uid_access;
  gid_access = Access.to_configs n.gid_access;
}

-- Entries::to_config, with the virtual to_config of each entry; `none` is an entry that is not there.
unfoldable pub entries_to_config :
    (Inode → Option Saved) → FileSystem → List (List ℕ × ℕ) → Option SavedEntries
entries_to_config save fs [] = some end
entries_to_config save fs ((name, ino) ∷ es) = elim (lookup_inode fs ino) [
  | none ↦ none
  | some n ↦ elim (save n) [
    | none ↦ none
    | some s ↦ elim (entries_to_config save fs es) [ none ↦ none | some rest ↦ some (entry s rest) ]
  ]
]

-- Directory::to_config and INode::to_config, with a bound on the depth as fuel.
unfoldable pub to_config : ℕ → FileSystem → Inode → Option Saved
to_config zero fs n = none
to_config (suc fuel) fs n = elim n.kind [
  | file length q ↦ some (saved_file (inode_to_config n))
  | directory es ↦ elim (entries_to_config (to_config fuel fs) fs es) [
    | none ↦ none
    | some entries ↦ some (saved_directory (inode_to_config n) entries)
  ]
]

-- FileSystem::to_config, the value of its "root".
unfoldable pub root_to_config : FileSystem → Option Saved
unfolding to_config
root_to_config fs = elim (lookup_inode fs root_inode) [
  | none ↦ none
  | some root ↦ to_config fs.next_inode_nr fs root
]
