-- ===== src/FileSystem/Build.antt =====
-- fs_filesys.cc, fs_inode.cc, fs_dir.cc and fs_file.cc, the constructors: the tree is built from the
-- configuration, directory by directory, and each entry gets the next inode number. nlohmann::json
-- is not modelled: a Config is what the constructors read of a JSON object that has the fields
-- that they ask for.
pub mod Names
pub mod Grown
pub mod Tree
pub mod Root
pub mod Walk
use sigfs.Base.{
  ℕ, ◌+◌, Bool, true, false, List, [], ◌∷◌, Option, none, some, ltb, ◌==◌, if◌then◌else◌,
}
use sigfs.Common.{to_u32, to_u64}
use sigfs.Access
use sigfs.Access.{Token, AccessControlMap}
use sigfs.FileSystem.{FileSystem, Inode, Kind, directory, file, root_inode, lookup_inode, same_name}

-- The arrays "uid_access" and "gid_access": ids that fit an id_t, each with its access array.
abbrev pub AccessConfig : Type 0
AccessConfig = List (ℕ × List Token)

-- A name, the two access arrays, and "queue_length" or "entries": an object with "entries" is a
-- directory, any other is a file.
mutual
  pub data Config : Type 0 where
    file_config : List ℕ → AccessConfig → AccessConfig → Option ℕ → Config
    directory_config : List ℕ → AccessConfig → AccessConfig → Configs → Config

  pub data Configs : Type 0 where
    end : Configs
    entry : Config → Configs → Configs

abbrev pub default_queue_length : ℕ
default_queue_length = 16777216

unfoldable pub queue_length_of : Option ℕ → ℕ
queue_length_of none = default_queue_length
queue_length_of (some length) = to_u32 length

abbrev pub name_of : Config → List ℕ
name_of (file_config name u g length) = name
name_of (directory_config name u g cs) = name

-- The members that INode's constructor sets. The number is the next one.
unfoldable pub new_inode : List ℕ → AccessConfig → AccessConfig → ℕ → Kind → FileSystem → Inode
new_inode name u g parent_inode kind fs = record {
  name = name;
  inode = fs.next_inode_nr;
  parent_inode = parent_inode;
  uid_access = Access.of_configs u [];
  gid_access = Access.of_configs g [];
  access_is_cached = false;
  kind = kind;
}

-- get_next_inode: the state that it leaves
unfoldable pub take_inode : FileSystem → FileSystem
take_inode fs = record fs { next_inode_nr = to_u64 (fs.next_inode_nr + 1) }

-- register_inode: inode_entries_ keeps an entry that is there already.
unfoldable pub register_inode : FileSystem → Inode → FileSystem
unfolding lookup_inode
register_inode fs n = elim (lookup_inode fs n.inode) [
  | none ↦ record fs { inode_entries = n ∷ fs.inode_entries }
  | some _ ↦ fs
]

-- std::string::operator<
abbrev pub name_before : List ℕ → List ℕ → Bool
name_before [] [] = false
name_before [] (y ∷ ys) = true
name_before (x ∷ xs) [] = false
name_before (x ∷ xs) (y ∷ ys) = if x == y then name_before xs ys else ltb x y

-- entries_.insert: in the order of the names, and a name that is there already stays.
unfoldable pub insert_entry : List ℕ → ℕ → List (List ℕ × ℕ) → List (List ℕ × ℕ)
insert_entry name ino [] = (name, ino) ∷ []
insert_entry name ino ((k, j) ∷ es) =
    let rest = insert_entry name ino es in
    if same_name name k
    then (k, j) ∷ es
    else if name_before name k
    then (name, ino) ∷ (k, j) ∷ es
    else (k, j) ∷ rest

-- The constructors of File and of Directory, and the latter's loop over "entries".
unfoldable mutual
  unfolding new_inode take_inode register_inode insert_entry queue_length_of

  pub build : Config → ℕ → FileSystem → Inode × FileSystem
  build (file_config name u g length) parent fs =
      (new_inode name u g parent (file (queue_length_of length) none) fs, take_inode fs)
  build (directory_config name u g cs) parent fs =
      let (es, fs') = build_entries cs fs.next_inode_nr [] (take_inode fs) in
      (new_inode name u g parent (directory es) fs, fs')

  pub build_entries : Configs → ℕ → List (List ℕ × ℕ) → FileSystem → List (List ℕ × ℕ) × FileSystem
  build_entries end parent es fs = (es, fs)
  build_entries (entry c cs) parent es fs =
      let (n, fs') = build c parent fs in
      build_entries cs parent (insert_entry (name_of c) n.inode es) (register_inode fs' n)

-- The FileSystem's own constructor, on config["root"], whose parent is itself. `none` is abort(),
-- for a root without entries.
unfoldable pub init : Config → Option FileSystem
unfolding build
init (file_config name u g length) = none
init (directory_config name u g cs) =
    let empty : FileSystem = record { inode_entries = []; next_inode_nr = root_inode } in
    let (root, fs) = build (directory_config name u g cs) root_inode empty in
    some (register_inode fs root)
