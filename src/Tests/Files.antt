-- ===== src/Tests/Files.antt =====
-- A file system of three entries, built from its configuration: who may open its file, what
-- cascades to it, and what the kernel is told.
use sigfs.Base.{
  length, ℕ, ◌+◌, ◌<◌, ◌≡◌, ◌≢◌, refl, List, [], ◌∷◌, none, some, arith, true, false, Bool, ◌||◌,
  if◌then◌else◌,
}
use sigfs.Fuse.{Stat, reply_err, reply_attr, reply_buf, eacces}
use sigfs.Access
use sigfs.Access.{
  Access, Token, AccessControlMap, cascade, of_config, to_config, of_configs, to_configs,
}
use sigfs.Access.Saved.{of_configs_stable}
use sigfs.Listing.{do_readdir}
use sigfs.Listing.Pages.{IsResolved, do_readdir_lem}
use sigfs.FileSystem.{
  FileSystem, Inode, directory, root_inode, lookup_inode, is_file, is_directory, get_id_access,
  get_access, inherit, store_inode,
}
use sigfs.FileSystem.Cascade.{IsTree}
use sigfs.FileSystem.Granted.{Granted, reads, writes, uids, gids}
use sigfs.FileSystem.Kept.{get_access_total}
use sigfs.FileSystem.Build.{Config, file_config, directory_config, end, entry, init}
use sigfs.FileSystem.Build.Root.{init-IsEntry}
use sigfs.FileSystem.Build.Walk.{walk}
use sigfs.Open.{subscribe, refused, do_open}
use sigfs.FileSystem
use sigfs.FileSystem.{file}
use sigfs.FileSystem.Again.{get_access_again}
use sigfs.Channel
use sigfs.Queue
use sigfs.Queue.{empty_ring}
use sigfs.Open
use sigfs.Open.Checks.{is_denied, do_open_lem}
use sigfs.Attributes.{do_getattr}
use sigfs.FileSystem.Saved.{root_to_config}
use sigfs.FileSystem.Saved.Dump.{dump, root_to_config-init}
use sigfs.Requests.{Served, start, getattr}
use sigfs.Requests.Paths.{Replies, Served_resolves, Served_lookup}
use sigfs.Attributes.Mode.{Shows, do_getattr_lem}

-- "/": the user 1000 may read, and so below it. "/a/f": the user 1001 may write.
abbrev config : Config
config = directory_config (47 ∷ []) ((1000, Token.read ∷ cascade ∷ []) ∷ []) [] (
    entry
      (directory_config (97 ∷ []) [] []
        (entry (file_config (102 ∷ []) ((1001, Token.write ∷ []) ∷ []) [] (some 8)) end))
      end)

abbrev fs : FileSystem
fs = elim (init config) [ none ↦ record { inode_entries = []; next_inode_nr = 1 } | some t ↦ t ]

init-config : init config ≡ some fs
unfolding init
init-config = refl

tree : IsTree fs
tree = (init-IsEntry config (omega arith) init-config).0

abbrev entry_of : ℕ → Inode
entry_of k = elim (lookup_inode fs k) [
  | none ↦ record {
    name = [];
    inode = 0;
    parent_inode = 0;
    uid_access = [];
    gid_access = [];
    access_is_cached = false;
    kind = directory [];
  }
  | some n ↦ n
]

abbrev the_file : Inode
the_file = entry_of 3

found_file : lookup_inode fs 3 ≡ some the_file
unfolding init lookup_inode
found_file = refl

file_fresh : the_file.access_is_cached ≡ false
unfolding init lookup_inode
file_fresh = refl

abbrev the_directory : Inode
the_directory = entry_of 2

found_directory : lookup_inode fs the_file.parent_inode ≡ some the_directory
unfolding init lookup_inode
found_directory = refl

directory_below_file : the_directory.inode < the_file.inode
unfolding init lookup_inode
directory_below_file = omega arith

file_below_root : the_file.inode ≢ root_inode
unfolding init lookup_inode
file_below_root e = absurd (omega (arith, e))

file_is_file : is_file the_file ≡ true
unfolding init lookup_inode is_file
file_is_file = refl

abbrev cached : Inode
cached = record the_file { access_is_cached = true }

-- A second user gets nothing of what cascades.
not_cascaded : (get_id_access uids 1000 cached).can_read ≡ false
unfolding init lookup_inode get_id_access Access.get_access Access.of_configs
not_cascaded = refl

abbrev inherited : Access
inherited = record Access.init { read_access = true }

inherit_run : inherit 3 uids 1000 fs the_directory Access.init ≡ some inherited
unfolding init lookup_inode inherit Access.get_access Access.of_configs
inherit_run = refl

-- The user 1000 may read the file, by the root's entry, and not write it.
abbrev opened : FileSystem
opened = elim (get_access fs the_file 1000 5) [ none ↦ fs | some (t, r, w) ↦ t ]

access_1000 : get_access fs the_file 1000 5 ≡ some (opened, true, false)
unfolding init lookup_inode get_access Access.get_access Access.of_configs
access_1000 = refl

do_open_lem_example : do_open fs 3 1000 5 1 0 ≡ (
    if is_denied 1 false then some (opened, refused (reply_err eacces)) else subscribe opened 3 0)
do_open_lem_example =
    do_open_lem fs 3 1000 5 1 0 the_file found_file opened true false file_is_file access_1000

do_getattr_lem_example :
    (st : Stat) × (do_getattr fs 3 1000 5 ≡ some (opened, reply_attr st))
    × (st.st_ino ≡ the_file.inode)
    × (st.st_uid ≡ 1000)
    × (st.st_gid ≡ 5)
    × (st.st_nlink ≡ (if is_directory the_file then 2 else 1))
    × Shows the_file true false st.st_mode
do_getattr_lem_example =
    do_getattr_lem fs opened 3 1000 5 the_file true false found_file access_1000

of_configs_stable_example :
    of_configs (to_configs (of_configs ((9, Token.read ∷ []) ∷ (5, []) ∷ (9, []) ∷ []) [])) []
    ≡ of_configs ((9, Token.read ∷ []) ∷ (5, []) ∷ (9, []) ∷ []) []
of_configs_stable_example = of_configs_stable ((9, Token.read ∷ []) ∷ (5, []) ∷ (9, []) ∷ [])

-- A record of a listing that is two numbers and the name.
abbrev small_size : List ℕ → ℕ
small_size name = 2 + length name

abbrev small_record : List ℕ → ℕ → ℕ → List ℕ
small_record name ino off = ino ∷ off ∷ name

small_as_told : (name : List ℕ) (ino off : ℕ) → length (small_record name ino off) ≡ small_size name
small_as_told name ino off = omega arith

resolved : IsResolved fs (102 ∷ [], 3)
unfolding init lookup_inode
resolved = (the_file, found_file, refl, refl)

directory_found : lookup_inode fs 2 ≡ some the_directory
unfolding init lookup_inode
directory_found = refl

directory_kind : the_directory.kind ≡ directory ((102 ∷ [], 3) ∷ [])
unfolding init lookup_inode
directory_kind = refl

-- The listing of "/a" behind ".", with room for ".." and half of "f".
do_readdir_lem_example :
    do_readdir small_size small_record fs 2 6 3
    ≡ some (reply_buf (the_directory.parent_inode ∷ 7 ∷ 46 ∷ 46 ∷ 3 ∷ 10 ∷ []))
do_readdir_lem_example =
    do_readdir_lem small_size small_record small_as_told fs 2 6 the_directory ((102 ∷ [], 3) ∷ [])
      ((46 ∷ [], 2) ∷ []) ((46 ∷ 46 ∷ [], the_directory.parent_inode) ∷ (102 ∷ [], 3) ∷ [])
      directory_found directory_kind (resolved, tt) refl

get_access_total_example :
    (fs' : FileSystem) × (can_read can_write : Bool) × (get_access fs the_file 1001 5
      ≡ some (fs', can_read, can_write))
    × IsTree fs'
unfolding init lookup_inode
get_access_total_example = get_access_total fs the_file 1001 5 tree found_file

-- The attributes of the file are asked for, and then "f" is looked up in "/a".
asked : (st : Stat) × (do_getattr fs 3 1000 5 ≡ some (opened, reply_attr st))
asked =
    let reply = do_getattr_lem fs opened 3 1000 5 the_file true false found_file access_1000 in
    (reply.0, reply.1)

served : Served fs opened
served = getattr start 3 1000 5 opened (reply_attr asked.0) asked.1

Served_resolves_example : walk opened ((97 ∷ []) ∷ (102 ∷ []) ∷ []) 1 ≡ some 3
Served_resolves_example =
    Served_resolves config fs ((97 ∷ []) ∷ (102 ∷ []) ∷ []) (omega arith) init-config served

abbrev the_directory_then : Inode
the_directory_then = elim (lookup_inode opened 2) [ none ↦ the_directory | some n ↦ n ]

directory_then : lookup_inode opened 2 ≡ some the_directory_then
unfolding init lookup_inode get_access Access.get_access Access.of_configs
directory_then = refl

directory_still : is_directory the_directory_then ≡ true
unfolding init lookup_inode get_access Access.get_access Access.of_configs is_directory
directory_still = refl

Served_lookup_example : Replies opened 2 (102 ∷ []) 1001 5 (some 3)
Served_lookup_example =
    Served_lookup config fs ((97 ∷ []) ∷ []) (102 ∷ []) 2 1001 5 the_directory_then (omega arith)
      init-config served refl directory_then directory_still

root_to_config-init_example : root_to_config fs ≡ some (dump config 1 1)
root_to_config-init_example = root_to_config-init config (omega arith) init-config

file_live : lookup_inode fs the_file.inode ≡ some the_file
unfolding init lookup_inode
file_live = refl

get_access_again_example :
    (fs' : FileSystem) × (n' : Inode) × (can_read can_write : Bool) × (get_access fs the_file 1000 5
      ≡ some (fs', can_read, can_write))
    × (lookup_inode fs' the_file.inode ≡ some n')
    × (get_access fs' n' 1000 5 ≡ some (fs', can_read, can_write))
    × (get_access fs' n' 1001 6
        ≡ some (
          fs',
          reads (get_id_access uids 1001 the_file) || reads (get_id_access gids 6 the_file),
          writes (get_id_access uids 1001 the_file) || writes (get_id_access gids 6 the_file),
        ))
get_access_again_example =
    get_access_again fs the_file 1000 5 1001 6 the_directory tree file_live found_directory
      directory_below_file file_below_root file_fresh (λ e. absurd (omega (arith, e)))
      (λ e. absurd (omega (arith, e)))

abbrev with_queue : Inode
with_queue = record the_file { kind = file 8 (some (empty_ring 8)) }
