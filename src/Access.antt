-- ===== src/Access.antt =====
-- fs.hh and fs_access.cc, class FileSystem::Access and class FileSystem::AccessControlMap: what a
-- user or a group may do with an entry of the file system.
pub mod Config
pub mod Maps
pub mod Saved
pub mod Listed
use sigfs.Base.{
  ℕ, Bool, true, false, List, [], ◌∷◌, ◌++◌, Option, none, some, ltb, ◌==◌, if◌then◌else◌,
}

pub record Access : Type 0 where
  pub read_access : Bool
  pub write_access : Bool
  pub cascade_flag : Bool
  pub reset_flag : Bool

-- A string of the configuration's "access" array; any other value is unknown.
pub data Token : Type 0 where
  read write cascade reset unknown : Token

abbrev pub init : Access
init = record {
  read_access = false;
  write_access = false;
  cascade_flag = false;
  reset_flag = false;
}

unfoldable pub set_token : Token → Access → Access
set_token read a = record a { read_access = true }
set_token write a = record a { write_access = true }
set_token cascade a = record a { cascade_flag = true }
set_token reset a = record a { reset_flag = true }
set_token unknown a = a

-- The loop of the constructor over the array.
unfoldable pub set_tokens : List Token → Access → Access
unfolding set_token
set_tokens [] a = a
set_tokens (t ∷ ts) a = set_tokens ts (set_token t a)

unfoldable pub of_config : List Token → Access
unfolding set_tokens
of_config ts = set_tokens ts init

unfoldable pub to_config : Access → List Token
to_config a =
    (if a.read_access then read ∷ [] else [])
    ++ ((if a.write_access then write ∷ [] else [])
        ++ ((if a.cascade_flag then cascade ∷ [] else [])
            ++ (if a.reset_flag then reset ∷ [] else [])))

-- A std::map from ids, in the order of its keys.
abbrev pub AccessControlMap : Type 0
AccessControlMap = List (ℕ × Access)

unfoldable pub find : ℕ → AccessControlMap → Option Access
find id [] = none
find id ((k, a) ∷ m) = let rest = find id m in if id == k then some a else rest

-- insert: an entry that is there already stays.
unfoldable pub insert : ℕ → Access → AccessControlMap → AccessControlMap
insert id a [] = (id, a) ∷ []
insert id a ((k, b) ∷ m) =
    let rest = insert id a m in
    if id == k then (k, b) ∷ m else if ltb id k then (id, a) ∷ (k, b) ∷ m else (k, b) ∷ rest

-- A change through the iterator of an entry.
unfoldable pub assign : ℕ → Access → AccessControlMap → AccessControlMap
assign id a [] = []
assign id a ((k, b) ∷ m) = let rest = assign id a m in if id == k then (k, a) ∷ m else (k, b) ∷ rest

-- The constructor's loop over the elements, each an id with its access array.
unfoldable pub of_configs : List (ℕ × List Token) → AccessControlMap → AccessControlMap
unfolding insert of_config
of_configs [] m = m
of_configs ((id, ts) ∷ cs) m = of_configs cs (insert id (of_config ts) m)

-- AccessControlMap::to_config: the elements in the order of the ids.
unfoldable pub to_configs : AccessControlMap → List (ℕ × List Token)
unfolding to_config
to_configs [] = []
to_configs ((id, a) ∷ m) = (id, to_config a) ∷ to_configs m

-- The references that get_access fills.
pub record Rights : Type 0 where
  pub can_read : Bool
  pub can_write : Bool
  pub is_cascaded : Bool
  pub is_reset : Bool

abbrev pub no_rights : Rights
no_rights = record { can_read = false; can_write = false; is_cascaded = false; is_reset = false }

-- get_access: for an unknown id, is_reset keeps the caller's value.
unfoldable pub get_access : AccessControlMap → ℕ → Rights → Rights
unfolding find
get_access m id old = elim (find id m) [
  | none ↦ record {
    can_read = false;
    can_write = false;
    is_cascaded = false;
    is_reset = old.is_reset;
  }
  | some a ↦ record {
    can_read = a.read_access;
    can_write = a.write_access;
    is_cascaded = a.cascade_flag;
    is_reset = a.reset_flag;
  }
]
