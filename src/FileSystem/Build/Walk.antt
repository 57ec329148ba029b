-- ===== src/FileSystem/Build/Walk.antt =====
-- Paths: the kernel resolves a path by one do_lookup for each of its names.
use mathlib.Core.Option.{some-injective}
use sigfs.Base.{
  sym, ℕ, ◌+◌, ◌^◌, ◌<◌, ◌≡◌, refl, ap, ◌∙◌, true, List, [], ◌∷◌, Option, none, some, arith,
  if◌then◌else◌, Bool-cases, subst, Option-cases, inl, inr,
}
use sigfs.FileSystem.{
  FileSystem, Inode, directory, file, lookup_inode, root_inode, same_name, find_entry,
}
use sigfs.FileSystem.Build.{
  Config, file_config, directory_config, Configs, end, entry, name_of, init,
}
use sigfs.FileSystem.Build.Grown.{size}
use sigfs.FileSystem.Build.Tree.{IsEntry, AreEntries, entry_number}
use sigfs.FileSystem.Build.Root.{init-IsEntry}

-- lookup_entry in the directory at a number; nothing is found in a file.
unfoldable pub step : FileSystem → ℕ → List ℕ → Option ℕ
unfolding lookup_inode find_entry
step fs ino name = elim (lookup_inode fs ino) [
  | none ↦ none
  | some n ↦ elim n.kind [ directory es ↦ find_entry name es | file _ _ ↦ none ]
]

unfoldable pub walk : FileSystem → List (List ℕ) → ℕ → Option ℕ
walk fs [] ino = some ino
walk fs (x ∷ xs) ino = elim (step fs ino x) [ none ↦ none | some k ↦ walk fs xs k ]

-- The configuration's own reading of a path: entries are numbered in the order of their
-- appearance, a directory before its entries, and the first entry of a name counts.
abbrev pub child_at : List ℕ → ℕ → Configs → Option (ℕ × Config)
child_at x next end = none
child_at x next (entry c cs) =
    let rest = child_at x (next + size c) cs in
    if same_name x (name_of c) then some (next, c) else rest

abbrev pub child_of : List ℕ → ℕ → Config → Option (ℕ × Config)
child_of x ino (file_config name u g length) = none
child_of x ino (directory_config name u g cs) = child_at x (ino + 1) cs

abbrev pub number_at : List (List ℕ) → ℕ → Config → Option ℕ
number_at [] ino c = some ino
number_at (x ∷ xs) ino c = elim (child_of x ino c) [
  | none ↦ none
  | some (k, c') ↦ number_at xs k c'
]

entry_number-child_at :
    (x : List ℕ) (cs : Configs) (next : ℕ)
    → entry_number x next cs ≡ elim (child_at x next cs) [ none ↦ none | some (k, c) ↦ some k ]
entry_number-child_at x end next = refl
entry_number-child_at x (entry c cs) next =
    ground (arith, entry_number-child_at x cs (next + size c))

-- The entry at a number is the one that a piece of the configuration describes.
abbrev At : FileSystem → ℕ → Config → Type 0
At fs k c = (m : Inode) × (lookup_inode fs k ≡ some m) × (m.inode ≡ k) × IsEntry fs c m

child_at-At :
    (fs : FileSystem) (x : List ℕ) (cs : Configs) (next parent k : ℕ) (c : Config)
    → AreEntries fs cs next parent
    → child_at x next cs ≡ some (k, c)
    → At fs k c
child_at-At fs x end next parent k c h e = cc e
child_at-At fs x (entry d cs) next parent k c ((m, l, num, up, here), rest) e =
    elim (Bool-cases (same_name x (name_of d))) [
      | inl hit ↦ subst (λ (t : ℕ × Config). At fs t.0 t.1) (same hit) (m, l, num, here)
      | inr miss ↦ child_at-At fs x cs (next + size d) parent k c rest (ground (arith, e, miss))
    ]
  where
    same : same_name x (name_of d) ≡ true → ◌≡◌ {A = ℕ × Config} (next, d) (k, c)
    same hit =
        some-injective _ _
          (sym (ap (λ b. if b then some (next, d) else child_at x (next + size d) cs) hit) ∙ e)

step_lem :
    (fs : FileSystem) (x : List ℕ) (ino : ℕ) (c : Config)
    → At fs ino c
    → step fs ino x ≡ elim (child_of x ino c) [ none ↦ none | some (k, d) ↦ some k ]
unfolding step
step_lem fs x ino (file_config name u g length) (m, l, num, (h, kind)) = rw (step, l, kind) refl
step_lem fs x ino (directory_config name u g cs) (m, l, num, (h, es, kind, found, below)) =
    rw (step, l, kind)
      (found x ∙ ap (λ k. entry_number x (k + 1) cs) num ∙ entry_number-child_at x cs (ino + 1))

child_of-At :
    (fs : FileSystem) (x : List ℕ) (ino k : ℕ) (c d : Config)
    → At fs ino c
    → child_of x ino c ≡ some (k, d)
    → At fs k d
child_of-At fs x ino k (file_config name u g length) d h e = cc e
child_of-At fs x ino k (directory_config name u g cs) d (m, l, num, (h, es, kind, found, below)) e =
    child_at-At fs x cs (m.inode + 1) m.inode k d below (ap (λ i. child_at x (i + 1) cs) num ∙ e)

walk-number_at :
    (fs : FileSystem) (path : List (List ℕ)) (ino : ℕ) (c : Config)
    → At fs ino c
    → walk fs path ino ≡ number_at path ino c
unfolding walk
walk-number_at fs [] ino c h = refl
walk-number_at fs (x ∷ xs) ino c h = elim (Option-cases (child_of x ino c)) [
  | inl e ↦ ap on_step (stepped ∙ ap number_of e) ∙ sym (ap on_child e)
  | inr ((k, d), e) ↦
      ap on_step (stepped ∙ ap number_of e)
      ∙ walk-number_at fs xs k d (child_of-At fs x ino k c d h e)
      ∙ sym (ap on_child e)
]
  where
    number_of : Option (ℕ × Config) → Option ℕ
    number_of o = elim o [ none ↦ none | some (k, d) ↦ some k ]

    on_step : Option ℕ → Option ℕ
    on_step o = elim o [ none ↦ none | some k ↦ walk fs xs k ]

    on_child : Option (ℕ × Config) → Option ℕ
    on_child o = elim o [ none ↦ none | some (k, d) ↦ number_at xs k d ]

    stepped : step fs ino x ≡ number_of (child_of x ino c)
    stepped = step_lem fs x ino c h

number_at-found :
    (fs : FileSystem) (path : List (List ℕ)) (ino k : ℕ) (c : Config)
    → At fs ino c
    → number_at path ino c ≡ some k
    → (m : Inode) × (lookup_inode fs k ≡ some m)
number_at-found fs [] ino k c (m, l, num, h) e =
    (m, ap (lookup_inode fs) (sym (some-injective _ _ e)) ∙ l)
number_at-found fs (x ∷ xs) ino k c h e = elim (Option-cases (child_of x ino c)) [
  | inl f ↦ cc (sym (ap on_child f) ∙ e)
  | inr ((j, d), f) ↦
      number_at-found fs xs j k d (child_of-At fs x ino j c d h f) (sym (ap on_child f) ∙ e)
]
  where
    on_child : Option (ℕ × Config) → Option ℕ
    on_child o = elim o [ none ↦ none | some (k, d) ↦ number_at xs k d ]

-- An entry that the configuration has at a path is there.
pub init_found :
    (c : Config) {fs : FileSystem} (path : List (List ℕ)) (k : ℕ)
    → size c + 1 < 2 ^ 64
    → init c ≡ some fs
    → number_at path root_inode c ≡ some k
    → (m : Inode) × (lookup_inode fs k ≡ some m)
init_found c {fs} path k room e at =
    let (tree, root, found, num, up, here) = init-IsEntry c room e in
    number_at-found fs path root_inode k c (root, found, num, here) at

-- In the file system that the constructor makes of a configuration with fewer than 2^64 - 1
-- entries, every path leads from the root to the number of the entry that the configuration has at
-- that path, and to nothing if it has none.
pub init_resolves :
    (c : Config) {fs : FileSystem} (path : List (List ℕ))
    → size c + 1 < 2 ^ 64
    → init c ≡ some fs
    → walk fs path root_inode ≡ number_at path root_inode c
init_resolves c {fs} path room e =
    let (tree, root, found, num, up, here) = init-IsEntry c room e in
    walk-number_at fs path root_inode c (root, found, num, here)
