-- ===== src/FileSystem/Saved/Written.antt =====
-- When a saved entry tells what the file system has, and that to_config then writes it.
use sigfs.Base.{
  ℕ, zero, suc, ◌≤◌, ◌≡◌, refl, sym, ap, Bool, true, false, List, [], ◌∷◌, Option, some, arith, max,
  if◌then◌else◌, subst,
}
use sigfs.Queue.{Queue}
use sigfs.FileSystem.{FileSystem, Inode, directory, file, lookup_inode, same_name}
use sigfs.FileSystem.Build.{name_before, insert_entry}
use sigfs.FileSystem.Build.Grown.{Keeps}
use sigfs.FileSystem.Saved.{
  Saved, SavedEntries, saved_file, saved_directory, end, entry, inode_to_config, entries_to_config,
  to_config,
}

abbrev pub saved_name : Saved → List ℕ
saved_name (saved_file f) = f.name
saved_name (saved_directory f es) = f.name

-- In the order of the names; the first of a name stays.
abbrev pub placed : Saved → SavedEntries → SavedEntries
placed s end = entry s end
placed s (entry t ts) =
    let rest = placed s ts in
    if same_name (saved_name s) (saved_name t)
    then entry t ts
    else if name_before (saved_name s) (saved_name t)
    then entry s (entry t ts)
    else entry t rest

-- An entry of the file system, with all below it, is what a saved one tells.
abbrev mutual
  pub Written : FileSystem → Inode → Saved → Type 0
  Written fs n (saved_file f) =
      (length : ℕ) × (q : Option Queue) × (n.kind ≡ file length q) × (inode_to_config n ≡ f)
  Written fs n (saved_directory f ds) =
      (es : List (List ℕ × ℕ)) × (n.kind ≡ directory es)
      × (inode_to_config n ≡ f)
      × AllWritten fs es ds

  pub AllWritten : FileSystem → List (List ℕ × ℕ) → SavedEntries → Type 0
  AllWritten fs [] end = Unit {0}
  AllWritten fs [] (entry s ss) = ⊥
  AllWritten fs ((name, ino) ∷ es) end = ⊥
  AllWritten fs ((name, ino) ∷ es) (entry s ss) =
      ((m : Inode) × (lookup_inode fs ino ≡ some m) × (name ≡ saved_name s) × Written fs m s)
      × AllWritten fs es ss

mutual
  pub Written-Keeps :
      (s : Saved) (fs fs' : FileSystem) (n : Inode)
      → Keeps fs fs'
      → Written fs n s
      → Written fs' n s
  Written-Keeps (saved_file f) fs fs' n k w = w
  Written-Keeps (saved_directory f ds) fs fs' n k (es, kind, same, below) =
      (es, kind, same, AllWritten-Keeps ds fs fs' es k below)

  pub AllWritten-Keeps :
      (ds : SavedEntries) (fs fs' : FileSystem) (es : List (List ℕ × ℕ))
      → Keeps fs fs'
      → AllWritten fs es ds
      → AllWritten fs' es ds
  AllWritten-Keeps end fs fs' [] k w = tt
  AllWritten-Keeps end fs fs' (e ∷ es) k w = w
  AllWritten-Keeps (entry s ss) fs fs' [] k w = w
  AllWritten-Keeps (entry s ss) fs fs' ((name, ino) ∷ es) k ((m, l, named, w), rest) =
      ((m, k ino m l, named, Written-Keeps s fs fs' m k w), AllWritten-Keeps ss fs fs' es k rest)

abbrev mutual
  pub height : Saved → ℕ
  height (saved_file f) = 1
  height (saved_directory f ds) = suc (heights ds)

  pub heights : SavedEntries → ℕ
  heights end = 0
  heights (entry s ss) = max (height s) (heights ss)

entries_nil :
    (save : Inode → Option Saved) (fs : FileSystem) → entries_to_config save fs [] ≡ some end
unfolding entries_to_config
entries_nil save fs = refl

entries_cons :
    (save : Inode → Option Saved) (fs : FileSystem) (name : List ℕ) (ino : ℕ)
    (es : List (List ℕ × ℕ)) (m : Inode) (s : Saved) (ss : SavedEntries)
    → lookup_inode fs ino ≡ some m
    → save m ≡ some s
    → entries_to_config save fs es ≡ some ss
    → entries_to_config save fs ((name, ino) ∷ es) ≡ some (entry s ss)
unfolding entries_to_config
entries_cons save fs name ino es m s ss l w rest = rw (entries_to_config, l, w, rest) refl

mutual
  unfolding to_config

  pub to_config-Written :
      (s : Saved) (fuel : ℕ) (fs : FileSystem) (n : Inode)
      → height s ≤ fuel
      → Written fs n s
      → to_config fuel fs n ≡ some s
  to_config-Written (saved_file f) zero fs n h w = absurd (omega arith)
  to_config-Written (saved_directory f ds) zero fs n h w = absurd (omega arith)
  to_config-Written (saved_file f) (suc fuel) fs n h (length, q, kind, same) =
      rw (to_config, kind) (ap (λ t. some (saved_file t)) same)
  to_config-Written (saved_directory f ds) (suc fuel) fs n h (es, kind, same, below) =
      rw (to_config, kind, entries_to_config-AllWritten ds fuel fs es (omega arith) below)
        (ap (λ t. some (saved_directory t ds)) same)

  entries_to_config-AllWritten :
      (ds : SavedEntries) (fuel : ℕ) (fs : FileSystem) (es : List (List ℕ × ℕ))
      → heights ds ≤ fuel
      → AllWritten fs es ds
      → entries_to_config (to_config fuel fs) fs es ≡ some ds
  entries_to_config-AllWritten end fuel fs [] h w = entries_nil (to_config fuel fs) fs
  entries_to_config-AllWritten end fuel fs (e ∷ es) h w = absurd w
  entries_to_config-AllWritten (entry s ss) fuel fs [] h w = absurd w
  entries_to_config-AllWritten (entry s ss) fuel fs ((name, ino) ∷ es) h ((m, l, named, w), rest) =
      entries_cons (to_config fuel fs) fs name ino es m s ss l
        (to_config-Written s fuel fs m (omega arith) w)
        (entries_to_config-AllWritten ss fuel fs es (omega arith) rest)

-- Both lists are changed by the same tests.
pick :
    (fs : FileSystem) (es1 es2 es3 : List (List ℕ × ℕ)) (ds1 ds2 ds3 : SavedEntries) (a b : Bool)
    → AllWritten fs es1 ds1
    → AllWritten fs es2 ds2
    → AllWritten fs es3 ds3
    → AllWritten fs
        (if a then es1 else if b then es2 else es3)
        (if a then ds1 else if b then ds2 else ds3)
pick fs es1 es2 es3 ds1 ds2 ds3 true b w1 w2 w3 = w1
pick fs es1 es2 es3 ds1 ds2 ds3 false true w1 w2 w3 = w2
pick fs es1 es2 es3 ds1 ds2 ds3 false false w1 w2 w3 = w3

-- An entry that is put into the map, and its saved one into the list.
pub insert_entry-AllWritten :
    (fs : FileSystem) (ino : ℕ) (m : Inode) (s : Saved) (es : List (List ℕ × ℕ)) (ds : SavedEntries)
    → lookup_inode fs ino ≡ some m
    → Written fs m s
    → AllWritten fs es ds
    → AllWritten fs (insert_entry (saved_name s) ino es) (placed s ds)
unfolding insert_entry
insert_entry-AllWritten fs ino m s [] end l w all = ((m, l, refl, w), tt)
insert_entry-AllWritten fs ino m s [] (entry d ds) l w all = absurd all
insert_entry-AllWritten fs ino m s (e ∷ es) end l w all = absurd all
insert_entry-AllWritten fs ino m s ((k, j) ∷ es) (entry d ds) l w ((m', l', named, w'), all) =
    subst
      (λ t. AllWritten fs (insert_entry (saved_name s) ino ((t, j) ∷ es)) (placed s (entry d ds)))
      (sym named)
      (pick fs ((saved_name d, j) ∷ es) ((saved_name s, ino) ∷ (saved_name d, j) ∷ es)
        ((saved_name d, j) ∷ insert_entry (saved_name s) ino es) (entry d ds) (entry s (entry d ds))
        (entry d (placed s ds)) (same_name (saved_name s) (saved_name d))
        (name_before (saved_name s) (saved_name d)) (old, all) (new, (old, all))
        (old, insert_entry-AllWritten fs ino m s es ds l w all))
  where
    new :
        (n : Inode) × (lookup_inode fs ino ≡ some n)
        × (saved_name s ≡ saved_name s)
        × Written fs n s
    new = (m, l, refl, w)

    old :
        (n : Inode) × (lookup_inode fs j ≡ some n) × (saved_name d ≡ saved_name d) × Written fs n d
    old = (m', l', refl, w')
