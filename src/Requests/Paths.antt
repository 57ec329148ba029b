-- ===== src/Requests/Paths.antt =====
-- The paths that the kernel resolves, whatever requests came before.
use mathlib.Core.Option.{some-injective}
use sigfs.Base.{
  ℕ, ◌+◌, ◌<◌, ◌^◌, ◌≡◌, refl, sym, ap, ◌∙◌, true, false, List, [], ◌∷◌, ◌++◌, Option, none, some,
  arith, subst, Option-cases, inl, inr,
}
use sigfs.Fuse.{Stat, reply_entry, reply_err, enoent}
use sigfs.FileSystem.{
  FileSystem, Inode, Kind, directory, file, lookup_inode, root_inode, is_directory, find_entry,
}
use sigfs.FileSystem.Cascade.{IsTree}
use sigfs.FileSystem.Kept.{get_access_total}
use sigfs.FileSystem.Shape.{
  Shape, SameTree, SameTree-found, SameTree-IsTree, lookup_inode-inode, shape_of,
}
use sigfs.FileSystem.Build.{Config, init}
use sigfs.FileSystem.Build.Grown.{size}
use sigfs.FileSystem.Build.Root.{init-IsEntry}
use sigfs.FileSystem.Build.Walk.{step, walk, number_at, init_resolves, init_found}
use sigfs.Attributes.{do_lookup, reply_found}
use sigfs.Attributes.Mode.{stat_of}
use sigfs.Requests.{Served}
use sigfs.Requests.Tree.{setup_stat-some, live_at, reply_found-some, Served-SameTree}

-- The entry of a name, by what is known of a directory.
abbrev step_of : Option Shape → List ℕ → Option ℕ
step_of none name = none
step_of (some s) name = elim s.entries [ none ↦ none | some es ↦ find_entry name es ]

step-shape :
    (fs : FileSystem) (ino : ℕ) (name : List ℕ)
    → step fs ino name ≡ step_of (shape_of (lookup_inode fs ino)) name
unfolding step
step-shape fs ino name = ground arith

walk-none :
    (fs : FileSystem) (x : List ℕ) (xs : List (List ℕ)) (ino : ℕ)
    → step fs ino x ≡ none
    → walk fs (x ∷ xs) ino ≡ none
unfolding walk
walk-none fs x xs ino e = rw (walk, e) refl

walk-some :
    (fs : FileSystem) (x : List ℕ) (xs : List (List ℕ)) (ino k : ℕ)
    → step fs ino x ≡ some k
    → walk fs (x ∷ xs) ino ≡ walk fs xs k
unfolding walk
walk-some fs x xs ino k e = rw (walk, e) refl

walk-SameTree :
    (fs fs' : FileSystem) (path : List (List ℕ)) (ino : ℕ)
    → SameTree fs fs'
    → walk fs' path ino ≡ walk fs path ino
unfolding walk
walk-SameTree fs fs' [] ino same = refl
walk-SameTree fs fs' (x ∷ xs) ino same = elim (Option-cases (step fs ino x)) [
  | inl f ↦ walk-none fs' x xs ino (stepped ∙ f) ∙ sym (walk-none fs x xs ino f)
  | inr (k, f) ↦
      walk-some fs' x xs ino k (stepped ∙ f)
      ∙ walk-SameTree fs fs' xs k same
      ∙ sym (walk-some fs x xs ino k f)
]
  where
    stepped : step fs' ino x ≡ step fs ino x
    stepped = step-shape fs' ino x ∙ ap (λ o. step_of o x) (same ino) ∙ sym (step-shape fs ino x)

-- The last step of a path.
walk_last : (fs : FileSystem) (x : List ℕ) (d : ℕ) → walk fs (x ∷ []) d ≡ step fs d x
unfolding walk
walk_last fs x d = elim (Option-cases (step fs d x)) [
  | inl f ↦ walk-none fs x [] d f ∙ sym f
  | inr (k, f) ↦ walk-some fs x [] d k f ∙ sym f
]

walk-append :
    (fs : FileSystem) (path : List (List ℕ)) (x : List ℕ) (ino d : ℕ)
    → walk fs path ino ≡ some d
    → walk fs (path ++ (x ∷ [])) ino ≡ step fs d x
unfolding walk
walk-append fs [] x ino d e = ap (walk fs (x ∷ [])) (some-injective _ _ e) ∙ walk_last fs x d
walk-append fs (y ∷ ys) x ino d e = elim (Option-cases (step fs ino y)) [
  | inl f ↦ cc (sym (walk-none fs y ys ino f) ∙ e)
  | inr (k, f) ↦
      walk-some fs y (ys ++ (x ∷ [])) ino k f
      ∙ walk-append fs ys x k d (sym (walk-some fs y ys ino k f) ∙ e)
]

-- In the file system that the constructor makes of a configuration with fewer than 2^64 - 1
-- entries, and after any lookups, getattrs and opens, by any users and with any results: every path
-- leads from the root to the number of the entry that the configuration has at that path, and to
-- nothing if it has none.
pub Served_resolves :
    (c : Config) (fs0 : FileSystem) {fs : FileSystem} (path : List (List ℕ))
    → size c + 1 < 2 ^ 64
    → init c ≡ some fs0
    → Served fs0 fs
    → walk fs path root_inode ≡ number_at path root_inode c
Served_resolves c fs0 {fs} path room e served =
    walk-SameTree fs0 fs path root_inode (Served-SameTree fs0 served) ∙ init_resolves c path room e

-- What do_lookup replies, if the configuration has the number, or none, for the name.
abbrev pub Replies : FileSystem → ℕ → List ℕ → ℕ → ℕ → Option ℕ → Type 0
Replies fs d name uid gid none = do_lookup fs d name uid gid ≡ some (fs, reply_err enoent)
Replies fs d name uid gid (some k) =
    (fs' : FileSystem) × (st : Stat) × (do_lookup fs d name uid gid ≡ some (fs', reply_entry k st))
    × (st.st_ino ≡ k)

directory_kind :
    (n : Inode) → is_directory n ≡ true → (es : List (List ℕ × ℕ)) × (n.kind ≡ directory es)
unfolding is_directory
directory_kind n h = with_kind n.kind h
  where
    with_kind :
        (k : Kind)
        → elim k [ directory _ ↦ true | file _ _ ↦ false ] ≡ true
        → (es : List (List ℕ × ℕ)) × (k ≡ directory es)
    with_kind (directory es) e = (es, refl)
    with_kind (file length q) e = cc e

-- do_lookup in a directory, by what is found there.
do_lookup-step :
    (fs : FileSystem) (d : ℕ) (name : List ℕ) (uid gid : ℕ) (dir : Inode)
    → lookup_inode fs d ≡ some dir
    → is_directory dir ≡ true
    → do_lookup fs d name uid gid ≡ reply_found fs (step fs d name) uid gid
unfolding do_lookup step
do_lookup-step fs d name uid gid dir e h =
    let (es, kind) = directory_kind dir h in rw (do_lookup, step, e, kind) refl

-- An entry that is there is told to the kernel.
found_lookup :
    (fs : FileSystem) (d : ℕ) (name : List ℕ) (uid gid : ℕ) (k : ℕ) (dir m : Inode)
    → IsTree fs
    → lookup_inode fs d ≡ some dir
    → is_directory dir ≡ true
    → step fs d name ≡ some k
    → lookup_inode fs k ≡ some m
    → Replies fs d name uid gid (some k)
found_lookup fs d name uid gid k dir m tree there h next found =
    let (fs', r, w, run, tree') = get_access_total fs m uid gid tree (live_at fs k m found) in
    (
      fs',
      stat_of m uid gid r w,
      do_lookup-step fs d name uid gid dir there h
          ∙ ap (λ o. reply_found fs o uid gid) next
          ∙ reply_found-some fs fs' k uid gid m (stat_of m uid gid r w) found
              (setup_stat-some fs fs' m uid gid r w run)
          ∙ ap (λ i. some (fs', reply_entry i (stat_of m uid gid r w)))
              (lookup_inode-inode fs k m found),
      lookup_inode-inode fs k m found,
    )

-- In the file system that the constructor makes of a configuration with fewer than 2^64 - 1
-- entries, after any lookups, getattrs and opens: do_lookup of a name in the directory that the
-- configuration has at a path replies with an entry of the number that the configuration has at the
-- path with the name behind it, and ENOENT, with nothing changed, if it has none there.
pub Served_lookup :
    (c : Config) (fs0 : FileSystem) {fs : FileSystem} (path : List (List ℕ)) (name : List ℕ)
    (d uid gid : ℕ) (dir : Inode)
    → size c + 1 < 2 ^ 64
    → init c ≡ some fs0
    → Served fs0 fs
    → number_at path root_inode c ≡ some d
    → lookup_inode fs d ≡ some dir
    → is_directory dir ≡ true
    → Replies fs d name uid gid (number_at (path ++ (name ∷ [])) root_inode c)
unfolding reply_found
Served_lookup c fs0 {fs} path name d uid gid dir room e served at found h =
    elim (Option-cases (number_at (path ++ (name ∷ [])) root_inode c)) [
      | inl f ↦ subst (Replies fs d name uid gid) (sym f) (
          do_lookup-step fs d name uid gid dir found h
          ∙ ap (λ o. reply_found fs o uid gid) (next ∙ f))
      | inr (k, f) ↦
          let (m0, there) = init_found c (path ++ (name ∷ [])) k room e f in
          let (m, here, shaped) = SameTree-found fs0 fs k m0 (Served-SameTree fs0 served) there in
          subst (Replies fs d name uid gid) (sym f) (
            found_lookup fs d name uid gid k dir m
              (SameTree-IsTree fs0 fs (Served-SameTree fs0 served) (init-IsEntry c room e).0) found
              h (next ∙ f) here)
    ]
  where
    next : step fs d name ≡ number_at (path ++ (name ∷ [])) root_inode c
    next =
        sym (walk-append fs path name root_inode d (Served_resolves c fs0 path room e served ∙ at))
        ∙ Served_resolves c fs0 (path ++ (name ∷ [])) room e served
