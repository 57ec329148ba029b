-- ===== src/Requests/Tree.antt =====
-- The requests of the kernel change no number, name or entry of the tree.
use mathlib.Core.Option.{some-injective}
use sigfs.Base.{
  ℕ, ◌≡◌, refl, sym, ap, ◌∙◌, Bool, ◌⊎◌, List, Option, none, some, arith, subst, Bool-cases, inl,
  inr,
}
use sigfs.Fuse.{Stat, Call, reply_entry, reply_err, eacces, eisdir}
use sigfs.FileSystem.{
  FileSystem, Inode, Kind, directory, file, lookup_inode, get_access, is_file, find_entry, queue,
  store_inode,
}
use sigfs.FileSystem.Shape.{SameTree, get_access-SameTree, queue-SameTree, lookup_inode-inode}
use sigfs.Open.{OpenEnd, refused, do_open, check_flags, subscribe}
use sigfs.Attributes.{do_lookup, do_getattr, setup_stat, reply_found}
use sigfs.Attributes.Mode.{stat_of}
use sigfs.Requests.{Served, start, lookup, getattr, open_file}

SameTree-refl : (fs : FileSystem) → SameTree fs fs
SameTree-refl fs k = refl

-- A chain that returned something.
bind_some {ℓ κ} :
    {A : Type ℓ} {B : Type κ} (o : Option A) (f : A → Option B) {b : B}
    → elim o [ none ↦ none | some a ↦ f a ] ≡ some b
    → (a : A) × (o ≡ some a) × (f a ≡ some b)
bind_some none f e = cc e
bind_some (some a) f e = (a, refl, e)

-- An entry is found under its own number.
pub live_at :
    (fs : FileSystem) (k : ℕ) (n : Inode)
    → lookup_inode fs k ≡ some n
    → lookup_inode fs n.inode ≡ some n
live_at fs k n e = ap (lookup_inode fs) (lookup_inode-inode fs k n e) ∙ e

-- The file system of a result.
resulting {ℓ} :
    {A : Type ℓ} (fs fs1 fs' : FileSystem) (x y : A)
    → ◌≡◌ {A = Option (FileSystem × A)} (some (fs1, x)) (some (fs', y))
    → SameTree fs fs1
    → SameTree fs fs'
resulting fs fs1 fs' x y e same = subst (SameTree fs) (ap (λ p. p.0) (some-injective _ _ e)) same

pub setup_stat-some :
    (fs fs' : FileSystem) (n : Inode) (uid gid : ℕ) (r w : Bool)
    → get_access fs n uid gid ≡ some (fs', r, w)
    → setup_stat fs n uid gid ≡ some (fs', stat_of n uid gid r w)
unfolding setup_stat
setup_stat-some fs fs' n uid gid r w e = rw (setup_stat, e) refl

setup_stat-SameTree :
    (fs fs' : FileSystem) (n : Inode) (uid gid : ℕ) (st : Stat)
    → lookup_inode fs n.inode ≡ some n
    → setup_stat fs n uid gid ≡ some (fs', st)
    → SameTree fs fs'
unfolding setup_stat
setup_stat-SameTree fs fs' n uid gid st live e =
    let ((fs1, r, w), run, rest) = bind_some (get_access fs n uid gid) _ e in
    resulting fs fs1 fs' _ _ rest (get_access-SameTree fs fs1 n uid gid r w live run)

pub reply_found-some :
    (fs fs' : FileSystem) (k uid gid : ℕ) (n : Inode) (st : Stat)
    → lookup_inode fs k ≡ some n
    → setup_stat fs n uid gid ≡ some (fs', st)
    → reply_found fs (some k) uid gid ≡ some (fs', reply_entry n.inode st)
unfolding reply_found
reply_found-some fs fs' k uid gid n st found run = rw (reply_found, found, run) refl

reply_found-SameTree :
    (fs fs' : FileSystem) (o : Option ℕ) (uid gid : ℕ) (call : Call)
    → reply_found fs o uid gid ≡ some (fs', call)
    → SameTree fs fs'
unfolding reply_found
reply_found-SameTree fs fs' none uid gid call e = resulting fs fs fs' _ _ e (SameTree-refl fs)
reply_found-SameTree fs fs' (some k) uid gid call e =
    let (n, found, rest) = bind_some (lookup_inode fs k) _ e in
    let ((fs1, st), run, reply) = bind_some (setup_stat fs n uid gid) _ rest in
    resulting fs fs1 fs' _ _ reply
      (setup_stat-SameTree fs fs1 n uid gid st (live_at fs k n found) run)

in_directory :
    (fs fs' : FileSystem) (k : Kind) (name : List ℕ) (uid gid : ℕ) (call : Call)
    → elim k [
      | file _ _ ↦ none
      | directory entries ↦ reply_found fs (find_entry name entries) uid gid
    ]
      ≡ some (fs', call)
    → SameTree fs fs'
in_directory fs fs' (file length q) name uid gid call e = cc e
in_directory fs fs' (directory es) name uid gid call e =
    reply_found-SameTree fs fs' (find_entry name es) uid gid call e

do_lookup-SameTree :
    (fs fs' : FileSystem) (dir : ℕ) (name : List ℕ) (uid gid : ℕ) (call : Call)
    → do_lookup fs dir name uid gid ≡ some (fs', call)
    → SameTree fs fs'
unfolding do_lookup
do_lookup-SameTree fs fs' dir name uid gid call e =
    let (n, found, rest) = bind_some (lookup_inode fs dir) _ e in
    in_directory fs fs' n.kind name uid gid call rest

do_getattr-SameTree :
    (fs fs' : FileSystem) (ino uid gid : ℕ) (call : Call)
    → do_getattr fs ino uid gid ≡ some (fs', call)
    → SameTree fs fs'
unfolding do_getattr
do_getattr-SameTree fs fs' ino uid gid call e =
    let (n, found, rest) = bind_some (lookup_inode fs ino) _ e in
    let ((fs1, st), run, reply) = bind_some (setup_stat fs n uid gid) _ rest in
    resulting fs fs1 fs' _ _ reply
      (setup_stat-SameTree fs fs1 n uid gid st (live_at fs ino n found) run)

subscribe-SameTree :
    (fs fs' : FileSystem) (ino sub_id : ℕ) (end : OpenEnd)
    → subscribe fs ino sub_id ≡ some (fs', end)
    → SameTree fs fs'
unfolding subscribe
subscribe-SameTree fs fs' ino sub_id end e =
    let (n, found, rest) = bind_some (lookup_inode fs ino) _ e in
    let ((n', q), run, reply) = bind_some (queue n) _ rest in
    resulting fs (store_inode fs n') fs' _ _ reply
      (queue-SameTree fs n n' q (live_at fs ino n found) run)

check_flags_cases :
    (fs : FileSystem) (ino flags sub_id : ℕ) (r w : Bool)
    → (check_flags fs ino flags sub_id r w ≡ some (fs, refused (reply_err eacces)))
      ⊎ (check_flags fs ino flags sub_id r w ≡ subscribe fs ino sub_id)
unfolding check_flags
check_flags_cases fs ino flags sub_id r w = ground arith

check_flags-SameTree :
    (fs fs' : FileSystem) (ino flags sub_id : ℕ) (r w : Bool) (end : OpenEnd)
    → check_flags fs ino flags sub_id r w ≡ some (fs', end)
    → SameTree fs fs'
check_flags-SameTree fs fs' ino flags sub_id r w end e =
    elim (check_flags_cases fs ino flags sub_id r w) [
      | inl refusal ↦ resulting fs fs fs' _ _ (sym refusal ∙ e) (SameTree-refl fs)
      | inr on ↦ subscribe-SameTree fs fs' ino sub_id end (sym on ∙ e)
    ]

do_open_cases :
    (fs : FileSystem) (ino uid gid flags sub_id : ℕ) (n : Inode)
    → lookup_inode fs ino ≡ some n
    → (do_open fs ino uid gid flags sub_id ≡ some (fs, refused (reply_err eisdir)))
      ⊎ (do_open fs ino uid gid flags sub_id ≡ elim (get_access fs n uid gid) [
        | none ↦ none
        | some (fs', r, w) ↦ check_flags fs' ino flags sub_id r w
      ])
unfolding do_open
do_open_cases fs ino uid gid flags sub_id n e = elim (Bool-cases (is_file n)) [
  | inl f ↦ inr (rw (do_open, e, f) refl)
  | inr f ↦ inl (rw (do_open, e, f) refl)
]

SameTree-trans : (fs1 fs2 fs3 : FileSystem) → SameTree fs1 fs2 → SameTree fs2 fs3 → SameTree fs1 fs3
SameTree-trans fs1 fs2 fs3 first second k = second k ∙ first k

do_open-SameTree :
    (fs fs' : FileSystem) (ino uid gid flags sub_id : ℕ) (end : OpenEnd)
    → do_open fs ino uid gid flags sub_id ≡ some (fs', end)
    → SameTree fs fs'
unfolding do_open
do_open-SameTree fs fs' ino uid gid flags sub_id end e =
    let (n, found, rest) = bind_some (lookup_inode fs ino) _ e in
    elim (do_open_cases fs ino uid gid flags sub_id n found) [
      | inl refusal ↦ resulting fs fs fs' _ _ (sym refusal ∙ e) (SameTree-refl fs)
      | inr on ↦
          let ((fs1, r, w), run, checks) = bind_some (get_access fs n uid gid) _ (sym on ∙ e) in
          SameTree-trans fs fs1 fs'
            (get_access-SameTree fs fs1 n uid gid r w (live_at fs ino n found) run)
            (check_flags-SameTree fs1 fs' ino flags sub_id r w end checks)
    ]

-- Requests never change the tree.
pub Served-SameTree : (fs0 : FileSystem) {fs : FileSystem} → Served fs0 fs → SameTree fs0 fs
Served-SameTree fs0 start = SameTree-refl fs0
Served-SameTree fs0 (lookup {fs} s dir name uid gid fs' call e) =
    SameTree-trans fs0 fs fs' (Served-SameTree fs0 s)
      (do_lookup-SameTree fs fs' dir name uid gid call e)
Served-SameTree fs0 (getattr {fs} s ino uid gid fs' call e) =
    SameTree-trans fs0 fs fs' (Served-SameTree fs0 s)
      (do_getattr-SameTree fs fs' ino uid gid call e)
Served-SameTree fs0 (open_file {fs} s ino uid gid flags sub_id fs' end e) =
    SameTree-trans fs0 fs fs' (Served-SameTree fs0 s)
      (do_open-SameTree fs fs' ino uid gid flags sub_id end e)
