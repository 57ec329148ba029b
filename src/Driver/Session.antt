-- ===== src/Driver/Session.antt =====
-- What main acquires and releases, the vector that it passes to libfuse, and its exit code.
use sigfs.Base.{
  leb, ◌||◌, Bool, if◌then◌else◌, ℕ, ◌+◌, ◌≤◌, ◌≡◌, ◌≢◌, true, false, List, [], ◌∷◌, ◌++◌, Option,
  none, some, arith, length, length-append, append_assoc, append-nil,
}
use sigfs.Driver.{
  Getopt, config_opt, unknown_opt, Args, Opts, Results, Step, fuse_max_argv, add_arg, read_options,
  copy_rest, split_args, session_new, set_signal_handlers, session_mount, session_loop,
  session_loop_mt, session_unmount, remove_signal_handlers, session_destroy,
}

-- Nested brackets: what is acquired is given back behind everything that it was needed for, and
-- what cannot be acquired ends the way in.
abbrev pub bracketed : List (Bool × (Bool → Step) × Step) → List Step → List Step
bracketed [] body = body
bracketed ((ok, acquire, undo) ∷ rest) body =
    acquire ok ∷ (if ok then bracketed rest body ++ (undo ∷ []) else [])

-- What the program needs, from the outside in.
abbrev pub needed : Results → List (Bool × (Bool → Step) × Step)
needed r =
    (r.session_new, session_new, session_destroy)
    ∷ (r.set_signal_handlers, set_signal_handlers, remove_signal_handlers)
    ∷ (r.session_mount, session_mount, session_unmount)
    ∷ []

-- The loop on one thread, or on several, of which 10 may be idle when the options do not say how
-- many.
abbrev pub looped : Opts → Step
looped o =
    if o.singlethread
    then session_loop
    else session_loop_mt (elim o.max_idle_threads [ none ↦ 10 | some n ↦ n ])

abbrev pub is_short : Opts → Bool
is_short o = o.show_help || o.show_version || elim o.mountpoint [ none ↦ true | some m ↦ false ]

-- The program served the mount point to the end of its loop, which returned 0.
abbrev pub IsServed : Opts → Results → Type 0
IsServed o r =
    (o.mountpoint ≢ none)
    × (r.session_new ≡ true)
    × (r.set_signal_handlers ≡ true)
    × (r.session_mount ≡ true)
    × (r.session_loop ≡ 0)

abbrev pub unknown : List Getopt → List (List ℕ)
unknown [] = []
unknown (config_opt name ∷ os) = unknown os
unknown (unknown_opt arg ∷ os) = arg ∷ unknown os

abbrev pub last_config : List Getopt → List ℕ → List ℕ
last_config [] name = name
last_config (config_opt name' ∷ os) name = last_config os name'
last_config (unknown_opt arg ∷ os) name = last_config os name

-- The vector has room for more.
abbrev pub fits : List (List ℕ) → List (List ℕ) → Option (List (List ℕ))
fits argv more = if leb (length argv + length more) fuse_max_argv then some (argv ++ more) else none

copy_rest_lem :
    (rest argv : List (List ℕ)) → length argv ≤ fuse_max_argv → copy_rest rest argv ≡ fits argv rest
unfolding copy_rest add_arg
copy_rest_lem [] argv h = ground (arith, append-nil argv)
copy_rest_lem (arg ∷ rest) argv h = ground (
  arith,
  copy_rest_lem rest (argv ++ (arg ∷ [])),
  length-append argv (arg ∷ []),
  append_assoc argv (arg ∷ []) rest,
)

read_options_lem :
    (os : List Getopt) (a : Args)
    → length a.fuse_argv ≤ fuse_max_argv
    → read_options os a ≡ elim (fits a.fuse_argv (unknown os)) [
      | none ↦ none
      | some argv ↦ some (record { config_file = last_config os a.config_file; fuse_argv = argv })
    ]
unfolding read_options add_arg
read_options_lem [] a h = ground (arith, append-nil a.fuse_argv)
read_options_lem (config_opt name ∷ os) a h =
    read_options_lem os (record a { config_file = name }) h
read_options_lem (unknown_opt arg ∷ os) a h = ground (
  arith,
  read_options_lem os (record a { fuse_argv = a.fuse_argv ++ (arg ∷ []) }),
  length-append a.fuse_argv (arg ∷ []),
  append_assoc a.fuse_argv (arg ∷ []) (unknown os),
)

-- The loops over the command line of main leave for libfuse the program's name, the arguments that
-- getopt_long does not know, and the rest, in order, and for the driver the last configuration
-- named, if these, with the null behind them, are 1024 at most, which is the size of fuse_argv;
-- with more of them, main exits.
pub split_args_lem :
    (program : List ℕ) (os : List Getopt) (rest : List (List ℕ))
    → split_args program os rest ≡ (
        if leb (1 + length (unknown os) + length rest + 1) 1024
        then some
            (record { config_file = last_config os []; fuse_argv = program ∷ unknown os ++ rest })
        else none)
unfolding split_args
split_args_lem program os rest = ground (
  arith,
  read_options_lem os (record { config_file = []; fuse_argv = program ∷ [] }) (omega arith),
  copy_rest_lem rest (program ∷ unknown os),
)
