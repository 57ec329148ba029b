-- ===== src/Driver.antt =====
-- sigfs.cc, main: the command line, the file system from the configuration, and the life of the FUSE
-- session. What getopt_long returns, the configuration's text as JSON, and the results of libfuse's
-- calls are arguments.
pub mod Session
use sigfs.Base.{
  ℕ, zero, suc, Bool, true, false, List, [], ◌∷◌, ◌++◌, Option, none, some, ◌==◌, if◌then◌else◌,
  length,
}
use sigfs.FileSystem.{FileSystem}
use sigfs.FileSystem.Build.{Config, init}

-- An option that getopt_long returns: -c with its argument, or '?' with argv[optind - 1].
pub data Getopt : Type 0 where
  config_opt : List ℕ → Getopt
  unknown_opt : List ℕ → Getopt

pub record Args : Type 0 where
  pub config_file : List ℕ
  pub fuse_argv : List (List ℕ)

-- The last of the 1024 places of fuse_argv is for the null at the end.
abbrev pub fuse_max_argv : ℕ
fuse_max_argv = 1023

-- `none` is exit(255).
unfoldable pub add_arg : List (List ℕ) → List ℕ → Option (List (List ℕ))
add_arg argv arg = if length argv == fuse_max_argv then none else some (argv ++ (arg ∷ []))

-- The loop over the options.
unfoldable pub read_options : List Getopt → Args → Option Args
read_options [] a = some a
read_options (config_opt name ∷ os) a = read_options os (record a { config_file = name })
read_options (unknown_opt arg ∷ os) a = elim (add_arg a.fuse_argv arg) [
  | none ↦ none
  | some argv ↦ read_options os (record a { fuse_argv = argv })
]

-- The loop over what is left of argv.
unfoldable pub copy_rest : List (List ℕ) → List (List ℕ) → Option (List (List ℕ))
copy_rest [] argv = some argv
copy_rest (arg ∷ rest) argv = elim (add_arg argv arg) [
  | none ↦ none
  | some argv' ↦ copy_rest rest argv'
]

-- The vector for fuse_parse_cmdline, and the configuration's name.
unfoldable pub split_args : List ℕ → List Getopt → List (List ℕ) → Option Args
unfolding read_options copy_rest
split_args program os rest =
    elim (read_options os (record { config_file = []; fuse_argv = program ∷ [] })) [
      | none ↦ none
      | some a ↦ elim (copy_rest rest a.fuse_argv) [
        | none ↦ none
        | some argv ↦ some (record a { fuse_argv = argv })
      ]
    ]

-- struct fuse_cmdline_opts
pub record Opts : Type 0 where
  pub show_help : Bool
  pub show_version : Bool
  pub mountpoint : Option (List ℕ)
  pub singlethread : Bool
  pub max_idle_threads : Option ℕ

-- What libfuse's calls return: whether the first three succeed, and the value of the loop.
pub record Results : Type 0 where
  pub session_new : Bool
  pub set_signal_handlers : Bool
  pub session_mount : Bool
  pub session_loop : ℕ

-- The calls of libfuse. max_idle_threads is `none` if it is UINT_MAX.
pub data Step : Type 0 where
  session_new set_signal_handlers session_mount : Bool → Step
  session_loop : Step
  session_loop_mt : ℕ → Step
  session_unmount remove_signal_handlers session_destroy free_opts : Step

-- The labels at the end of main.
abbrev pub err_out1 : List Step
err_out1 = free_opts ∷ []

abbrev pub err_out2 : List Step
err_out2 = session_destroy ∷ err_out1

abbrev pub err_out3 : List Step
err_out3 = remove_signal_handlers ∷ err_out2

unfoldable pub idle_threads : Option ℕ → ℕ
idle_threads none = 10
idle_threads (some n) = n

unfoldable pub run_loop : Opts → Step
unfolding idle_threads
run_loop o =
    if o.singlethread then session_loop else session_loop_mt (idle_threads o.max_idle_threads)

-- `ret ? 1 : 0`
unfoldable pub exit_code : ℕ → ℕ
exit_code zero = 0
exit_code (suc ret) = 1

-- main from the options on, with its exit code.
unfoldable pub run_session : Opts → Results → List Step × ℕ
unfolding run_loop exit_code
run_session o r =
    if o.show_help
    then (err_out1, 0)
    else if o.show_version
    then (err_out1, 0)
    else elim o.mountpoint [
      | none ↦ (err_out1, 1)
      | some m ↦
          if r.session_new
          then if r.set_signal_handlers
            then if r.session_mount
              then (
                session_new true
                    ∷ set_signal_handlers true
                    ∷ session_mount true
                    ∷ run_loop o
                    ∷ session_unmount
                    ∷ err_out3,
                exit_code r.session_loop,
              )
              else (session_new true ∷ set_signal_handlers true ∷ session_mount false ∷ err_out3, 1)
            else (session_new true ∷ set_signal_handlers false ∷ err_out2, 1)
          else (session_new false ∷ err_out1, 1)
    ]

-- How main ends: with abort() or an exception, or with an exit code, after the calls of libfuse, and
-- with the file system that it served, if it came to that.
pub data Ended : Type 0 where
  aborted : Ended
  exited : List Step → Option FileSystem → ℕ → Ended

-- The configuration is a file that cannot be opened, no JSON, or a Config. fuse_parse_cmdline fails
-- with `none`.
pub data Stream : Type 0 where
  closed malformed : Stream
  configured : Config → Stream

unfoldable serve : FileSystem → Option Opts → Results → Ended
unfolding run_session
serve fs none r = exited [] (some fs) 255
serve fs (some o) r = let (steps, code) = run_session o r in exited steps (some fs) code

unfoldable load : Stream → Option Opts → Results → Ended
unfolding init serve
load closed o r = exited [] none 1
load malformed o r = aborted
load (configured c) o r = elim (init c) [ none ↦ aborted | some fs ↦ serve fs o r ]

unfoldable pub main :
    List ℕ
    → List Getopt
    → List (List ℕ)
    → (List ℕ → Stream)
    → (List (List ℕ) → Option Opts)
    → Results
    → Ended
unfolding split_args load
main program os rest open_config parse_cmdline r = elim (split_args program os rest) [
  | none ↦ exited [] none 255
  | some a ↦ elim a.config_file [
    | [] ↦ exited [] none 255
    | c ∷ cs ↦ load (open_config (c ∷ cs)) (parse_cmdline a.fuse_argv) r
  ]
]
