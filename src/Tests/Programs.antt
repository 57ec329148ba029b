-- ===== src/Tests/Programs.antt =====
-- The programs on small command lines, replies and results.
use sigfs.Base.{ℕ, ◌≡◌, refl, true, false, List, [], ◌∷◌, none, some, arith}
use sigfs.Base.Int.{pos}
use sigfs.Queue.History.{Retains}
use sigfs.Channel.{Channel}
use sigfs.Read.Gathering.{Sent}
use sigfs.Client.Publish
use sigfs.Client.Publish.Writes.{write_all, main_writes}
use sigfs.Client.Subscribe
use sigfs.Driver.{
  session_new, set_signal_handlers, config_opt, unknown_opt, Opts, Results, split_args,
}
use sigfs.Driver.Session.{split_args_lem}
use sigfs.Tests.Runs.{opened}
use sigfs.Tests.Channels.{opened-IsSound}

-- publish -d "A" -f "f" -c 2
abbrev publish_opts : List Publish.Opt
publish_opts =
    Publish.data_opt (65 ∷ []) ∷ Publish.file_opt (102 ∷ []) ∷ Publish.count_opt (some (pos 2)) ∷ []

abbrev as_it_is : List ℕ → ℕ → List ℕ
as_it_is fmt i = fmt

publish_chosen :
    Publish.read_options publish_opts Publish.defaults
    ≡ Publish.chosen (record { fmt_string = 65 ∷ []; file = 102 ∷ []; count = pos 2 })
unfolding Publish.read_options
publish_chosen = refl

main_writes_example :
    (writes : List (List ℕ)) × (ch' : Channel) × (Publish.main as_it_is publish_opts true
        (true ∷ true ∷ [])
      ≡ (writes, Publish.finished))
    × (write_all opened writes ≡ some ch')
    × Retains ((65 ∷ []) ∷ (65 ∷ []) ∷ []) ch'.queue
main_writes_example =
    main_writes as_it_is publish_opts 65 102 2 [] [] [] opened publish_chosen (λ i. omega arith)
      (omega arith) opened-IsSound.holds (omega arith)

-- subscribe -f "f" -c 1, and a reply of two signals
abbrev subscribe_opts : List Subscribe.Opt
subscribe_opts = Subscribe.file_opt (102 ∷ []) ∷ Subscribe.count_opt (some (pos 1)) ∷ []

abbrev reply : List Sent
reply =
    (record { lost_signals = 2; signal_id = 3; payload_size = 1 }, 65 ∷ [])
    ∷ (record { lost_signals = 0; signal_id = 4; payload_size = 0 }, [])
    ∷ []

-- A mount whose session cannot handle signals.
abbrev mount : Opts
mount = record {
  show_help = false;
  show_version = false;
  mountpoint = some (109 ∷ []);
  singlethread = false;
  max_idle_threads = none;
}

abbrev no_handlers : Results
no_handlers = record {
  session_new = true;
  set_signal_handlers = false;
  session_mount = true;
  session_loop = 0;
}

-- sigfs -d -c "c" "m"
split_args_lem_example :
    split_args
      (115 ∷ [])
      (unknown_opt (45 ∷ 100 ∷ []) ∷ config_opt (99 ∷ []) ∷ [])
      ((109 ∷ []) ∷ [])
    ≡ some (record {
      config_file = 99 ∷ [];
      fuse_argv = (115 ∷ []) ∷ (45 ∷ 100 ∷ []) ∷ (109 ∷ []) ∷ [];
    })
split_args_lem_example =
    split_args_lem (115 ∷ []) (unknown_opt (45 ∷ 100 ∷ []) ∷ config_opt (99 ∷ []) ∷ [])
      ((109 ∷ []) ∷ [])
