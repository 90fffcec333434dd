-- ===== src/Commands/Tests.antt =====
-- The theorems on the commands, with files in a list, a logger that does not write, and a network that
-- counts its servers.
use xmongodb.Common.{ℕ, ◌+◌, ◌-◌, ◌≡◌, refl, true, ◌⊎◌, none, [], ◌∷◌, done, ok, err}
use xmongodb.Bytes.{Bytes, lex}
use xmongodb.RecordId.Text.{codes}
use xmongodb.Dict
use xmongodb.Dict.{Dict}
use xmongodb.Os.Memory.{Node, file, memory, memory-IsLawful}
use xmongodb.Config.{defaults}
use xmongodb.Config.Load.{default_content}
use xmongodb.Config.Loading.{View, nothing_known}
use xmongodb.Config.Memory.{memory_viper, memory_viper-IsLawful}
use xmongodb.Logger.{Logrus}
use xmongodb.Server.{Getty, MongoDbServer}
use xmongodb.Commands.{
  InitError, directories_failed, directory_failed, initialize_database, make_all,
  create_directories, create_default_database,
}
use xmongodb.Commands.Directories.{wanted}
use xmongodb.Commands.There.{AllThere, StoppedAt, initialize_database-AllThere}
use xmongodb.Commands.Main.{
  Flags, default_flags, server_closing, server_closed, returned, Process, main,
}
use xmongodb.Commands.Runs.{IsInitialized, main-IsInitialized, main_first_run}

initialize_database-AllThere_example :
    let r = initialize_database memory defaults [] in
    ((r.0 ≡ ok tt) × AllThere memory memory-IsLawful (wanted memory defaults) r.2)
    ⊎ ((e : InitError) × (r.0 ≡ err e)
        × StoppedAt memory memory-IsLawful (wanted memory defaults) r.2)
initialize_database-AllThere_example =
    initialize_database-AllThere memory memory-IsLawful defaults []

-- A file stands where the third directory should be.
abbrev in_the_way : Dict Node
in_the_way = (codes "./data/journal", file []) ∷ []

stopped_test :
    (initialize_database memory defaults in_the_way).0
    ≡ err (directories_failed (directory_failed (codes "./data/journal") (codes "not a directory")))
unfolding initialize_database create_directories make_all Dict.lookup Dict.insert lex
stopped_test = refl

succeeds : (initialize_database memory defaults []).0 ≡ ok tt
unfolding initialize_database create_directories make_all create_default_database Dict.lookup
    Dict.insert lex
succeeds = refl

abbrev lr : Logrus ℕ ℕ ℕ ℕ (Dict Node)
lr = record {
  new = 0;
  parse_level = λ l. ok 4;
  info_level = 4;
  set_level = λ l g. g;
  set_formatter = λ x g. g;
  set_output = λ t g. g;
  write = λ c g f. f;
  with_fields = λ fields g. 0;
  with_field = λ key value g. 0;
  open_file = λ path mode f. (err (codes "denied"), f);
}

abbrev of_text : Bytes → ℕ
of_text t = 0

abbrev counting : Getty ℕ ℕ
counting = record {
  new_tcp_server = λ address port. 7;
  run_event_loop = λ h n. done (n + 1);
  close_server = λ h n. n - 1;
  listen = λ address port n. (true, n);
  close_listener = λ n. n;
}

-- Two connections come and stay open.
abbrev until_signal : MongoDbServer ℕ ℕ → ℕ → ℕ → ℕ × ℕ
until_signal s n w = (n + 2, w)

abbrev at_rest : Process View ℕ (Dict Node) ℕ ℕ
at_rest = record { viper = nothing_known; log = none; files = []; network = 0; world = 9 }

abbrev init_flags : Flags
init_flags = record default_flags { initialize = true }

main-IsInitialized_example :
    IsInitialized memory memory_viper lr of_text counting until_signal memory-IsLawful init_flags
      at_rest
      (main memory memory_viper lr of_text counting until_signal init_flags at_rest)
main-IsInitialized_example =
    main-IsInitialized memory memory_viper lr of_text counting until_signal memory-IsLawful
      init_flags at_rest refl refl refl

main_first_run_example :
    (p' : Process View ℕ (Dict Node) ℕ ℕ) × (main memory memory_viper lr of_text counting
        until_signal default_flags at_rest
      ≡ done (returned, server_closing ∷ server_closed ∷ [], p'))
    × (p'.files ≡ (default_flags.config_path, file default_content) ∷ [])
    × (p'.network ≡ 2)
    × (p'.world ≡ 9)
unfolding Dict.lookup Dict.insert memory_viper-IsLawful
main_first_run_example =
    main_first_run memory memory_viper lr of_text counting until_signal memory-IsLawful
      memory_viper-IsLawful at_rest 1 refl refl refl refl
