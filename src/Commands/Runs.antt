-- ===== src/Commands/Runs.antt =====
-- What a run of the program does: one that initializes a database, and the first one of a server.
use xmongodb.Common.{
  ◌≡◌, refl, true, false, Option, some, List, [], ◌∷◌, Run, done, Result, ok, err, inl, inr,
}
use xmongodb.Common.Int.{pos}
use xmongodb.Bytes.{Bytes, lex}
use xmongodb.RecordId.Text.{codes}
use xmongodb.Os
use xmongodb.Os.{Os}
use xmongodb.Config.{Config, defaults}
use xmongodb.Config.Load.{Viper, LoadError, load_config, default_content}
use xmongodb.Config.Loading
use xmongodb.Config.Loading.{nothing_known, load_config-defaults}
use xmongodb.Logger
use xmongodb.Logger.{Logrus}
use xmongodb.Engine
use xmongodb.Engine.{new_engine, new_wired_tiger_engine}
use xmongodb.Server.{Getty, MongoDbServer, new_mongo_db_server, stop}
use xmongodb.Server.Restart.{start_runs}
use xmongodb.Commands.{InitError, Step, initialize_database}
use xmongodb.Commands.Directories.{wanted}
use xmongodb.Commands.There.{AllThere, initialize_database-AllThere}
use xmongodb.Commands.Main.{
  Flags, default_flags, Printed, server_closing, server_closed, Exit, returned, Process, main,
  after_initialize, after_load,
}

module _ {V A G E O F N H W : Type 0} (os : Os F) (viper : Viper V F) (lr : Logrus A G E O F)
    (of_text : Bytes → A) (getty : Getty N H) (until_signal : MongoDbServer W H → N → W → N × W)
    (files : Os.IsLawful os) where
  -- The settings that a process finds.
  pub record Loaded (flags : Flags) (p : Process V G F N W) : Type 0 where
    pub config : Config
    pub viper_then : V
    pub files_then : F
    pub loaded :
        load_config os viper flags.config_path p.viper p.files ≡ (ok config, viper_then, files_then)

  -- A run that ended without a server, and if it returned, with the directories of its settings.
  pub record IsInitialized (flags : Flags) (p : Process V G F N W)
      (m : Run (Exit × List Printed × Process V G F N W)) : Type 0 where
    pub exit : Exit
    pub printed : List Printed
    pub after : Process V G F N W
    pub ends : m ≡ done (exit, printed, after)
    pub same_network : after.network ≡ p.network
    pub same_world : after.world ≡ p.world
    pub all_there :
        exit ≡ returned → (l : Loaded flags p) × AllThere os files (wanted os l.config) after.files

  after_initialize-IsInitialized :
      (flags : Flags) (p q : Process V G F N W) (l : Loaded flags p) (r : Step InitError F)
      → q.network ≡ p.network
      → q.world ≡ p.world
      → (r.0 ≡ ok tt → AllThere os files (wanted os l.config) r.2)
      → IsInitialized flags p (after_initialize os viper lr of_text getty until_signal q r)
  after_initialize-IsInitialized flags p q l (ok _, out, f) network world there = record {
    exit = _;
    printed = _;
    after = _;
    ends = refl;
    same_network = network;
    same_world = world;
    all_there = λ x. (l, there refl);
  }
  after_initialize-IsInitialized flags p q l (err e, out, f) network world there = record {
    exit = _;
    printed = _;
    after = _;
    ends = refl;
    same_network = network;
    same_world = world;
    all_there = λ x. absurd cc;
  }

  there_if_ok :
      (cfg : Config) (f : F)
      → (initialize_database os cfg f).0 ≡ ok tt
      → AllThere os files (wanted os cfg) (initialize_database os cfg f).2
  there_if_ok cfg f good = elim (initialize_database-AllThere os files cfg f) [
    | inl (h, there) ↦ there
    | inr (e, h, stopped) ↦ absurd cc
  ]

  after_load-IsInitialized :
      (flags : Flags) (p : Process V G F N W) (r : Result LoadError Config × V × F)
      → flags.initialize ≡ true
      → load_config os viper flags.config_path p.viper p.files ≡ r
      → IsInitialized flags p (after_load os viper lr of_text getty until_signal flags p r)
  after_load-IsInitialized flags p (err e, v, f) on h = record {
    exit = _;
    printed = _;
    after = _;
    ends = refl;
    same_network = refl;
    same_world = refl;
    all_there = λ x. absurd cc;
  }
  after_load-IsInitialized flags p (ok cfg, v, f) on h =
      let l = Logger.init lr of_text cfg.logger p.log f in
      simp on (
        after_initialize-IsInitialized flags p (record p { viper = v; log = l.0; files = l.1 })
          (record { config = cfg; viper_then = v; files_then = f; loaded = h })
          (initialize_database os cfg l.1) refl refl (there_if_ok cfg l.1))

  -- With `-initialize`, and without `-help` and `-version`, the program ends and leaves the network and
  -- the storage engine alone. If it returns, and does not fail, it has loaded settings, and the eight
  -- directories that these name are there, with the package `os` as it documents.
  pub main-IsInitialized :
      (flags : Flags) (p : Process V G F N W)
      → flags.show_help ≡ false
      → flags.version ≡ false
      → flags.initialize ≡ true
      → IsInitialized flags p (main os viper lr of_text getty until_signal flags p)
  unfolding main
  main-IsInitialized flags p no_help no_version on =
      simp (no_help, no_version)
        (after_load-IsInitialized flags p (load_config os viper flags.config_path p.viper p.files)
          on refl)

  wired_tiger_known : new_engine {W = W} defaults.storage.engine ≡ ok new_wired_tiger_engine
  unfolding new_engine lex
  wired_tiger_known = refl

  abbrev pub default_server : H
  default_server = getty.new_tcp_server (codes "127.0.0.1") (pos 27017)

  -- The default logger writes to the standard output and opens no file.
  init_default : (old : Option G) (f : F) → (Logger.init lr of_text defaults.logger old f).1 ≡ f
  unfolding Logger.init lex
  init_default old f = refl

  -- The server that runs with the default settings.
  abbrev pub default_running : MongoDbServer W H
  default_running = record {
    config = defaults;
    tcp_server = some default_server;
    storage_engine = some new_wired_tiger_engine;
    running = true;
    cancelled = false;
  }

  -- With `os` and viper as they document, and viper as the process begins: there is no file
  -- `./mongodb.conf`, it can be written, and the network lets the TCP server run. The
  -- program without flags writes the default settings there and no other file, runs a server with them
  -- on the port 27017 of this host, and when the signal comes closes it and returns.
  pub main_first_run :
      (laws : Loading.IsLawful files viper) (p : Process V G F N W) (n : N)
      → laws.view p.viper ≡ nothing_known
      → os.stat default_flags.config_path p.files ≡ false
      → (os.write_file default_flags.config_path default_content 0o644 p.files).0 ≡ ok tt
      → getty.run_event_loop default_server p.network ≡ done n
      → (p' : Process V G F N W) × (main os viper lr of_text getty until_signal default_flags p
          ≡ done (returned, server_closing ∷ server_closed ∷ [], p'))
        × (p'.files ≡ (os.write_file default_flags.config_path default_content 0o644 p.files).1)
        × (p'.network
            ≡ getty.close_server default_server (until_signal default_running n p.world).0)
        × (p'.world ≡ (until_signal default_running n p.world).1)
  unfolding main stop new_mongo_db_server Engine.stop new_wired_tiger_engine
  main_first_run laws p n fresh missing written loop =
      let (v, loaded) =
        (load_config-defaults os viper laws default_flags.config_path p.viper p.viper p.files
          (λ h. cc) fresh fresh missing written).0 in
      let default_files =
        (os.write_file default_flags.config_path default_content 0o644 p.files).1 in
      let at_signal = until_signal default_running n p.world in
      let started =
        start_runs getty (new_mongo_db_server defaults) p.network n refl wired_tiger_known loop in
      (
        record {
          viper = v;
          log = (Logger.init lr of_text defaults.logger p.log default_files).0;
          files = (Logger.init lr of_text defaults.logger p.log default_files).1;
          network = getty.close_server default_server at_signal.0;
          world = at_signal.1;
        },
        rw (loaded, started) refl,
        init_default p.log default_files,
        refl,
        refl,
      )
