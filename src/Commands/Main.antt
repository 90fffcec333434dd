-- ===== src/Commands/Main.antt =====
-- main.go. The process is the one viper and logger that it has, the files, the network, and the world of
-- the storage engine. What goes on until the signal comes is a parameter; so are the words printed.
use xmongodb.Common.{
  Bool, false, Option, List, [], ◌∷◌, ◌++◌, map, Run, done, ◌>>=◌, Result, ok, err, if◌then◌else◌,
}
use xmongodb.Bytes.{Bytes}
use xmongodb.RecordId.Text.{codes}
use xmongodb.Os.{Os}
use xmongodb.Config.{Config}
use xmongodb.Config.Load.{Viper, LoadError, load_config}
use xmongodb.Logger
use xmongodb.Logger.{Logrus}
use xmongodb.Server.{Getty, MongoDbServer, ServerError, new_mongo_db_server, start, stop}
use xmongodb.Commands.{Line, InitError, Step, initialize_database}

pub record Flags : Type 0 where
  pub config_path : Bytes
  pub initialize : Bool
  pub debug : Bool
  pub version : Bool
  pub show_help : Bool

-- The flags of a command line that sets none.
abbrev pub default_flags : Flags
default_flags = record {
  config_path = codes "./mongodb.conf";
  initialize = false;
  debug = false;
  version = false;
  show_help = false;
}

abbrev pub version_number : Bytes
version_number = codes "1.0.0"

abbrev pub build : Bytes
build = codes "dev"

pub data Printed : Type 0 where
  usage : (version : Bytes) → Printed
  version_line : (version build : Bytes) → Printed
  line : Line → Printed
  database_initialized server_closing server_closed : Printed

pub data Fatal : Type 0 where
  config_not_loaded : LoadError → Fatal
  database_not_initialized : InitError → Fatal
  server_not_started : ServerError → Fatal

-- `log.Fatalf` ends the process with the status 1.
pub data Exit : Type 0 where
  returned : Exit
  fatal : Fatal → Exit

pub record Process (V G F N W : Type 0) : Type 0 where
  pub viper : V
  pub log : Option G
  pub files : F
  pub network : N
  pub world : W

module _ {V A G E O F N H W : Type 0} (os : Os F) (viper : Viper V F) (lr : Logrus A G E O F)
    (of_text : Bytes → A) (getty : Getty N H)
    (until_signal : MongoDbServer W H → N → W → N × W) where
  abbrev pub Outcome : Type 0
  Outcome = Run (Exit × List Printed × Process V G F N W)

  -- From the flag `initialize` on, with what `InitializeDatabase` does.
  abbrev pub after_initialize : Process V G F N W → Step InitError F → Outcome
  after_initialize p (ok _, out, f) =
      done (returned, map line out ++ (database_initialized ∷ []), record p { files = f })
  after_initialize p (err e, out, f) =
      done (fatal (database_not_initialized e), map line out, record p { files = f })

  abbrev pub initialize : Config → Process V G F N W → Outcome
  initialize cfg p = after_initialize p (initialize_database os cfg p.files)

  -- From the answer of `Start` on. `Stop` never fails.
  abbrev after_start :
      Process V G F N W → Result ServerError (Unit {0}) × MongoDbServer W H × N → Outcome
  after_start p (err e, s, n) = done (fatal (server_not_started e), [], record p { network = n })
  after_start p (ok _, s, n) =
      let at_signal = until_signal s n p.world in
      let r = stop getty s at_signal.0 at_signal.1 in
      done (returned, server_closing ∷ server_closed ∷ [], record p { network = r.1; world = r.2 })

  abbrev pub serve : Config → Process V G F N W → Outcome
  serve cfg p = start getty (new_mongo_db_server cfg) p.network >>= after_start p

  -- With what `LoadConfig` returns.
  abbrev pub after_load : Flags → Process V G F N W → Result LoadError Config × V × F → Outcome
  after_load flags p (err e, v, f) =
      done (fatal (config_not_loaded e), [], record p { viper = v; files = f })
  after_load flags p (ok cfg, v, f) =
      let l = Logger.init lr of_text cfg.logger p.log f in
      let p' = record p { viper = v; log = l.0; files = l.1 } in
      if flags.initialize then initialize cfg p' else serve cfg p'

  unfoldable pub main : Flags → Process V G F N W → Outcome
  main flags p =
      if flags.show_help
      then done (returned, usage version_number ∷ [], p)
      else if flags.version
      then done (returned, version_line version_number build ∷ [], p)
      else after_load flags p (load_config os viper flags.config_path p.viper p.files)
