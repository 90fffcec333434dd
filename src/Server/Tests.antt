-- ===== src/Server/Tests.antt =====
-- The theorems on the server with a network that counts what is open.
use xmongodb.Common.{ℕ, ◌+◌, ◌-◌, ◌≡◌, refl, true, false, some, [], done, ok, err}
use xmongodb.Bytes.{Bytes, lex}
use xmongodb.RecordId.Text.{codes}
use xmongodb.KvEngine
use xmongodb.KvEngine.{not_running}
use xmongodb.Engine.{Engine, new_engine, new_wired_tiger_engine}
use xmongodb.Config.{Config, defaults}
use xmongodb.Server.{Getty, MongoDbServer, new_mongo_db_server, start, stop, validate_config}
use xmongodb.Server.Lifecycle.{Reach, made, started, IsSound, Reach-IsSound, engine_never_runs}
use xmongodb.Server.Restart.{start-stop}

-- Every port can be opened; the network is the number of open ports.
abbrev counting : Getty ℕ ℕ
counting = record {
  new_tcp_server = λ address port. 7;
  run_event_loop = λ h n. done (n + 1);
  close_server = λ h n. n - 1;
  listen = λ address port n. (true, n + 1);
  close_listener = λ n. n - 1;
}

abbrev settings : Config
settings = record defaults { storage = record defaults.storage { engine = codes "memory" } }

abbrev stopped_server : MongoDbServer ℕ ℕ
stopped_server = new_mongo_db_server settings

abbrev engine : Engine ℕ
engine = new_wired_tiger_engine

abbrev running_server : MongoDbServer ℕ ℕ
running_server = record stopped_server {
  tcp_server = some 7;
  storage_engine = some engine;
  running = true;
}

memory_known : new_engine {W = ℕ} settings.storage.engine ≡ ok new_wired_tiger_engine
unfolding new_engine lex
memory_known = refl

starts : start counting stopped_server 0 ≡ done (ok tt, running_server, 1)
unfolding start new_engine lex new_mongo_db_server
starts = refl

running_reached : Reach counting settings running_server
running_reached = started 0 1 made starts

Reach-IsSound_example : IsSound counting settings running_server
Reach-IsSound_example = Reach-IsSound counting running_reached

engine_never_runs_example :
    (engine.running ≡ false)
    × ((uuid : Bytes) (now : ℕ)
        → KvEngine.create_session uuid now engine.kv_engine ≡ (err not_running, engine.kv_engine))
engine_never_runs_example = engine_never_runs counting running_reached refl

loop_starts : counting.run_event_loop 7 (stop counting running_server 1 0).1 ≡ done 1
unfolding stop new_mongo_db_server
loop_starts = refl

start-stop_example :
    (s' : MongoDbServer ℕ ℕ) × (start counting
        (stop counting running_server 1 0).0
        (stop counting running_server 1 0).1
      ≡ done (ok tt, s', 1))
    × (s'.running ≡ true)
    × ((e : Engine ℕ) × (s'.storage_engine ≡ some e) × (e.databases ≡ []))
    × (s'.cancelled ≡ true)
unfolding new_mongo_db_server
start-stop_example = start-stop counting running_server 1 1 0 refl memory_known loop_starts

-- The default settings are accepted, with the port 27017.
accepted : (validate_config counting (new_mongo_db_server {W = ℕ} defaults) 0).0 ≡ ok tt
unfolding validate_config new_mongo_db_server lex
accepted = refl
