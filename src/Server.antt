-- ===== src/Server.antt =====
-- server/server.go: starting and stopping the server. What the getty library and the package `net` do to
-- the network is a parameter, `Getty`. The context is the flag `cancelled`; the goroutine of
-- `startTCPServer` waits for it and does nothing.
pub mod Lifecycle
pub mod Restart
mod Tests
use xmongodb.Common.{
  ℕ, ◌*◌, Bool, true, false, not, ◌||◌, Option, none, some, [], Run, done, ◌>>=◌, Result, ok, err,
  if◌then◌else◌,
}
use xmongodb.Common.Int.{ℤ, pos, ltb_ℤ}
use xmongodb.Bytes.{Bytes, bytes_equal}
use xmongodb.Config.{Config}
use xmongodb.Engine
use xmongodb.Engine.{Engine, EngineError}
use xmongodb.Engine.Stats.{EngineStats}

-- The library's TCP servers `H` and the network `N`. `RunEventLoop` may panic. `net.Listen` tells
-- whether the port could be opened.
pub record Getty (N H : Type 0) : Type 0 where
  pub new_tcp_server : (address : Bytes) (port : ℤ) → H
  pub run_event_loop : H → N → Run N
  pub close_server : H → N → N
  pub listen : (address : Bytes) (port : ℤ) → N → Bool × N
  pub close_listener : N → N

pub record MongoDbServer (W H : Type 0) : Type 0 where
  pub config : Config
  pub tcp_server : Option H
  pub storage_engine : Option (Engine W)
  pub running : Bool
  pub cancelled : Bool

pub data ServerError : Type 0 where
  server_already_running empty_address port_out_of_range port_in_use : ServerError
  engine_not_made : EngineError → ServerError

-- What `newSession` sets on a session; the times are in nanoseconds, the period of the cron in
-- milliseconds. The listener has the engine that the server has at that time.
pub record SessionSettings (W : Type 0) : Type 0 where
  pub listener_engine : Option (Engine W)
  pub read_timeout : ℕ
  pub write_timeout : ℕ
  pub cron_period : ℕ
  pub wait_time : ℕ

abbrev pub second : ℕ
second = 1000 * 1000 * 1000

-- `GetStats`: the fields are the keys of the map that it returns.
pub record ServerStats : Type 0 where
  pub running : Bool
  pub bind_address : Bytes
  pub port : ℤ
  pub storage_engine : Bytes
  pub storage : Option EngineStats

-- `storageEngine.Close()` in `Stop`; its error is only logged.
abbrev pub close_engine : {W : Type 0} → Option (Engine W) → W → Option (Engine W) × W
close_engine none w = (none, w)
close_engine (some e) w = let r = Engine.stop e w in (some r.1, r.2)

abbrev pub close_tcp_server : {N H : Type 0} → Getty N H → Option H → N → N
close_tcp_server g none n = n
close_tcp_server g (some h) n = g.close_server h n

module _ {W H : Type 0} where
  -- `NewMongoDBServer`
  unfoldable pub new_mongo_db_server : Config → MongoDbServer W H
  new_mongo_db_server config = record {
    config = config;
    tcp_server = none;
    storage_engine = none;
    running = false;
    cancelled = false;
  }

  unfoldable pub new_session : MongoDbServer W H → SessionSettings W
  new_session s = record {
    listener_engine = s.storage_engine;
    read_timeout = 30 * second;
    write_timeout = 30 * second;
    cron_period = 30 * 1000;
    wait_time = second;
  }

  unfoldable pub get_stats : MongoDbServer W H → ServerStats
  unfolding Engine.Stats.get_stats
  get_stats s = record {
    running = s.running;
    bind_address = s.config.server.bind_address;
    port = s.config.server.port;
    storage_engine = s.config.storage.engine;
    storage = elim s.storage_engine [ none ↦ none | some e ↦ some (Engine.Stats.get_stats e) ];
  }

  module _ {N : Type 0} (g : Getty N H) where
    unfoldable pub start_tcp_server : MongoDbServer W H → N → Run (MongoDbServer W H × N)
    start_tcp_server s n =
        let h = g.new_tcp_server s.config.server.bind_address s.config.server.port in
        g.run_event_loop h n >>= λ n'. done (record s { tcp_server = some h }, n')

    -- What follows `storage.NewEngine`, which gives nil with its error.
    unfoldable pub start_with :
        MongoDbServer W H
        → N
        → Result EngineError (Engine W)
        → Run (Result ServerError (Unit {0}) × MongoDbServer W H × N)
    unfolding start_tcp_server
    start_with s n (err e) = done (err (engine_not_made e), record s { storage_engine = none }, n)
    start_with s n (ok e) = start_tcp_server (record s { storage_engine = some e }) n >>= λ r.
        done (ok tt, record r.0 { running = true }, r.1)

    unfoldable pub start :
        MongoDbServer W H → N → Run (Result ServerError (Unit {0}) × MongoDbServer W H × N)
    unfolding start_with
    start s n =
        if s.running
        then done (err server_already_running, s, n)
        else start_with s n (Engine.new_engine s.config.storage.engine)

    -- `Stop` never fails.
    unfoldable pub stop : MongoDbServer W H → N → W → MongoDbServer W H × N × W
    stop s n w =
        if s.running
        then (let r = close_engine s.storage_engine w in
            (
              record s { storage_engine = r.0; cancelled = true; running = false },
              close_tcp_server g s.tcp_server n,
              r.1,
            ))
        else (s, n, w)

    -- `validateConfig`: the checks in their order.
    unfoldable pub validate_config : MongoDbServer W H → N → Result ServerError (Unit {0}) × N
    validate_config s n =
        let address = s.config.server.bind_address in
        let port = s.config.server.port in
        if bytes_equal address []
        then (err empty_address, n)
        else if not (ltb_ℤ (pos 0) port) || ltb_ℤ (pos 65535) port
        then (err port_out_of_range, n)
        else (let l = g.listen address port n in
            if l.0 then (ok tt, g.close_listener l.1) else (err port_in_use, l.1))
