-- ===== src/Server/Restart.antt =====
-- Starting a server again, and the settings that it accepts.
use xmongodb.Common.{
  ◌≡◌, ◌≢◌, refl, ◌∙◌, true, false, some, [], arith, done, ok, if_false, ◌↔◌, ◌∷◌,
}
use xmongodb.Common.Int.{pos, ◌≤ℤ◌}
use xmongodb.Bytes.{Bytes, lex, bytes_equal}
use xmongodb.Engine.{Engine, new_wired_tiger_engine, new_engine}
use xmongodb.Server.{
  Getty, MongoDbServer, start, start_with, start_tcp_server, stop, close_engine, validate_config,
}
use xmongodb.Server.Lifecycle.{stop_running}

empty_iff : (a : Bytes) → (bytes_equal a [] ≡ true) ↔ (a ≡ [])
unfolding lex
empty_iff [] = ground arith
empty_iff (x ∷ a) = ground arith

module _ {W H N : Type 0} (g : Getty N H) where
  pub start_runs :
      (s : MongoDbServer W H) (n n' : N) {e : Engine W}
      → s.running ≡ false
      → new_engine s.config.storage.engine ≡ ok e
      → g.run_event_loop (g.new_tcp_server s.config.server.bind_address s.config.server.port) n
        ≡ done n'
      → start g s n
        ≡ done (
          ok tt,
          record s {
            storage_engine = some e;
            tcp_server = some (g.new_tcp_server s.config.server.bind_address s.config.server.port);
            running = true;
          },
          n',
        )
  unfolding start start_with start_tcp_server
  start_runs s n n' off known loop = if_false s.running _ _ off ∙ rw (known, loop) refl

  -- A server that runs is stopped and then started. If its settings name a storage engine that there is
  -- and the network lets the new TCP server run, it runs again, but with a storage engine without
  -- databases in place of the one it had, whatever that held, and its context stays cancelled.
  pub start-stop :
      (s : MongoDbServer W H) (n n' : N) (w : W)
      → s.running ≡ true
      → new_engine {W = W} s.config.storage.engine ≡ ok new_wired_tiger_engine
      → g.run_event_loop
          (g.new_tcp_server s.config.server.bind_address s.config.server.port)
          (stop g s n w).1
        ≡ done n'
      → (s' : MongoDbServer W H) × (start g (stop g s n w).0 (stop g s n w).1
          ≡ done (ok tt, s', n'))
        × (s'.running ≡ true)
        × ((e : Engine W) × (s'.storage_engine ≡ some e) × (e.databases ≡ []))
        × (s'.cancelled ≡ true)
  start-stop s n n' w on known loop =
      let handle = g.new_tcp_server s.config.server.bind_address s.config.server.port in
      rw (stop_running g s n w on) (
        _,
        start_runs
            (record s {
              storage_engine = (close_engine s.storage_engine w).0;
              cancelled = true;
              running = false;
            })
            (stop g s n w).1 n' refl known loop,
        refl,
        (new_wired_tiger_engine, refl, unfold new_wired_tiger_engine in refl),
        refl,
      )

  -- `validateConfig` accepts the settings exactly if the address is not empty, the port is from 1 to 65535,
  -- and the port can be opened.
  pub validate_config_lem :
      (s : MongoDbServer W H) (n : N)
      → ((validate_config g s n).0 ≡ ok tt) ↔ (
          (s.config.server.bind_address ≢ [])
          × (pos 1 ≤ℤ s.config.server.port)
          × (s.config.server.port ≤ℤ pos 65535)
          × ((g.listen s.config.server.bind_address s.config.server.port n).0 ≡ true))
  unfolding validate_config
  validate_config_lem s n = ground (arith, empty_iff s.config.server.bind_address)
