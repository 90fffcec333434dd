-- ===== src/Server/Lifecycle.antt =====
-- What `Start` and `Stop` leave behind.
use xmongodb.Common.{
  ℕ, ◌≡◌, refl, sym, ap, ◌∙◌, true, false, none, some, arith, Run, done, ◌>>=◌, >>=-eq-done, Result,
  ok, err, if_true, if_false, Bool-cases, inl, inr,
}
use xmongodb.Bytes.{Bytes}
use xmongodb.KvEngine
use xmongodb.KvEngine.{KvError, not_running}
use xmongodb.Engine
use xmongodb.Engine.{Engine, EngineError, new_wired_tiger_engine, new_engine}
use xmongodb.Config.{Config}
use xmongodb.Server.{
  Getty, MongoDbServer, ServerError, new_mongo_db_server, start, start_with, start_tcp_server, stop,
  close_engine,
}

state_of :
    {A B C : Type 0} {a a' : A} {b b' : B} {c c' : C}
    → ◌≡◌ {A = Run (A × B × C)} (done (a, b, c)) (done (a', b', c'))
    → b ≡ b'
state_of h = cc

done_of : {A : Type 0} {a b : A} → ◌≡◌ {A = Run A} (done a) (done b) → a ≡ b
done_of h = cc

module _ {W H N : Type 0} (g : Getty N H) where
  -- The states that calls of `Start` and `Stop` lead to, whatever the network does in between.
  pub data Reach (config : Config) : MongoDbServer W H → Type 0 where
    made : Reach config (new_mongo_db_server config)
    started :
        {s s' : MongoDbServer W H} {r : Result ServerError (Unit {0})} (n n' : N)
        → Reach config s
        → start g s n ≡ done (r, s', n')
        → Reach config s'
    stopped :
        {s : MongoDbServer W H} (n : N) (w : W) → Reach config s → Reach config (stop g s n w).0

  -- What holds in all of them.
  pub record IsSound (config : Config) (s : MongoDbServer W H) : Type 0 where
    pub same : s.config ≡ config
    pub serves : s.running ≡ true → (h : H) × (s.tcp_server ≡ some h)
    pub has_engine : s.running ≡ true → s.storage_engine ≡ some new_wired_tiger_engine
    pub fresh : (e : Engine W) → s.storage_engine ≡ some e → e ≡ new_wired_tiger_engine

  new_engine-new :
      (name : Bytes) {e : Engine W} → new_engine name ≡ ok e → e ≡ new_wired_tiger_engine
  unfolding new_engine
  new_engine-new name h = ground arith

  -- What a call of `Start` leads to: nothing changes, or the engine cannot be made, or the server runs.
  data Started (s : MongoDbServer W H) (s' : MongoDbServer W H) : Type 0 where
    already : s.running ≡ true → s' ≡ s → Started s s'
    without_engine : s.running ≡ false → s' ≡ record s { storage_engine = none } → Started s s'
    runs :
        (h : H)
        → s' ≡ record s {
          storage_engine = some new_wired_tiger_engine;
          tcp_server = some h;
          running = true;
        }
        → Started s s'

  start_with-Started :
      (s : MongoDbServer W H) (n n' : N) (made : Result EngineError (Engine W))
      {s' : MongoDbServer W H} {r : Result ServerError (Unit {0})}
      → s.running ≡ false
      → ((e : Engine W) → made ≡ ok e → e ≡ new_wired_tiger_engine)
      → start_with g s n made ≡ done (r, s', n')
      → Started s s'
  unfolding start_with start_tcp_server
  start_with-Started s n n' (err e) off new h = without_engine off (sym (state_of h))
  start_with-Started s n n' (ok e) off new h =
      let handle : H = g.new_tcp_server s.config.server.bind_address s.config.server.port in
      let (x, ran, rest) = >>=-eq-done (g.run_event_loop handle n >>= λ n1. _) _ h in
      let (n1, ran_loop, inner) = >>=-eq-done (g.run_event_loop handle n) _ ran in
      runs handle (
        sym (state_of rest)
        ∙ ap (λ (p : MongoDbServer W H × N). record p.0 { running = true }) (sym (done_of inner))
        ∙ ap (λ e. record s { storage_engine = some e; tcp_server = some handle; running = true })
            (new e refl))

  start-Started :
      (s : MongoDbServer W H) (n n' : N) {s' : MongoDbServer W H}
      {r : Result ServerError (Unit {0})}
      → start g s n ≡ done (r, s', n')
      → Started s s'
  unfolding start
  start-Started s n n' h = elim (Bool-cases s.running) [
    | inl on ↦ already on (sym (state_of (sym (if_true s.running _ _ on) ∙ h)))
    | inr off ↦
        start_with-Started s n n' (new_engine s.config.storage.engine) off
          (λ e. new_engine-new s.config.storage.engine) (sym (if_false s.running _ _ off) ∙ h)
  ]

  start-IsSound :
      {config : Config} {s s' : MongoDbServer W H}
      → IsSound config s
      → Started s s'
      → IsSound config s'
  start-IsSound i (already on e) = rw e i
  start-IsSound i (without_engine off e) = rw e (record {
    same = i.same;
    serves = λ x. absurd (ground (arith, off, x));
    has_engine = λ x. absurd (ground (arith, off, x));
    fresh = λ x y. cc;
  })
  start-IsSound i (runs h e) =
      rw e (record {
        same = i.same;
        serves = λ x. (h, refl);
        has_engine = λ x. refl;
        fresh = λ x y. cc;
      })

  stop_idle : (s : MongoDbServer W H) (n : N) (w : W) → s.running ≡ false → stop g s n w ≡ (s, n, w)
  unfolding stop
  stop_idle s n w off = if_false s.running _ _ off

  pub stop_running :
      (s : MongoDbServer W H) (n : N) (w : W)
      → s.running ≡ true
      → (stop g s n w).0 ≡ record s {
        storage_engine = (close_engine s.storage_engine w).0;
        cancelled = true;
        running = false;
      }
  unfolding stop
  stop_running s n w on = ap (λ (r : MongoDbServer W H × N × W). r.0) (if_true s.running _ _ on)

  -- The engine that the server made was never started, and is not changed when it is closed.
  close_new :
      (w : W) → (close_engine (some new_wired_tiger_engine) w).0 ≡ some new_wired_tiger_engine
  unfolding Engine.stop new_wired_tiger_engine
  close_new w = refl

  stop-IsSound :
      {config : Config} {s : MongoDbServer W H} (n : N) (w : W)
      → IsSound config s
      → IsSound config (stop g s n w).0
  stop-IsSound {s} n w i = elim (Bool-cases s.running) [
    | inr off ↦ rw (stop_idle s n w off) i
    | inl on ↦
        let kept : (close_engine s.storage_engine w).0 ≡ some new_wired_tiger_engine =
          ap (λ o. (close_engine o w).0) (i.has_engine on) ∙ close_new w in
        rw (stop_running s n w on) (record {
          same = i.same;
          serves = λ e. cc;
          has_engine = λ e. cc;
          fresh = λ e x. ground (arith, kept, x);
        })
  ]

  -- Whatever calls of `Start` and `Stop` were made on a new server, a server that runs has a TCP server
  -- and a storage engine, and a storage engine that it has is as `NewEngine` made it.
  pub Reach-IsSound : {config : Config} {s : MongoDbServer W H} → Reach config s → IsSound config s
  unfolding new_mongo_db_server
  Reach-IsSound made = record {
    same = refl;
    serves = λ e. cc;
    has_engine = λ e. cc;
    fresh = λ e h. cc;
  }
  Reach-IsSound (started n n' r h) = start-IsSound (Reach-IsSound r) (start-Started _ n n' h)
  Reach-IsSound (stopped n w r) = stop-IsSound n w (Reach-IsSound r)

  -- Whatever calls of `Start` and `Stop` were made on a new server, the storage engine that it has, if it
  -- has one, does not run, and its KV engine refuses to make a session: `Start` makes the engine and does
  -- not start it.
  pub engine_never_runs :
      {config : Config} {s : MongoDbServer W H} {e : Engine W}
      → Reach config s
      → s.storage_engine ≡ some e
      → (e.running ≡ false)
        × ((uuid : Bytes) (now : ℕ)
            → KvEngine.create_session uuid now e.kv_engine ≡ (err not_running, e.kv_engine))
  unfolding new_wired_tiger_engine KvEngine.new_kv_engine KvEngine.create_session
  engine_never_runs r h = rw ((Reach-IsSound r).fresh _ h) (refl, (λ uuid now. refl))
