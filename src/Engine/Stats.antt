-- ===== src/Engine/Stats.antt =====
-- `GetStats` of server/storage/engine.go: the fields of `EngineStats` are the keys of the map that it
-- returns.
use xmongodb.Common.{ℕ, Bool, length}
use xmongodb.Bytes.{Bytes}
use xmongodb.RecordId.Text.{codes}
use xmongodb.KvEngine.Stats
use xmongodb.KvEngine.Stats.{KvStats}
use xmongodb.Engine.{Engine}

pub record EngineStats : Type 0 where
  pub engine : Bytes
  pub running : Bool
  pub databases : ℕ
  pub kv_engine : KvStats

unfoldable pub get_stats : {W : Type 0} → Engine W → EngineStats
unfolding Stats.get_stats
get_stats e = record {
  engine = codes "wiredTiger";
  running = e.running;
  databases = length e.databases;
  kv_engine = Stats.get_stats e.kv_engine;
}
