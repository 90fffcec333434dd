-- ===== src/Engine.antt =====
-- server/storage/engine.go: databases and collections over the KV engine. A method that takes no lock
-- is one step like the others.
pub mod Docs
pub mod Documents
pub mod Catalog
pub mod Stored
pub mod Inserts
pub mod Creation
pub mod Refines
pub mod Stats
mod Tests
use xmongodb.Common.{
  ℕ, Bool, true, false, Option, none, some, List, [], ◌∷◌, ◌++◌, map, Result, ok, err,
  if◌then◌else◌, ◌*◌,
}
use xmongodb.Common.Int.{ℤ, pos}
use xmongodb.Bytes.{Bytes, bytes_equal}
use xmongodb.Dict
use xmongodb.Dict.{Dict}
use xmongodb.RecordId.Text.{codes}
use xmongodb.KvEngine
use xmongodb.KvEngine.{KvEngine, KvError}

-- `Collection`: the record store and the indexes are pointers.
pub record Collection : Type 0 where
  pub name : Bytes
  pub record_store : ℕ
  pub indexes : Dict ℕ

pub record Database : Type 0 where
  pub name : Bytes
  pub collections : Dict Collection

-- `WiredTigerEngine`; `MemoryEngine` is the same.
pub record Engine (W : Type 0) : Type 0 where
  pub databases : Dict Database
  pub running : Bool
  pub kv_engine : KvEngine W
  pub next_record_id : ℤ

pub data EngineError : Type 0 where
  engine_already_running database_exists database_missing collection_exists collection_missing
        unsupported_engine :
      EngineError
  kv_error store_not_created index_not_created : KvError → EngineError

-- `makeNamespace`: the byte between the two is a dot.
abbrev pub make_namespace : (database collection : Bytes) → Bytes
make_namespace database collection = database ++ (b'.' ∷ collection)

abbrev pub id_index_name : Bytes
id_index_name = codes "_id_"

abbrev pub Outcome : Type 0 → Type 0 → Type 0
Outcome W A = Result EngineError A × Engine W

module _ {W : Type 0} where
  -- `NewWiredTigerEngine`
  unfoldable pub new_wired_tiger_engine : Engine W
  new_wired_tiger_engine = record {
    databases = [];
    running = false;
    kv_engine = KvEngine.new_kv_engine (record {
      cache_size = pos (1024 * 1024 * 1024);
      max_sessions = pos 1000;
      checkpoint_enabled = true;
    });
    next_record_id = pos 0;
  }

  -- `NewEngine`: both names make the same engine.
  unfoldable pub new_engine : (engine_name : Bytes) → Result EngineError (Engine W)
  new_engine engine_name =
      if bytes_equal engine_name (codes "wiredTiger")
      then ok new_wired_tiger_engine
      else if bytes_equal engine_name (codes "memory")
      then ok new_wired_tiger_engine
      else err unsupported_engine

  -- What follows `kvEngine.Start`.
  abbrev pub after_start : Engine W → Result KvError (Unit {0}) × KvEngine W → Outcome W (Unit {0})
  after_start e (ok _, kv) = (ok tt, record e { kv_engine = kv; running = true })
  after_start e (err f, kv) = (err (kv_error f), record e { kv_engine = kv })

  unfoldable pub start : Engine W → Outcome W (Unit {0})
  start e =
      if e.running
      then (err engine_already_running, e)
      else after_start e (KvEngine.start e.kv_engine)

  -- What follows `kvEngine.Stop`.
  abbrev pub after_stop :
      Engine W
      → Result KvError (Unit {0}) × KvEngine W × W
      → Result EngineError (Unit {0}) × Engine W × W
  after_stop e (ok _, kv, w) = (ok tt, record e { kv_engine = kv; running = false }, w)
  after_stop e (err f, kv, w) = (err (kv_error f), record e { kv_engine = kv }, w)

  -- `Stop`, and `Close`.
  unfoldable pub stop : Engine W → W → Result EngineError (Unit {0}) × Engine W × W
  stop e w = if e.running then after_stop e (KvEngine.stop e.kv_engine w) else (ok tt, e, w)

  unfoldable pub create_database : Bytes → Engine W → Outcome W (Unit {0})
  create_database name e = elim (Dict.lookup name e.databases) [
    | some db ↦ (err database_exists, e)
    | none ↦ (
      ok tt,
      record e {
        databases = Dict.insert name (record { name = name; collections = [] }) e.databases;
      },
    )
  ]

  unfoldable pub drop_database : Bytes → Engine W → Outcome W (Unit {0})
  drop_database name e = elim (Dict.lookup name e.databases) [
    | none ↦ (err database_missing, e)
    | some db ↦ (ok tt, record e { databases = Dict.remove name e.databases })
  ]

  unfoldable pub list_databases : Engine W → List Bytes
  list_databases e = map (λ entry. entry.0) e.databases

  -- `e.databases[database].Collections` after a write to the map of the collections.
  abbrev pub with_collections : Bytes → Database → Dict Collection → Engine W → Engine W
  with_collections database db collections e = record e {
    databases = Dict.insert database (record db { collections = collections }) e.databases;
  }

  -- The two calls of the KV engine that `CreateCollection` makes, and what follows each.
  abbrev pub add_collection :
      (database collection : Bytes) (store : ℕ)
      → Database
      → Engine W
      → Result KvError ℕ × KvEngine W
      → Outcome W (Unit {0})
  add_collection database collection store db e (err f, kv) =
      (err (index_not_created f), record e { kv_engine = kv })
  add_collection database collection store db e (ok index, kv) = (
    ok tt,
    with_collections database db
        (Dict.insert collection
          (record {
            name = collection;
            record_store = store;
            indexes = Dict.insert id_index_name index [];
          })
          db.collections)
        (record e { kv_engine = kv }),
  )

  abbrev pub add_store :
      (database collection : Bytes)
      → Database
      → Engine W
      → Result KvError ℕ × KvEngine W
      → Outcome W (Unit {0})
  add_store database collection db e (err f, kv) =
      (err (store_not_created f), record e { kv_engine = kv })
  add_store database collection db e (ok store, kv) =
      add_collection database collection store db (record e { kv_engine = kv })
        (KvEngine.create_sorted_data (make_namespace database collection) id_index_name true kv)

  unfoldable pub create_in :
      (database collection : Bytes) → Engine W → Database → Outcome W (Unit {0})
  create_in database collection e db = elim (Dict.lookup collection db.collections) [
    | some coll ↦ (err collection_exists, e)
    | none ↦
        add_store database collection db e
          (KvEngine.create_record_store (make_namespace database collection) e.kv_engine)
  ]

  unfoldable pub create_collection : (database collection : Bytes) → Engine W → Outcome W (Unit {0})
  unfolding create_in
  create_collection database collection e = elim (Dict.lookup database e.databases) [
    | none ↦ (err database_missing, e)
    | some db ↦ create_in database collection e db
  ]

  unfoldable pub drop_in :
      (database collection : Bytes) → Engine W → Database → Outcome W (Unit {0})
  drop_in database collection e db = elim (Dict.lookup collection db.collections) [
    | none ↦ (err collection_missing, e)
    | some coll ↦ (ok tt, with_collections database db (Dict.remove collection db.collections) e)
  ]

  unfoldable pub drop_collection : (database collection : Bytes) → Engine W → Outcome W (Unit {0})
  unfolding drop_in
  drop_collection database collection e = elim (Dict.lookup database e.databases) [
    | none ↦ (err database_missing, e)
    | some db ↦ drop_in database collection e db
  ]

  unfoldable pub list_collections : Bytes → Engine W → Result EngineError (List Bytes)
  list_collections database e = elim (Dict.lookup database e.databases) [
    | none ↦ err database_missing
    | some db ↦ ok (map (λ entry. entry.0) db.collections)
  ]

  -- The collection that `Insert` and `Find` look up.
  unfoldable pub find_collection :
      (database collection : Bytes) → Engine W → Result EngineError Collection
  find_collection database collection e = elim (Dict.lookup database e.databases) [
    | none ↦ err database_missing
    | some db ↦ elim (Dict.lookup collection db.collections) [
      | none ↦ err collection_missing
      | some coll ↦ ok coll
    ]
  ]
