-- ===== src/Engine/Creation.antt =====
-- A new collection in a new engine.
use xmongodb.Common.{◌≡◌, refl, ap, ◌∙◌, true, some, [], ◌∷◌, arith, Result, ok, if_true}
use xmongodb.Bytes.{Bytes, bytes_equal}
use xmongodb.Bytes.Order.{bytes_equal_refl}
use xmongodb.Dict
use xmongodb.RecordStore.Holds.{new_record_store-Holds}
use xmongodb.SortedData.Table.{empty_index}
use xmongodb.SortedData.Holds.{new_index-HoldsIndex}
use xmongodb.Engine.{Engine, Collection, Database, find_collection}
use xmongodb.Engine.{
  make_namespace, create_database, create_collection, new_wired_tiger_engine, id_index_name,
}
use xmongodb.KvEngine.{make_index_key, new_kv_engine, create_record_store, create_sorted_data}
use xmongodb.RecordStore.{new_record_store}
use xmongodb.SortedData.{new_index}
use xmongodb.Engine.{create_in, EngineError}
use xmongodb.Engine.Inserts.{Loaded}

-- A new engine in which a database and a collection were made.
abbrev pub with_collection : {W : Type 0} → (database collection : Bytes) → Engine W
with_collection database collection =
    (create_collection database collection (create_database database new_wired_tiger_engine).1).1

abbrev pub the_collection : Bytes → Collection
the_collection collection = record {
  name = collection;
  record_store = 0;
  indexes = (id_index_name, 0) ∷ [];
}

-- What that engine is.
abbrev pub made : {W : Type 0} → (database collection : Bytes) → Engine W
made database collection =
    let namespace = make_namespace database collection in
    record new_wired_tiger_engine {
      databases =
          (
            database,
            record { name = database; collections = (collection, the_collection collection) ∷ [] },
          )
          ∷ [];
      kv_engine = record new_wired_tiger_engine.kv_engine {
        record_stores = (namespace, 0) ∷ [];
        indexes = (make_index_key namespace id_index_name, 0) ∷ [];
        store_objects = new_record_store namespace ∷ [];
        index_objects = new_index id_index_name true ∷ [];
      };
    }

lookup_single {ℓ} : {A : Type ℓ} (k : Bytes) (v : A) → Dict.lookup k ((k, v) ∷ []) ≡ some v
unfolding Dict.lookup
lookup_single k v = if_true (bytes_equal k k) _ _ (bytes_equal_refl k)

insert_single {ℓ} : {A : Type ℓ} (k : Bytes) (v w : A) → Dict.insert k w ((k, v) ∷ []) ≡ (k, w) ∷ []
unfolding Dict.insert
insert_single k v w = if_true (bytes_equal k k) _ _ (bytes_equal_refl k)

module _ {W : Type 0} (database collection : Bytes) where
  create_in_found :
      (e : Engine W) (db : Database)
      → Dict.lookup database e.databases ≡ some db
      → create_collection database collection e ≡ create_in database collection e db
  unfolding create_collection
  create_in_found e db there = ground (arith, there)

  find_in_found :
      (e : Engine W) (db : Database) (coll : Collection)
      → Dict.lookup database e.databases ≡ some db
      → Dict.lookup collection db.collections ≡ some coll
      → find_collection database collection e ≡ ok coll
  unfolding find_collection
  find_in_found e db coll there here = ground (arith, there, here)

  pub with_collection-made : with_collection database collection ≡ made {W = W} database collection
  unfolding create_in create_database new_wired_tiger_engine new_kv_engine create_record_store
      create_sorted_data Dict.lookup Dict.insert
  with_collection-made =
      let db : Database = record { name = database; collections = [] } in
      let e1 : Engine W = (create_database database new_wired_tiger_engine).1 in
      ap (λ (r : Result EngineError (Unit {0}) × Engine W). r.1)
        (create_in_found e1 db (lookup_single database db))
      ∙ ap (λ dbs. record (made {W = W} database collection) { databases = dbs })
          (insert_single database db (record {
            name = database;
            collections = (collection, the_collection collection) ∷ [];
          }))

  pub find_collection-made :
      (e : Engine W)
      → e.databases ≡ (made {W = W} database collection).databases
      → find_collection database collection e ≡ ok (the_collection collection)
  find_collection-made e same =
      let db : Database = record {
        name = database;
        collections = (collection, the_collection collection) ∷ [];
      } in
      find_in_found e db (the_collection collection)
        (ap (Dict.lookup database) same ∙ lookup_single database db)
        (lookup_single collection (the_collection collection))

  pub made-Loaded :
      Loaded {W = W} (the_collection collection) 0 [] empty_index (made database collection)
  unfolding new_wired_tiger_engine
  made-Loaded = record {
    store = new_record_store (make_namespace database collection);
    index = new_index id_index_name true;
    how_many = refl;
    name = id_index_name;
    place = 0;
    indexes = refl;
    store_there = refl;
    index_there = refl;
    last_id = refl;
    holds = new_record_store-Holds (make_namespace database collection);
    holds_index = new_index-HoldsIndex id_index_name true;
  }
