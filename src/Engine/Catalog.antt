-- ===== src/Engine/Catalog.antt =====
-- Collections that are created, dropped and created again.
use xmongodb.Common.{ℕ, ◌≡◌, none, some, arith, ok, err, Option-cases, inl, inr}
use xmongodb.Bytes.{Bytes, bytes_equal}
use xmongodb.Bytes.Order.{bytes_equal_refl}
use xmongodb.Dict
use xmongodb.Dict.{Dict, lookup-insert, lookup-remove_if}
use xmongodb.KvEngine
use xmongodb.KvEngine.{KvEngine, store_exists}
use xmongodb.KvEngine.Laws.{create_record_store_exists}
use xmongodb.Engine.{
  Engine, Database, Collection, collection_missing, store_not_created, make_namespace,
  with_collections, create_collection, create_in, drop_collection, drop_in, find_collection,
}

module _ {W : Type 0} (database collection : Bytes) where
  find_parts :
      (e : Engine W) {coll : Collection}
      → find_collection database collection e ≡ ok coll
      → (db : Database) × (Dict.lookup database e.databases ≡ some db)
        × (Dict.lookup collection db.collections ≡ some coll)
  unfolding find_collection
  find_parts e {coll} found = elim (Option-cases (Dict.lookup database e.databases)) [
    | inl absent ↦ absurd (ground (arith, absent))
    | inr (db, here) ↦ (db, here, ground (arith, here))
  ]

  -- A collection that is there, with its record store in the KV engine, cannot be created again
  -- once it was dropped: `DropCollection` removes it from its database and leaves the record store
  -- in the KV engine, on which `CreateCollection` then fails.
  pub drop_then_create :
      (e : Engine W) (coll : Collection) (p : ℕ)
      → find_collection database collection e ≡ ok coll
      → KvEngine.get_record_store (make_namespace database collection) e.kv_engine ≡ ok p
      → (e' : Engine W) × (drop_collection database collection e ≡ (ok tt, e'))
        × (find_collection database collection e' ≡ err collection_missing)
        × (create_collection database collection e' ≡ (err (store_not_created store_exists), e'))
  drop_then_create e coll p found store =
      let (db, here, there) = find_parts e found in
      let rest = Dict.remove collection db.collections in
      let e' = with_collections database db rest e in
      let again : Dict.lookup database e'.databases ≡ some (record db { collections = rest }) =
        ground (
          arith,
          lookup-insert database database (record db { collections = rest }) e.databases,
          bytes_equal_refl database,
        ) in
      let gone : Dict.lookup collection rest ≡ none = ground (
        arith,
        lookup-remove_if (bytes_equal collection) collection db.collections,
        bytes_equal_refl collection,
      ) in
      (
        e',
        unfold drop_collection drop_in in ground (arith, here, there),
        unfold find_collection in ground (arith, again, gone),
        unfold create_collection create_in in
            ground (
              arith,
              again,
              gone,
              create_record_store_exists (make_namespace database collection) e.kv_engine p store,
            ),
      )
