-- ===== src/Engine/Docs.antt =====
-- `Insert`, `Find` and the empty methods of server/storage/engine.go. `encoding/json` is the parameter
-- `json`; `V` are the values of a document that are not texts.
use xmongodb.Common.{
  ℕ, Option, none, some, List, [], ◌∷◌, Run, done, panic, must, ◌>>=◌, Result, ok, err, get_elem?,
  set,
}
use xmongodb.Common.Int.{pos}
use xmongodb.Common.Word.{add_int64}
use xmongodb.Bytes.{Bytes}
use xmongodb.Dict
use xmongodb.Dict.{Dict}
use xmongodb.RecordId.{RecordId, null_record_id, new_record_id_from_long}
use xmongodb.RecordId.Text
use xmongodb.RecordId.Text.{codes}
use xmongodb.RecordStore
use xmongodb.RecordStore.{RecordStore, StoreError}
use xmongodb.SortedData
use xmongodb.SortedData.{BTreeIndex, IndexError}
use xmongodb.Engine.{Engine, EngineError, Collection, find_collection}

pub data Value (V : Type 0) : Type 0 where
  text : Bytes → Value V
  other : V → Value V

abbrev pub Document : Type 0 → Type 0
Document V = Dict (Value V)

-- What the engine uses of `encoding/json`: `none` is an error.
pub record Codec (V : Type 0) : Type 0 where
  pub marshal : Document V → Option Bytes
  pub unmarshal : Bytes → Option (Document V)

pub data DocError : Type 0 where
  engine_error : EngineError → DocError
  not_serialised : DocError
  store_error : StoreError → DocError
  index_error : IndexError → DocError

abbrev pub id_field : Bytes
id_field = codes "_id"

module _ {V : Type 0} where
  -- A document gets an `_id` if it has none: the text of its record identifier.
  unfoldable pub with_id : RecordId → Document V → Document V
  with_id id doc = elim (Dict.lookup id_field doc) [
    | some v ↦ doc
    | none ↦ Dict.insert id_field (text (Text.string id)) doc
  ]

  -- `doc["_id"].(string)` panics on every other value.
  unfoldable pub id_text : Document V → Run Bytes
  id_text doc = elim (Dict.lookup id_field doc) [
    | none ↦ panic
    | some (text s) ↦ done s
    | some (other v) ↦ panic
  ]

module _ {W : Type 0} where
  abbrev pub set_store : ℕ → RecordStore → Engine W → Engine W
  set_store p rs e = record e {
    kv_engine = record e.kv_engine { store_objects = set e.kv_engine.store_objects p rs };
  }

  abbrev pub set_index : ℕ → BTreeIndex → Engine W → Engine W
  set_index p idx e = record e {
    kv_engine = record e.kv_engine { index_objects = set e.kv_engine.index_objects p idx };
  }

abbrev pub Outcome : Type 0 → Type 0
Outcome W = Run (Result DocError (Unit {0}) × Engine W)

module _ {V : Type 0} (json : Codec V) where
  -- The loop of `Find`: what cannot be decoded is left out.
  unfoldable pub decode_all : List (Bytes × Bytes) → List (Document V)
  decode_all [] = []
  decode_all ((k, body) ∷ rest) = elim (json.unmarshal body) [
    | none ↦ decode_all rest
    | some doc ↦ doc ∷ decode_all rest
  ]

module _ {V W : Type 0} (json : Codec V) where
  -- The loop over the indexes of the collection.
  unfoldable pub insert_into_indexes : Dict ℕ → Document V → RecordId → Engine W → Outcome W
  unfolding id_text
  insert_into_indexes [] doc id e = done (ok tt, e)
  insert_into_indexes ((name, p) ∷ rest) doc id e = id_text doc >>= λ key.
      must (get_elem? e.kv_engine.index_objects p) >>= λ idx. SortedData.insert idx key id >>= λ o.
      elim o.0 [
        | ok _ ↦ insert_into_indexes rest doc id (set_index p o.1 e)
        | err f ↦ done (err (index_error f), set_index p o.1 e)
      ]

  unfoldable pub insert_body : Collection → Document V → RecordId → Bytes → Engine W → Outcome W
  unfolding insert_into_indexes
  insert_body coll doc id body e =
      must (get_elem? e.kv_engine.store_objects coll.record_store) >>= λ rs.
      RecordStore.insert_record rs id body >>= λ o. elim o.0 [
        | ok _ ↦ insert_into_indexes coll.indexes doc id (set_store coll.record_store o.1 e)
        | err f ↦ done (err (store_error f), set_store coll.record_store o.1 e)
      ]

  -- One round of the loop of `Insert`.
  unfoldable pub insert_document : Collection → Document V → Engine W → Outcome W
  unfolding with_id insert_body
  insert_document coll doc e =
      let next = add_int64 e.next_record_id (pos 1) in
      let id = new_record_id_from_long next in
      let e1 : Engine W = record e { next_record_id = next } in
      elim (json.marshal (with_id id doc)) [
        | none ↦ done (err not_serialised, e1)
        | some body ↦ insert_body coll (with_id id doc) id body e1
      ]

  unfoldable pub insert_documents : Collection → List (Document V) → Engine W → Outcome W
  unfolding insert_document
  insert_documents coll [] e = done (ok tt, e)
  insert_documents coll (doc ∷ docs) e = insert_document coll doc e >>= λ o. elim o.0 [
    | ok _ ↦ insert_documents coll docs o.1
    | err f ↦ done (err f, o.1)
  ]

  -- `Insert`. A document is a value: the `_id` that Go writes into the caller's own map stays here.
  unfoldable pub insert : (database collection : Bytes) → List (Document V) → Engine W → Outcome W
  unfolding insert_documents
  insert database collection docs e = elim (find_collection database collection e) [
    | err f ↦ done (err (engine_error f), e)
    | ok coll ↦ insert_documents coll docs e
  ]

  -- `Find`: the filter is not read.
  unfoldable pub find :
      (database collection : Bytes) (filter : Document V)
      → Engine W
      → Run (Result DocError (List (Document V)))
  unfolding decode_all
  find database collection filter e = elim (find_collection database collection e) [
    | err f ↦ done (err (engine_error f))
    | ok coll ↦ must (get_elem? e.kv_engine.store_objects coll.record_store) >>= λ rs.
        RecordStore.scan rs null_record_id >>= λ r. elim r [
          | err f ↦ done (err (store_error f))
          | ok c ↦ done (ok (decode_all json c.entries))
        ]
  ]

module _ {V W : Type 0} where
  -- The methods that are not implemented succeed and do nothing.
  abbrev pub update :
      (database collection : Bytes) (filter change : Document V)
      → Engine W
      → Result DocError (Unit {0}) × Engine W
  update database collection filter change e = (ok tt, e)

  abbrev pub delete :
      (database collection : Bytes) (filter : Document V)
      → Engine W
      → Result DocError (Unit {0}) × Engine W
  delete database collection filter e = (ok tt, e)
