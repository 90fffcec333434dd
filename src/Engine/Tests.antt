-- ===== src/Engine/Tests.antt =====
-- The theorems on the engine at a concrete engine.
use xmongodb.Common.{
  List, ℕ, ◌≡◌, refl, [], ◌∷◌, ok, err, true, ◌+◌, ◌<◌, Option, none, some, arith, done, length,
  get_elem?,
}
use xmongodb.Common.Int.{pos}
use xmongodb.Dict
use xmongodb.Bytes.{lex, Bytes}
use xmongodb.RecordId.{as_bytes, put_uint64, new_record_id_from_long}
use xmongodb.RecordId.Text.{string}
use xmongodb.SortedData.Composite.{make_composite_key, make_next_key, record_id_bytes}
use xmongodb.SortedData.Table.{empty_index}
use xmongodb.Engine.Docs.{insert}
use xmongodb.Engine.Inserts.{AreAccepted, no_document, one_document, with_ids}
use xmongodb.Engine.Creation.{with_collection}
use xmongodb.Engine.Refines.{find-insert}
use xmongodb.Common.Word.{add_int64}
use xmongodb.BTree
use xmongodb.BTree.Heap.{Node, new_leaf_node, store}
use xmongodb.BTree.Find.{find_leaf}
use xmongodb.BTree.Valid.{IsValid, Found}
use xmongodb.BTree.Replace.{store-IsValid, new_btree-IsValid}
use xmongodb.BTree.Chain.{end_of_chain, link, Walk}
use xmongodb.SortedData
use xmongodb.SortedData.{BTreeIndex, empty_index_key}
use xmongodb.RecordStore.{RecordStore, new_record_store, not_exists, key_of, get_record}
use xmongodb.Engine.{id_index_name}
use xmongodb.Engine.Docs.{
  Value, text, other, Document, Codec, index_error, id_field, with_id, id_text, insert_document,
  find,
}
use xmongodb.Engine.Documents.{next_id, next_key, insert_document_not_undone}
use xmongodb.KvEngine
use xmongodb.KvEngine.{store_exists}
use xmongodb.Engine.{
  Engine, Collection, collection_missing, store_not_created, make_namespace, find_collection,
  drop_collection, create_collection,
}
use xmongodb.Engine.Catalog.{drop_then_create}

-- The database 97 with the one collection 98.
abbrev users : Collection
users = record { name = 98 ∷ []; record_store = 0; indexes = [] }

abbrev filled : Engine ℕ
filled = record {
  databases = (97 ∷ [], record { name = 97 ∷ []; collections = (98 ∷ [], users) ∷ [] }) ∷ [];
  running = true;
  kv_engine = record {
    running = true;
    record_stores = (97 ∷ b'.' ∷ 98 ∷ [], 0) ∷ [];
    indexes = [];
    sessions = [];
    session_count = pos 0;
    config = record { cache_size = pos 8; max_sessions = pos 1; checkpoint_enabled = true };
    store_objects = new_record_store (97 ∷ b'.' ∷ 98 ∷ []) ∷ [];
    index_objects = [];
    session_objects = [];
  };
  next_record_id = pos 0;
}

find_users : find_collection (97 ∷ []) (98 ∷ []) filled ≡ ok users
unfolding find_collection Dict.lookup lex
find_users = refl

store_of_users :
    KvEngine.get_record_store (make_namespace (97 ∷ []) (98 ∷ [])) filled.kv_engine ≡ ok 0
unfolding KvEngine.get_record_store Dict.lookup lex
store_of_users = refl

drop_then_create_example :
    (e' : Engine ℕ) × (drop_collection (97 ∷ []) (98 ∷ []) filled ≡ (ok tt, e'))
    × (find_collection (97 ∷ []) (98 ∷ []) e' ≡ err collection_missing)
    × (create_collection (97 ∷ []) (98 ∷ []) e' ≡ (err (store_not_created store_exists), e'))
drop_then_create_example =
    drop_then_create (97 ∷ []) (98 ∷ []) filled users 0 find_users store_of_users

-- Documents that hold their `_id` alone, written as its bytes.
abbrev marshal_id : Option (Value ℕ) → Option Bytes
marshal_id (some (text s)) = some s
marshal_id (some (other v)) = none
marshal_id none = none

abbrev plain : Codec ℕ
plain = record {
  marshal = λ d. marshal_id (Dict.lookup id_field d);
  unmarshal = λ b. some ((id_field, text b) ∷ []);
}

abbrev first_leaf : Node
first_leaf = record new_leaf_node {
  keys = (0 ∷ 0 ∷ 0 ∷ 0 ∷ 0 ∷ 0 ∷ 0 ∷ 1 ∷ []) ∷ [];
  values = (120 ∷ []) ∷ [];
}

-- A record store with one record, whose identifier is 1.
abbrev first_store : RecordStore
first_store = record (new_record_store []) {
  tree = store (BTree.new_btree 128) 0 first_leaf;
  num_records = pos 1;
  data_size = pos 1;
}

abbrev id_index : BTreeIndex
id_index = SortedData.new_index id_index_name true

abbrev indexed : Collection
indexed = record users { indexes = (id_index_name, 0) ∷ [] }

abbrev stocked : Engine ℕ
stocked = record filled {
  kv_engine = record filled.kv_engine {
    store_objects = first_store ∷ [];
    index_objects = id_index ∷ [];
  };
  next_record_id = pos 1;
}

-- A document whose `_id` is the empty text, which the index refuses.
abbrev nameless : Document ℕ
nameless = (id_field, text []) ∷ []

first-IsValid : IsValid first_store.tree
unfolding BTree.new_btree
first-IsValid =
    store-IsValid (new_btree-IsValid 128) 0 new_leaf_node first_leaf refl refl refl
      (record { parallel = refl; sorted = (tt, tt); small = omega arith })

first-Walk : Walk first_store.tree (0 ∷ [])
unfolding BTree.new_btree store find_leaf lex
first-Walk = record {
  leaf = 0;
  leaves = first_leaf ∷ [];
  found = refl;
  chain = link refl end_of_chain;
  fits = omega arith;
  parallel = (refl, tt);
  ascending = (tt, tt);
}

first-Found : Found first_store.tree (find_leaf first_store.tree (next_key stocked))
unfolding BTree.new_btree store find_leaf
first-Found = record { leaf = 0; node = first_leaf; result = refl; holds = refl; is_leaf = refl }

room_in_first : length first-Found.node.keys + 1 < first_store.tree.order
unfolding BTree.new_btree store first-Found
room_in_first = omega arith

find_stocked : find_collection (97 ∷ []) (98 ∷ []) stocked ≡ ok users
unfolding find_collection Dict.lookup lex
find_stocked = refl

second_fresh : get_record first_store (next_id stocked) ≡ done (err not_exists)
unfolding get_record key_of as_bytes put_uint64 BTree.new_btree store BTree.get lex add_int64
second_fresh = refl

nameless_kept : plain.marshal (with_id (next_id stocked) nameless) ≡ some []
unfolding with_id Dict.lookup lex
nameless_kept = refl

nameless_text : id_text (with_id (next_id stocked) nameless) ≡ done []
unfolding with_id id_text Dict.lookup lex
nameless_text = refl

nameless_refused :
    SortedData.insert id_index [] (next_id stocked) ≡ done (err empty_index_key, id_index)
unfolding SortedData.insert
nameless_refused = refl

insert_document_not_undone_example :
    (e' : Engine ℕ) × (rs' : RecordStore) × (insert_document plain indexed nameless stocked
      ≡ done (err (index_error empty_index_key), e'))
    × (get_elem? e'.kv_engine.store_objects indexed.record_store ≡ some rs')
    × (get_record rs' (next_id stocked) ≡ done (ok []))
insert_document_not_undone_example =
    insert_document_not_undone plain indexed nameless stocked [] [] id_index_name 0 first_store
      id_index id_index empty_index_key first-IsValid first-Found room_in_first second_fresh
      nameless_kept nameless_text refl refl refl nameless_refused

-- A document without an `_id`, and one with an `_id` of its own.
abbrev two_documents : List (Document ℕ)
two_documents = [] ∷ ((id_field, text (120 ∷ [])) ∷ []) ∷ []

two_documents-AreAccepted : AreAccepted plain 0 empty_index two_documents
unfolding string with_id id_text Dict.lookup Dict.insert lex make_composite_key make_next_key
    record_id_bytes as_bytes put_uint64 add_int64
two_documents-AreAccepted =
    one_document
      (record {
        body = string (new_record_id_from_long (pos 1));
        key = string (new_record_id_from_long (pos 1));
        serialises = refl;
        reads_back = refl;
        named = refl;
        taken = refl;
      })
      (one_document
        (record {
          body = 120 ∷ [];
          key = 120 ∷ [];
          serialises = refl;
          reads_back = refl;
          named = refl;
          taken = refl;
        })
        no_document)

find-insert_example :
    (e : Engine ℕ) × (insert plain
        (97 ∷ [])
        (98 ∷ [])
        two_documents
        (with_collection (97 ∷ []) (98 ∷ []))
      ≡ done (ok tt, e))
    × ((filter : Document ℕ)
        → find plain (97 ∷ []) (98 ∷ []) filter e ≡ done (ok (with_ids 0 two_documents)))
find-insert_example =
    find-insert (97 ∷ []) (98 ∷ []) plain two_documents (omega arith) two_documents-AreAccepted
