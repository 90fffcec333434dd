-- ===== src/RecordStore.antt =====
-- server/storage/record_store.go: records by identifier, in a B+ tree of order 128.
-- The `ctx` argument is never read. The atomic counters are fields; each method is one step.
pub mod Cursors
pub mod Valid
pub mod Laws
pub mod Table
pub mod Holds
pub mod Refines
pub mod Race
pub mod Lost
pub mod Alone
pub mod Interleavings
pub mod Advances
pub mod Outcomes
mod Tests
use xmongodb.Common.{
  ℕ, suc, Bool, true, false, Option, none, some, List, [], ◌∷◌, Run, done, ◌>>=◌, Result, ok, err,
  length, ◌-◌,
}
use xmongodb.Common.Int.{ℤ, pos, negsuc, sub_ℕ}
use xmongodb.Common.Word.{add_int64, neg_int64}
use xmongodb.Bytes.{Bytes}
use xmongodb.RecordId.{RecordId, is_null, as_bytes}
use xmongodb.BTree
use xmongodb.BTree.Heap.{BTree}
use xmongodb.BTree.{TreeError}
use Cursors.{Cursor, new_cursor}

pub data StoreError : Type 0 where
  null_record_id not_bytes already_exists not_exists : StoreError
  tree_error : TreeError → StoreError

pub record RecordStore : Type 0 where
  pub tree : BTree
  pub num_records : ℤ
  pub data_size : ℤ
  pub namespace : Bytes

-- `NewRecordStore`
unfoldable pub new_record_store : Bytes → RecordStore
new_record_store namespace = record {
  tree = BTree.new_btree 128;
  num_records = pos 0;
  data_size = pos 0;
  namespace = namespace;
}

-- The two checks that the methods share: the identifier as a key.
unfoldable pub key_of : RecordId → Result StoreError Bytes
key_of id = elim (is_null id) [
  | true ↦ err null_record_id
  | false ↦ elim (as_bytes id) [ none ↦ err not_bytes | some key ↦ ok key ]
]

-- What a method returns: an error, or nothing, and the store.
abbrev pub Outcome : Type 0
Outcome = Run (Result StoreError (Unit {0}) × RecordStore)

-- `fmt.Errorf` round an error of the tree, or the store with the new tree and counters.
abbrev pub after_tree :
    RecordStore → (BTree → RecordStore) → Result TreeError (Unit {0}) × BTree → Outcome
after_tree rs next (ok _, t) = done (ok tt, next t)
after_tree rs next (err e, t) = done (err (tree_error e), record rs { tree = t })

unfoldable pub insert_new : RecordStore → Bytes → Bytes → Option Bytes → Outcome
insert_new rs key body (some _) = done (err already_exists, rs)
insert_new rs key body none =
    BTree.insert rs.tree key body
    >>= after_tree rs λ t. record rs {
      tree = t;
      num_records = add_int64 rs.num_records (pos 1);
      data_size = add_int64 rs.data_size (pos (length body));
    }

unfoldable pub insert_record : RecordStore → RecordId → Bytes → Outcome
insert_record rs id body = elim (key_of id) [
  | err e ↦ done (err e, rs)
  | ok key ↦ BTree.get rs.tree key >>= insert_new rs key body
]

unfoldable pub update_old : RecordStore → Bytes → Bytes → Option Bytes → Outcome
update_old rs key body none = done (err not_exists, rs)
update_old rs key body (some old) =
    BTree.insert rs.tree key body
    >>= after_tree rs λ t. record rs {
      tree = t;
      data_size = add_int64 rs.data_size (sub_ℕ (length body) (length old));
    }

unfoldable pub update_record : RecordStore → RecordId → Bytes → Outcome
update_record rs id body = elim (key_of id) [
  | err e ↦ done (err e, rs)
  | ok key ↦ BTree.get rs.tree key >>= update_old rs key body
]

unfoldable pub delete_old : RecordStore → Bytes → Option Bytes → Outcome
delete_old rs key none = done (err not_exists, rs)
delete_old rs key (some old) =
    BTree.delete rs.tree key
    >>= after_tree rs λ t. record rs {
      tree = t;
      num_records = add_int64 rs.num_records (negsuc 0);
      data_size = add_int64 rs.data_size (neg_int64 (pos (length old)));
    }

unfoldable pub delete_record : RecordStore → RecordId → Outcome
delete_record rs id = elim (key_of id) [
  | err e ↦ done (err e, rs)
  | ok key ↦ BTree.get rs.tree key >>= delete_old rs key
]

abbrev pub found_record : Option Bytes → Result StoreError Bytes
found_record none = err not_exists
found_record (some body) = ok body

unfoldable pub get_record : RecordStore → RecordId → Run (Result StoreError Bytes)
get_record rs id = elim (key_of id) [
  | err e ↦ done (err e)
  | ok key ↦ BTree.get rs.tree key >>= λ o. done (found_record o)
]

-- `Scan`: without an identifier it begins at the key of one zero byte.
unfoldable pub scan : RecordStore → RecordId → Run (Result StoreError Cursor)
scan rs start = elim (is_null start) [
  | true ↦ BTree.range rs.tree (0 ∷ []) none >>= λ es. done (ok (new_cursor es))
  | false ↦ elim (as_bytes start) [
    | none ↦ done (err not_bytes)
    | some key ↦ BTree.range rs.tree key none >>= λ es. done (ok (new_cursor es))
  ]
]

unfoldable pub truncate : RecordStore → RecordStore
truncate rs = record rs { tree = BTree.new_btree 128; num_records = pos 0; data_size = pos 0 }
