-- ===== src/SortedData.antt =====
-- server/storage/sorted_data.go: an index, as a B+ tree over composite keys.
-- The `ctx` argument is never read; the mutex guards the counter alone, each method is one step.
pub mod Table
pub mod Holds
pub mod Refines
pub mod Composite
pub mod IndexCursors
pub mod Keys
pub mod Seeks
pub mod Laws
pub mod Race
pub mod Alone
pub mod Advances
pub mod Outcomes
mod Tests
use xmongodb.Common.{
  ℕ, suc, Bool, true, false, Option, none, some, List, [], ◌∷◌, ◌++◌, Run, done, ◌>>=◌, Result, ok,
  err, length, ◌==◌, if◌then◌else◌,
}
use xmongodb.Common.Int.{ℤ, pos, negsuc}
use xmongodb.Common.Word.{add_int64}
use xmongodb.Bytes.{Bytes}
use xmongodb.RecordId.{RecordId, is_null, null_record_id}
use xmongodb.BTree
use xmongodb.BTree.Heap.{BTree}
use xmongodb.BTree.{TreeError}
use Composite.{make_composite_key, make_next_key, record_id_bytes}
use IndexCursors.{IndexCursor, new_index_cursor}

pub data IndexError : Type 0 where
  empty_index_key null_record_id_error duplicate_key : IndexError
  tree_error : TreeError → IndexError

pub record BTreeIndex : Type 0 where
  pub tree : BTree
  pub name : Bytes
  pub unique : Bool
  pub num_entries : ℤ

-- `NewSortedDataInterface`
unfoldable pub new_index : Bytes → Bool → BTreeIndex
new_index name unique = record {
  tree = BTree.new_btree 128;
  name = name;
  unique = unique;
  num_entries = pos 0;
}

-- `keyExists`: some entry stands between the composite key and the next key.
unfoldable pub key_exists : BTreeIndex → Bytes → Run Bool
key_exists idx key =
    BTree.range idx.tree (make_composite_key key null_record_id) (some (make_next_key key))
    >>= λ es. done (if length es == 0 then false else true)

abbrev pub Outcome : Type 0
Outcome = Run (Result IndexError (Unit {0}) × BTreeIndex)

-- What follows the call of the tree: an error, or the counter moved by `step`.
abbrev pub after_tree : BTreeIndex → ℤ → Result TreeError (Unit {0}) × BTree → Outcome
after_tree idx step (err e, t) = done (err (tree_error e), record idx { tree = t })
after_tree idx step (ok _, t) =
    done (ok tt, record idx { tree = t; num_entries = add_int64 idx.num_entries step })

unfoldable pub insert_entry : BTreeIndex → Bytes → RecordId → Outcome
insert_entry idx key id =
    BTree.insert idx.tree (make_composite_key key id) (record_id_bytes id)
    >>= after_tree idx (pos 1)

-- `Insert`
unfoldable pub insert : BTreeIndex → Bytes → RecordId → Outcome
insert idx [] id = done (err empty_index_key, idx)
insert idx (b ∷ bs) id =
    let key = b ∷ bs in
    let checked = key_exists idx key >>= λ found.
    (if found then done (err duplicate_key, idx) else insert_entry idx key id) in
    if is_null id
    then done (err null_record_id_error, idx)
    else if idx.unique
    then checked
    else insert_entry idx key id

unfoldable pub remove : BTreeIndex → Bytes → RecordId → Outcome
remove idx [] id = done (err empty_index_key, idx)
remove idx (b ∷ bs) id =
    let deleted =
      BTree.delete idx.tree (make_composite_key (b ∷ bs) id) >>= after_tree idx (negsuc 0) in
    if is_null id then done (err null_record_id_error, idx) else deleted

unfoldable pub seek : BTreeIndex → Bytes → Run (Result IndexError IndexCursor)
seek idx [] = done (err empty_index_key)
seek idx (b ∷ bs) =
    let key = b ∷ bs in
    BTree.range idx.tree (make_composite_key key null_record_id) (some (make_next_key key))
    >>= λ es. done (ok (new_index_cursor es))

-- `none` is a nil key: no bound on that side.
abbrev pub range_start : Option Bytes → Bytes
range_start none = []
range_start (some k) = make_composite_key k null_record_id

abbrev pub range_end : Option Bytes → Option Bytes
range_end none = none
range_end (some k) = some (make_composite_key k null_record_id)

unfoldable pub seek_range :
    BTreeIndex → Option Bytes → Option Bytes → Run (Result IndexError IndexCursor)
seek_range idx start end = BTree.range idx.tree (range_start start) (range_end end) >>= λ es.
    done (ok (new_index_cursor es))

unfoldable pub is_empty : BTreeIndex → Bool
is_empty idx = elim idx.num_entries [ pos n ↦ n == 0 | negsuc n ↦ false ]

unfoldable pub clear : BTreeIndex → BTreeIndex
clear idx = record idx { tree = BTree.new_btree 128; num_entries = pos 0 }
