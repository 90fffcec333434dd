-- ===== src/SortedData/Race.antt =====
-- `Insert` and `Remove` of an index in several goroutines. The tree has a lock of its own, and the mutex of
-- the index guards the counter alone: between the calls of a method other goroutines may act.
use xmongodb.Common.{Bool, true, false, [], ◌∷◌, Run, done, ◌>>=◌, Result, ok, err, if◌then◌else◌}
use xmongodb.Common.Int.{pos, negsuc}
use xmongodb.Common.Word.{add_int64}
use xmongodb.Bytes.{Bytes}
use xmongodb.RecordId.{RecordId, is_null}
use xmongodb.BTree
use xmongodb.BTree.Heap.{BTree}
use xmongodb.BTree.{TreeError}
use xmongodb.SortedData.{
  BTreeIndex, IndexError, empty_index_key, null_record_id_error, duplicate_key, tree_error, Outcome,
  key_exists,
}
use xmongodb.SortedData.Composite.{make_composite_key, record_id_bytes}
use xmongodb.SortedData.Table.{IndexCall, insert_call, remove_call}

pub data IndexMethod : Type 0 where
  insert_method remove_method : IndexMethod

-- Where a call stands. `Insert`: before `keyExists`, before `tree.Insert`, before it counts. `Remove`:
-- before `tree.Delete`, before it counts. Or a call has its answer.
pub data IndexGoroutine : Type 0 where
  probing entering removing : (key : Bytes) (id : RecordId) → IndexGoroutine
  counting uncounting : IndexGoroutine
  finished : IndexMethod → Result IndexError (Unit {0}) → IndexGoroutine

-- A method up to its first call, on an index that is unique or not.
abbrev pub begin_index : Bool → IndexCall → IndexGoroutine
begin_index unique (insert_call [] id) = finished insert_method (err empty_index_key)
begin_index unique (insert_call (b ∷ bs) id) =
    if is_null id
    then finished insert_method (err null_record_id_error)
    else if unique
    then probing (b ∷ bs) id
    else entering (b ∷ bs) id
begin_index unique (remove_call [] id) = finished remove_method (err empty_index_key)
begin_index unique (remove_call (b ∷ bs) id) =
    if is_null id then finished remove_method (err null_record_id_error) else removing (b ∷ bs) id

abbrev pub SteppedIndex : Type 0
SteppedIndex = Run (BTreeIndex × IndexGoroutine)

abbrev pub after_probe : BTreeIndex → Bytes → RecordId → Bool → SteppedIndex
after_probe idx key id true = done (idx, finished insert_method (err duplicate_key))
after_probe idx key id false = done (idx, entering key id)

-- What follows `tree.Insert` and `tree.Delete`.
abbrev pub after_index_write :
    BTreeIndex → IndexMethod → IndexGoroutine → Result TreeError (Unit {0}) × BTree → SteppedIndex
after_index_write idx m next (ok _, t) = done (record idx { tree = t }, next)
after_index_write idx m next (err e, t) =
    done (record idx { tree = t }, finished m (err (tree_error e)))

-- The next step of a call.
unfoldable pub index_step : BTreeIndex → IndexGoroutine → SteppedIndex
index_step idx (probing key id) = key_exists idx key >>= after_probe idx key id
index_step idx (entering key id) =
    BTree.insert idx.tree (make_composite_key key id) (record_id_bytes id)
    >>= after_index_write idx insert_method counting
index_step idx counting =
    done (
      record idx { num_entries = add_int64 idx.num_entries (pos 1) },
      finished insert_method (ok tt),
    )
index_step idx (removing key id) =
    BTree.delete idx.tree (make_composite_key key id)
    >>= after_index_write idx remove_method uncounting
index_step idx uncounting = done (
  record idx { num_entries = add_int64 idx.num_entries (negsuc 0) },
  finished remove_method (ok tt),
)
index_step idx (finished m r) = done (idx, finished m r)

-- A call that no other call interrupts.
abbrev pub index_answer : BTreeIndex × IndexGoroutine → Outcome
index_answer (idx, finished m r) = done (r, idx)
index_answer (idx, other) = Run.panic

unfoldable pub alone_index : BTreeIndex → IndexGoroutine → Outcome
alone_index idx p =
    index_step idx p >>= λ a. index_step a.0 a.1 >>= λ b. index_step b.0 b.1 >>= index_answer
