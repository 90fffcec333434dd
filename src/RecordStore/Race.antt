-- ===== src/RecordStore/Race.antt =====
-- The methods that write, in several goroutines. The tree has a lock of its own and the counters are atomic,
-- but the methods hold no lock around their calls: between two of them other goroutines may act.
use xmongodb.Common.{Option, none, some, Run, done, ◌>>=◌, Result, ok, err, length}
use xmongodb.Common.Int.{pos, negsuc, sub_ℕ}
use xmongodb.Common.Word.{add_int64, neg_int64}
use xmongodb.Bytes.{Bytes}
use xmongodb.BTree
use xmongodb.BTree.Heap.{BTree}
use xmongodb.BTree.{TreeError}
use xmongodb.RecordId.{new_record_id_from_long}
use xmongodb.RecordStore.{
  RecordStore, StoreError, already_exists, not_exists, tree_error, Outcome, key_of,
}
use xmongodb.RecordStore.Table.{Call, insert_call, update_call, delete_call}

pub data Method : Type 0 where
  insert_method update_method delete_method : Method

-- Where a call stands. `InsertRecord`: before `tree.Get`, before `tree.Insert`, before the first and the
-- second `atomic.AddInt64`. `UpdateRecord`: before `tree.Get`, before `tree.Insert`, before
-- `atomic.AddInt64`. `DeleteRecord`: before `tree.Get`, before `tree.Delete`, before the first and the
-- second `atomic.AddInt64`. Or a call has its answer.
pub data Goroutine : Type 0 where
  checking inserting : (key body : Bytes) → Goroutine
  counting sizing : (body : Bytes) → Goroutine
  looking : (key body : Bytes) → Goroutine
  updating : (key body old : Bytes) → Goroutine
  resizing : (body old : Bytes) → Goroutine
  seeking : (key : Bytes) → Goroutine
  deleting : (key old : Bytes) → Goroutine
  uncounting shrinking : (old : Bytes) → Goroutine
  finished : Method → Result StoreError (Unit {0}) → Goroutine

-- A method up to `tree.Get`.
abbrev pub begin_with : Method → (Bytes → Goroutine) → Result StoreError Bytes → Goroutine
begin_with m next (err e) = finished m (err e)
begin_with m next (ok key) = next key

abbrev pub begin : Call → Goroutine
begin (insert_call id body) =
    begin_with insert_method (λ key. checking key body) (key_of (new_record_id_from_long id))
begin (update_call id body) =
    begin_with update_method (λ key. looking key body) (key_of (new_record_id_from_long id))
begin (delete_call id) = begin_with delete_method seeking (key_of (new_record_id_from_long id))

abbrev pub Stepped : Type 0
Stepped = Run (RecordStore × Goroutine)

-- What follows `tree.Get`.
abbrev pub after_check : RecordStore → (key body : Bytes) → Option Bytes → Stepped
after_check rs key body none = done (rs, inserting key body)
after_check rs key body (some old) = done (rs, finished insert_method (err already_exists))

abbrev pub after_look : RecordStore → (key body : Bytes) → Option Bytes → Stepped
after_look rs key body none = done (rs, finished update_method (err not_exists))
after_look rs key body (some old) = done (rs, updating key body old)

abbrev pub after_seek : RecordStore → (key : Bytes) → Option Bytes → Stepped
after_seek rs key none = done (rs, finished delete_method (err not_exists))
after_seek rs key (some old) = done (rs, deleting key old)

-- What follows `tree.Insert` and `tree.Delete`.
abbrev pub after_write :
    RecordStore → Method → Goroutine → Result TreeError (Unit {0}) × BTree → Stepped
after_write rs m next (ok _, t) = done (record rs { tree = t }, next)
after_write rs m next (err e, t) = done (record rs { tree = t }, finished m (err (tree_error e)))

-- The next step of a call.
unfoldable pub step : RecordStore → Goroutine → Stepped
step rs (checking key body) = BTree.get rs.tree key >>= after_check rs key body
step rs (inserting key body) =
    BTree.insert rs.tree key body >>= after_write rs insert_method (counting body)
step rs (counting body) =
    done (record rs { num_records = add_int64 rs.num_records (pos 1) }, sizing body)
step rs (sizing body) = done (
  record rs { data_size = add_int64 rs.data_size (pos (length body)) },
  finished insert_method (ok tt),
)
step rs (looking key body) = BTree.get rs.tree key >>= after_look rs key body
step rs (updating key body old) =
    BTree.insert rs.tree key body >>= after_write rs update_method (resizing body old)
step rs (resizing body old) = done (
  record rs { data_size = add_int64 rs.data_size (sub_ℕ (length body) (length old)) },
  finished update_method (ok tt),
)
step rs (seeking key) = BTree.get rs.tree key >>= after_seek rs key
step rs (deleting key old) =
    BTree.delete rs.tree key >>= after_write rs delete_method (uncounting old)
step rs (uncounting old) =
    done (record rs { num_records = add_int64 rs.num_records (negsuc 0) }, shrinking old)
step rs (shrinking old) = done (
  record rs { data_size = add_int64 rs.data_size (neg_int64 (pos (length old))) },
  finished delete_method (ok tt),
)
step rs (finished m r) = done (rs, finished m r)

-- A call that no other call interrupts.
abbrev pub answer_of : RecordStore × Goroutine → Outcome
answer_of (rs, finished m r) = done (r, rs)
answer_of (rs, other) = Run.panic

unfoldable pub alone : RecordStore → Goroutine → Outcome
alone rs p =
    step rs p >>= λ a. step a.0 a.1 >>= λ b. step b.0 b.1 >>= λ c. step c.0 c.1 >>= answer_of
