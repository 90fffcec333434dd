-- ===== src/SortedData/Table.antt =====
-- An index on which a client calls `Insert` and `Remove`, next to a table: the composite keys with what is
-- stored under them, in order, and the counter of entries.
use xmongodb.Common.{
  ℕ, ◌≡◌, Bool, Option, none, some, List, [], ◌∷◌, Run, done, ◌>>=◌, Result, ok, err, length, ◌==◌,
  if◌then◌else◌,
}
use xmongodb.Common.Int.{ℤ, pos, negsuc}
use xmongodb.Common.Word.{add_int64}
use xmongodb.Bytes.{Bytes}
use xmongodb.RecordId.{RecordId, is_null, null_record_id}
use xmongodb.BTree.{key_not_found}
use xmongodb.BTree.Chain.{Entries, in_range}
use xmongodb.BTree.Sorted.{lookup_in, insert_in, delete_in}
use xmongodb.SortedData.{
  BTreeIndex, IndexError, empty_index_key, null_record_id_error, duplicate_key, tree_error, Outcome,
  insert, remove, seek, seek_range, range_start, range_end,
}
use xmongodb.SortedData.Composite.{make_composite_key, make_next_key, record_id_bytes}
use xmongodb.SortedData.IndexCursors.{new_index_cursor}

pub data IndexCall : Type 0 where
  insert_call remove_call : (key : Bytes) (id : RecordId) → IndexCall

unfoldable pub call_index : BTreeIndex → IndexCall → Outcome
call_index idx (insert_call key id) = insert idx key id
call_index idx (remove_call key id) = remove idx key id

abbrev pub Answers : Type 0
Answers = List (Result IndexError (Unit {0}))

-- The answers to a list of calls, and the index after them.
unfoldable pub call_all_index : BTreeIndex → List IndexCall → Run (Answers × BTreeIndex)
call_all_index idx [] = done ([], idx)
call_all_index idx (c ∷ cs) =
    call_index idx c >>= λ o. call_all_index o.1 cs >>= λ r. done (o.0 ∷ r.0, r.1)

pub record IndexTable : Type 0 where
  pub entries : Entries
  pub count : ℤ

abbrev pub empty_index : IndexTable
empty_index = record { entries = []; count = pos 0 }

-- What `Seek` of a key goes through.
abbrev pub sought : Bytes → Entries → Entries
sought key es = in_range (make_composite_key key null_record_id) (some (make_next_key key)) es

abbrev pub IndexAnswer : Type 0
IndexAnswer = Result IndexError (Unit {0}) × IndexTable

abbrev pub table_enter : Bytes → RecordId → IndexTable → IndexAnswer
table_enter key id t = (
  ok tt,
  record {
    entries = insert_in (make_composite_key key id) (record_id_bytes id) t.entries;
    count = add_int64 t.count (pos 1);
  },
)

abbrev pub table_delete : Bytes → RecordId → IndexTable → Option Bytes → IndexAnswer
table_delete key id t none = (err (tree_error key_not_found), t)
table_delete key id t (some v) = (
  ok tt,
  record {
    entries = delete_in (make_composite_key key id) t.entries;
    count = add_int64 t.count (negsuc 0);
  },
)

-- A unique index refuses a key for which `Seek` goes through something.
abbrev pub table_insert : Bool → Bytes → RecordId → IndexTable → IndexAnswer
table_insert unique [] id t = (err empty_index_key, t)
table_insert unique (b ∷ bs) id t =
    if is_null id
    then (err null_record_id_error, t)
    else if unique
    then (if length (sought (b ∷ bs) t.entries) == 0
        then table_enter (b ∷ bs) id t
        else (err duplicate_key, t))
    else table_enter (b ∷ bs) id t

abbrev pub table_remove : Bytes → RecordId → IndexTable → IndexAnswer
table_remove [] id t = (err empty_index_key, t)
table_remove (b ∷ bs) id t =
    if is_null id
    then (err null_record_id_error, t)
    else table_delete (b ∷ bs) id t (lookup_in (make_composite_key (b ∷ bs) id) t.entries)

abbrev pub call_table : Bool → IndexTable → IndexCall → IndexAnswer
call_table unique t (insert_call key id) = table_insert unique key id t
call_table unique t (remove_call key id) = table_remove key id t

abbrev pub call_all_table : Bool → IndexTable → List IndexCall → Answers × IndexTable
call_all_table unique t [] = ([], t)
call_all_table unique t (c ∷ cs) =
    let r = call_all_table unique (call_table unique t c).1 cs in
    ((call_table unique t c).0 ∷ r.0, r.1)

-- `Seek`, `SeekRange` and `NumEntries` of the index are those of the table.
pub record ShowsIndex (t : IndexTable) (idx : BTreeIndex) : Type 0 where
  pub seeks :
      (b : ℕ) (bs : Bytes)
      → seek idx (b ∷ bs) ≡ done (ok (new_index_cursor (sought (b ∷ bs) t.entries)))
  pub ranges :
      (start end : Option Bytes)
      → seek_range idx start end
        ≡ done (ok (new_index_cursor (in_range (range_start start) (range_end end) t.entries)))
  pub count : idx.num_entries ≡ t.count
