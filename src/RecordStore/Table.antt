-- ===== src/RecordStore/Table.antt =====
-- A record store on which a client calls the methods that write, with the int64 identifiers that the
-- engine uses, next to a table: what is stored, as a list in the order of the keys.
use xmongodb.Common.{
  ℕ, ◌%◌, ◌^◌, length, ◌≡◌, Option, none, some, List, [], ◌∷◌, Run, done, ◌>>=◌, Result, ok, err,
  length,
}
use xmongodb.Common.Int.{ℤ}
use xmongodb.Common.Word.{int64}
use xmongodb.BTree.Chain.{Entries, in_range}
use xmongodb.BTree.Sorted.{lookup_in, insert_in, delete_in}
use xmongodb.BTree.Totals.{total}
use xmongodb.RecordStore.Cursors.{new_cursor}
use xmongodb.Bytes.{Bytes}
use xmongodb.RecordId.{new_record_id_from_long, null_record_id}
use xmongodb.RecordId.Key.{long_key}
use xmongodb.RecordStore.{
  RecordStore, StoreError, already_exists, not_exists, Outcome, found_record, insert_record,
  update_record, delete_record, get_record, scan,
}

pub data Call : Type 0 where
  insert_call update_call : (id : ℤ) (body : Bytes) → Call
  delete_call : (id : ℤ) → Call

unfoldable pub call_store : RecordStore → Call → Outcome
call_store rs (insert_call id body) = insert_record rs (new_record_id_from_long id) body
call_store rs (update_call id body) = update_record rs (new_record_id_from_long id) body
call_store rs (delete_call id) = delete_record rs (new_record_id_from_long id)

abbrev pub Answers : Type 0
Answers = List (Result StoreError (Unit {0}))

-- The answers to a list of calls, and the store after them.
unfoldable pub call_all : RecordStore → List Call → Run (Answers × RecordStore)
call_all rs [] = done ([], rs)
call_all rs (c ∷ cs) = call_store rs c >>= λ o. call_all o.1 cs >>= λ r. done (o.0 ∷ r.0, r.1)

-- What a client has in mind: the bodies under their keys, in order.
abbrev pub Table : Type 0
Table = Entries

-- What each call does to the table, by what is stored under the key.
abbrev pub table_insert :
    Bytes → Bytes → Table → Option Bytes → Result StoreError (Unit {0}) × Table
table_insert key body t (some old) = (err already_exists, t)
table_insert key body t none = (ok tt, insert_in key body t)

abbrev pub table_update :
    Bytes → Bytes → Table → Option Bytes → Result StoreError (Unit {0}) × Table
table_update key body t none = (err not_exists, t)
table_update key body t (some old) = (ok tt, insert_in key body t)

abbrev pub table_delete : Bytes → Table → Option Bytes → Result StoreError (Unit {0}) × Table
table_delete key t none = (err not_exists, t)
table_delete key t (some old) = (ok tt, delete_in key t)

abbrev pub call_table : Table → Call → Result StoreError (Unit {0}) × Table
call_table t (insert_call id body) = table_insert (long_key id) body t (lookup_in (long_key id) t)
call_table t (update_call id body) = table_update (long_key id) body t (lookup_in (long_key id) t)
call_table t (delete_call id) = table_delete (long_key id) t (lookup_in (long_key id) t)

abbrev pub call_all_table : Table → List Call → Answers × Table
call_all_table t [] = ([], t)
call_all_table t (c ∷ cs) =
    let r = call_all_table (call_table t c).1 cs in ((call_table t c).0 ∷ r.0, r.1)

-- A count as an int64, which wraps round.
abbrev pub wrapped : ℕ → ℤ
wrapped n = int64 (n % 2 ^ 64)

-- `GetRecord`, `Scan` and the counters of the store are those of the table.
pub record Shows (t : Table) (rs : RecordStore) : Type 0 where
  pub gets :
      (id : ℤ)
      → get_record rs (new_record_id_from_long id) ≡ done (found_record (lookup_in (long_key id) t))
  pub scans :
      (id : ℤ)
      → scan rs (new_record_id_from_long id)
        ≡ done (ok (new_cursor (in_range (long_key id) none t)))
  pub scans_all : scan rs null_record_id ≡ done (ok (new_cursor (in_range (0 ∷ []) none t)))
  pub count : rs.num_records ≡ wrapped (length t)
  pub size : rs.data_size ≡ wrapped (total t)
