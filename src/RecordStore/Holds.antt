-- ===== src/RecordStore/Holds.antt =====
-- The store holds what is in the table, in a tree of one level or two.
use xmongodb.Common.{ℕ, ◌+◌, ◌≤◌, ◌≡◌, ◌≢◌, refl, none, [], ◌∷◌, arith, length}
use xmongodb.Common.Int.{ℤ, pos, negsuc, sub_ℕ}
use xmongodb.Common.Word.{add_int64, neg_int64}
use xmongodb.Bytes.{Bytes}
use xmongodb.RecordId.{as_bytes, put_uint64}
use xmongodb.RecordId.Key.{long_key}
use xmongodb.BTree
use xmongodb.BTree.Totals.{total}
use xmongodb.BTree.Shallow.{Shallow, get-lookup_in}
use xmongodb.BTree.Ranges.{range-Shallow}
use xmongodb.BTree.Refines.{new_btree-Shallow}
use xmongodb.RecordStore.{RecordStore, new_record_store, get_record, scan, key_of}
use xmongodb.RecordStore.Table.{Table, wrapped, Shows}

pub record Holds (bound : ℕ) (t : Table) (rs : RecordStore) : Type 0 where
  pub order : rs.tree.order ≡ 128
  pub weight : ℕ
  pub seps : ℕ
  pub shallow : Shallow rs.tree t weight seps
  pub light : weight ≤ bound
  pub count : rs.num_records ≡ wrapped (length t)
  pub size : rs.data_size ≡ wrapped (total t)

-- The counters wrap round: no call leaves the numbers of int64.
module _ (a n : ℕ) where
  pub wrapped_add : add_int64 (wrapped a) (pos n) ≡ wrapped (a + n)
  unfolding add_int64
  wrapped_add = ground arith

  pub wrapped_sub : add_int64 (wrapped (a + n)) (neg_int64 (pos n)) ≡ wrapped a
  unfolding add_int64 neg_int64
  wrapped_sub = ground arith

  pub wrapped_by : (b : ℕ) → add_int64 (wrapped (a + n)) (sub_ℕ b n) ≡ wrapped (a + b)
  unfolding add_int64
  wrapped_by b = ground arith

pub wrapped_pred : (a : ℕ) → add_int64 (wrapped (a + 1)) (negsuc 0) ≡ wrapped a
unfolding add_int64
wrapped_pred a = ground arith

pub long_key_ne : (id : ℤ) → long_key id ≢ []
unfolding put_uint64
long_key_ne id = λ h. cc

pub later : {bound : ℕ} {t : Table} {rs : RecordStore} → Holds bound t rs → Holds (bound + 1) t rs
later h = record {
  order = h.order;
  weight = h.weight;
  seps = h.seps;
  shallow = h.shallow;
  light = omega (arith, h.light);
  count = h.count;
  size = h.size;
}

pub Holds-Shows : {bound : ℕ} {t : Table} {rs : RecordStore} → Holds bound t rs → Shows t rs
unfolding get_record scan key_of as_bytes
Holds-Shows {t} {rs} h = record {
  gets = λ id. rw (get-lookup_in h.shallow (long_key id) (long_key_ne id)) refl;
  scans = λ id. rw (range-Shallow h.shallow (long_key id) none) refl;
  scans_all = rw (range-Shallow h.shallow (0 ∷ []) none) refl;
  count = h.count;
  size = h.size;
}

pub new_record_store-Holds : (namespace : Bytes) → Holds 0 [] (new_record_store namespace)
unfolding new_record_store
new_record_store-Holds namespace = record {
  order = unfold BTree.new_btree in refl;
  weight = 0;
  seps = 0;
  shallow = new_btree-Shallow 128;
  light = omega arith;
  count = refl;
  size = refl;
}
