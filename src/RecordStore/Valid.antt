-- ===== src/RecordStore/Valid.antt =====
-- Stores as maps from identifiers to records: what it means that a method changes one of them.
use xmongodb.Common.{
  ℕ, ◌+◌, ◌≡◌, refl, Bool, false, Option, arith, done, ◌>>=◌, Result, ok, err, if◌then◌else◌,
}
use xmongodb.Bytes.{Bytes, bytes_equal}
use xmongodb.RecordId.{RecordId}
use xmongodb.BTree
use xmongodb.BTree.{TreeError}
use xmongodb.BTree.Valid
use xmongodb.BTree.Update.{Updated}
use xmongodb.BTree.Replace.{LeafRoot, new_btree-IsValid}
use xmongodb.RecordStore.{
  RecordStore, StoreError, key_of, found_record, get_record, new_record_store, truncate,
}

-- The keys of two identifiers are the same bytes.
abbrev pub names_key : Bytes → RecordId → Bool
names_key key j = elim (key_of j) [ err e ↦ false | ok k ↦ bytes_equal key k ]

-- `rs'` has a tree of valid shape and differs from `rs` at the key alone, where it has `r`.
pub record Changed (rs : RecordStore) (key : Bytes) (r : Option Bytes) (rs' : RecordStore)
    : Type 0 where
  pub valid : Valid.IsValid rs'.tree
  pub namespace : rs'.namespace ≡ rs.namespace
  pub order : rs'.tree.order ≡ rs.tree.order
  pub leaf_root : (bound : ℕ) → LeafRoot rs.tree bound → LeafRoot rs'.tree (bound + 1)
  pub gets :
      (j : RecordId)
      → get_record rs' j ≡ (if names_key key j then done (found_record r) else get_record rs j)

pub Changed-Updated :
    (rs rs' : RecordStore) (key : Bytes) (r : Option Bytes)
    → Updated rs.tree key r rs'.tree
    → rs'.namespace ≡ rs.namespace
    → Changed rs key r rs'
unfolding get_record
Changed-Updated rs rs' key r u e = record {
  valid = u.valid;
  namespace = e;
  order = u.order;
  leaf_root = u.leaf_root;
  gets = λ j. gets_at j (key_of j);
}
  where
    gets_at :
        (j : RecordId) (k : Result StoreError Bytes)
        → (elim k [
          | err e ↦ done (err e)
          | ok b ↦ BTree.get rs'.tree b >>= λ o. done (found_record o)
        ])
          ≡ (if (elim k [ err e ↦ false | ok b ↦ bytes_equal key b ])
              then done (found_record r)
              else elim k [
                | err e ↦ done (err e)
                | ok b ↦ BTree.get rs.tree b >>= λ o. done (found_record o)
              ])
    gets_at j (err e) = refl
    gets_at j (ok b) = ground (arith, u.gets b)

-- What `NewRecordStore` and `Truncate` make has a tree of valid shape, and no record.
pub new_record_store-IsValid : (namespace : Bytes) → Valid.IsValid (new_record_store namespace).tree
unfolding new_record_store
new_record_store-IsValid namespace = new_btree-IsValid 128

pub truncate-IsValid : (rs : RecordStore) → Valid.IsValid (truncate rs).tree
unfolding truncate
truncate-IsValid rs = new_btree-IsValid 128
