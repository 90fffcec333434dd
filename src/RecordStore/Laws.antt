-- ===== src/RecordStore/Laws.antt =====
-- What the methods of the record store do, on every branch.
use xmongodb.Common.{
  ◌<◌, ◌+◌, ◌≡◌, ◌≢◌, refl, true, none, some, [], arith, done, ◌>>=◌, ok, err, length, inl, inr,
  ◌⊎◌, ◌∙◌,
}
use xmongodb.Common.Int.{pos, negsuc, sub_ℕ}
use xmongodb.Common.Word.{add_int64, neg_int64}
use xmongodb.Bytes.{Bytes}
use xmongodb.RecordId.{RecordId, is_null}
use xmongodb.BTree
use xmongodb.BTree.{TreeError}
use xmongodb.BTree.Find.{find_leaf}
use xmongodb.BTree.Valid.{IsValid, Found}
use xmongodb.BTree.Update.{insert-Updated, insert-Updated_of_get, delete-Updated}
use xmongodb.RecordStore.{
  RecordStore, StoreError.null_record_id as null_id_error, not_exists, already_exists, key_of,
  found_record, get_record, insert_record, insert_new, update_record, update_old, delete_record,
  delete_old,
}
use xmongodb.RecordStore.Valid.{Changed, Changed-Updated}

module _ (rs : RecordStore) (id : RecordId) {key : Bytes} (k : key_of id ≡ ok key) where
  get_record-get : get_record rs id ≡ (BTree.get rs.tree key >>= λ o. done (found_record o))
  unfolding get_record
  get_record-get = ground arith

  get_of_not_exists : get_record rs id ≡ done (err not_exists) → BTree.get rs.tree key ≡ done none
  get_of_not_exists h = ground (arith, get_record-get)

  get_of_ok :
      {body : Bytes} → get_record rs id ≡ done (ok body) → BTree.get rs.tree key ≡ done (some body)
  get_of_ok h = ground (arith, get_record-get)

module _ {rs : RecordStore} (v : IsValid rs.tree) (id : RecordId) (key : Bytes)
    (k : key_of id ≡ ok key) where
  -- A store whose tree has valid shape takes a record under a key that is not empty and not in use,
  -- if the leaf of the key has room: the record is found, every other stays, the number of records
  -- grows by one and the size by the length of the record.
  pub insert_record-Changed :
      (body : Bytes) (f : Found rs.tree (find_leaf rs.tree key))
      → key ≢ []
      → length f.node.keys + 1 < rs.tree.order
      → get_record rs id ≡ done (err not_exists)
      → (rs' : RecordStore) × (insert_record rs id body ≡ done (ok tt, rs'))
        × Changed rs key (some body) rs'
        × (rs'.num_records ≡ add_int64 rs.num_records (pos 1))
        × (rs'.data_size ≡ add_int64 rs.data_size (pos (length body)))
  unfolding insert_record insert_new
  insert_record-Changed body f ne room missing =
      let (t', run, u) = insert-Updated v key body f ne room in
      let rs' : RecordStore = record rs {
        tree = t';
        num_records = add_int64 rs.num_records (pos 1);
        data_size = add_int64 rs.data_size (pos (length body));
      } in
      (
        rs',
        ground (arith, k, get_of_not_exists rs id k missing, run),
        Changed-Updated rs rs' key (some body) u refl,
        refl,
        refl,
      )

  -- A record that is there is not overwritten: `InsertRecord` fails and changes nothing.
  pub insert_record-already_exists :
      (body : Bytes) {old : Bytes}
      → get_record rs id ≡ done (ok old)
      → insert_record rs id body ≡ done (err already_exists, rs)
  unfolding insert_record insert_new
  insert_record-already_exists body h = ground (arith, k, get_of_ok rs id k h)

  -- In a tree of valid shape, `UpdateRecord` of a record that is there succeeds, however full its leaf is:
  -- the record is replaced, every other stays, the number of records stays, and the size moves by the
  -- difference of the lengths.
  pub update_record-Changed :
      (body : Bytes) {old : Bytes}
      → get_record rs id ≡ done (ok old)
      → (rs' : RecordStore) × (update_record rs id body ≡ done (ok tt, rs'))
        × Changed rs key (some body) rs'
        × (rs'.num_records ≡ rs.num_records)
        × (rs'.data_size ≡ add_int64 rs.data_size (sub_ℕ (length body) (length old)))
  unfolding update_record update_old
  update_record-Changed body {old} h =
      let (t', run, u) = insert-Updated_of_get v key body (get_of_ok rs id k h) in
      let rs' : RecordStore = record rs {
        tree = t';
        data_size = add_int64 rs.data_size (sub_ℕ (length body) (length old));
      } in
      (
        rs',
        ground (arith, k, get_of_ok rs id k h, run),
        Changed-Updated rs rs' key (some body) u refl,
        refl,
        refl,
      )

  -- `UpdateRecord` of a record that `GetRecord` does not find fails and changes nothing.
  pub update_record-not_exists :
      (body : Bytes)
      → get_record rs id ≡ done (err not_exists)
      → update_record rs id body ≡ done (err not_exists, rs)
  unfolding update_record update_old
  update_record-not_exists body h = ground (arith, k, get_of_not_exists rs id k h)

  -- In a tree of valid shape, `DeleteRecord` under a key that is not empty: a record that is there
  -- is gone afterwards, every other stays, and the counters go back by one and by its length; a
  -- missing one is an error that changes nothing.
  pub delete_record_lem :
      key ≢ []
      → ((rs' : RecordStore) × (old : Bytes) × (get_record rs id ≡ done (ok old))
          × (delete_record rs id ≡ done (ok tt, rs'))
          × Changed rs key none rs'
          × (rs'.num_records ≡ add_int64 rs.num_records (negsuc 0))
          × (rs'.data_size ≡ add_int64 rs.data_size (neg_int64 (pos (length old)))))
        ⊎ ((get_record rs id ≡ done (err not_exists))
            × (delete_record rs id ≡ done (err not_exists, rs)))
  unfolding delete_record delete_old
  delete_record_lem ne = elim (delete-Updated v key ne) [
    | inl (absent, run) ↦ inr (get_record-get rs id k ∙ rw absent, ground (arith, k, absent))
    | inr (old, t', present, run, u) ↦
        let rs' : RecordStore = record rs {
          tree = t';
          num_records = add_int64 rs.num_records (negsuc 0);
          data_size = add_int64 rs.data_size (neg_int64 (pos (length old)));
        } in
        inl (
          rs',
          old,
          get_record-get rs id k ∙ rw present,
          ground (arith, k, present, run),
          Changed-Updated rs rs' key none u refl,
          refl,
          refl,
        )
  ]

-- With the null identifier `InsertRecord`, `UpdateRecord`, `DeleteRecord` and `GetRecord` fail and
-- change nothing.
pub null_record_id_fails :
    (rs : RecordStore) (id : RecordId) (body : Bytes)
    → is_null id ≡ true
    → (insert_record rs id body ≡ done (err null_id_error, rs))
      × (update_record rs id body ≡ done (err null_id_error, rs))
      × (delete_record rs id ≡ done (err null_id_error, rs))
      × (get_record rs id ≡ done (err null_id_error))
unfolding insert_record update_record delete_record get_record key_of
null_record_id_fails rs id body h = (ground arith, ground arith, ground arith, ground arith)
