-- ===== src/Engine/Documents.antt =====
-- What `Insert` leaves in the record store, and what `Find` returns.
use xmongodb.Common.{
  get-set_same, ℕ, zero, suc, ◌+◌, ◌<◌, ◌≡◌, ◌≢◌, refl, ap, ◌∙◌, none, some, [], ◌∷◌, arith, done,
  Result, ok, err, length, get_elem?,
}
use xmongodb.Common.Int.{ℤ, pos}
use xmongodb.Common.Word.{add_int64}
use xmongodb.Bytes.{Bytes, lex}
use xmongodb.Bytes.Order.{bytes_equal_refl}
use xmongodb.RecordId.{RecordId, new_record_id_from_long, null_record_id, as_bytes, put_uint64}
use xmongodb.RecordId.Key.{long_key}
use xmongodb.BTree.Find.{find_leaf}
use xmongodb.BTree.Valid.{IsValid, Found}
use xmongodb.BTree.Chain.{Entries, Walk, all_entries, in_range, range-in_range}
use xmongodb.RecordStore.{RecordStore, not_exists, key_of, get_record, insert_record, scan}
use xmongodb.RecordStore.Cursors.{new_cursor}
use xmongodb.RecordStore.Laws.{insert_record-Changed}
use xmongodb.SortedData
use xmongodb.SortedData.{BTreeIndex, IndexError}
use xmongodb.Engine.{Engine, Collection, find_collection}
use xmongodb.Engine.Docs.{
  Document, Codec, DocError, index_error, with_id, id_text, set_store, set_index, insert_document,
  insert_body, insert_into_indexes, decode_all, find,
}

abbrev pub NonEmptyKeys : Entries → Type 0
NonEmptyKeys [] = Unit
NonEmptyKeys ((k, v) ∷ es) = (k ≢ []) × NonEmptyKeys es

-- The key of one zero byte is not above any key that is not empty.
pub in_range-all : (es : Entries) → NonEmptyKeys es → in_range (0 ∷ []) none es ≡ es
unfolding lex
in_range-all [] h = refl
in_range-all (([], v) ∷ es) h = absurd (h.0 refl)
in_range-all ((zero ∷ [], v) ∷ es) h = ap (λ r. (0 ∷ [], v) ∷ r) (in_range-all es h.1)
in_range-all ((zero ∷ b ∷ bs, v) ∷ es) h = ap (λ r. (0 ∷ b ∷ bs, v) ∷ r) (in_range-all es h.1)
in_range-all ((suc a ∷ bs, v) ∷ es) h = ground (arith, in_range-all es h.1)

scan-all_entries :
    (rs : RecordStore) (w : Walk rs.tree (0 ∷ []))
    → NonEmptyKeys (all_entries w.leaves)
    → scan rs null_record_id ≡ done (ok (new_cursor (all_entries w.leaves)))
unfolding scan
scan-all_entries rs w h = rw (range-in_range none w, in_range-all (all_entries w.leaves) h)

-- The identifier that the next document gets, its key, and the engine that has given it out.
abbrev pub next_record : {W : Type 0} → Engine W → ℤ
next_record e = add_int64 e.next_record_id (pos 1)

abbrev pub next_id : {W : Type 0} → Engine W → RecordId
next_id e = new_record_id_from_long (next_record e)

abbrev pub next_key : {W : Type 0} → Engine W → Bytes
next_key e = long_key (next_record e)

abbrev with_next : {W : Type 0} → Engine W → Engine W
with_next e = record e { next_record_id = next_record e }

next_key_ne : {W : Type 0} (e : Engine W) → next_key e ≢ []
unfolding put_uint64
next_key_ne e = λ h. cc

module _ {V W : Type 0} (json : Codec V) where
  -- `Find` in a collection whose record store has its leaves in order, and no empty key, returns every
  -- stored document that can be decoded, in the order of the keys, whatever the filter is.
  pub find-decode_all :
      (database collection : Bytes) (filter : Document V) (e : Engine W) (coll : Collection)
      (rs : RecordStore) (w : Walk rs.tree (0 ∷ []))
      → find_collection database collection e ≡ ok coll
      → get_elem? e.kv_engine.store_objects coll.record_store ≡ some rs
      → NonEmptyKeys (all_entries w.leaves)
      → find json database collection filter e ≡ done (ok (decode_all json (all_entries w.leaves)))
  unfolding find
  find-decode_all database collection filter e coll rs w found here h =
      ground (arith, found, here, scan-all_entries rs w h)

  indexes_refused :
      (doc : Document V) (id : RecordId) (e : Engine W) (name key : Bytes) (p : ℕ)
      (idx idx' : BTreeIndex) (f : IndexError)
      → id_text doc ≡ done key
      → get_elem? e.kv_engine.index_objects p ≡ some idx
      → SortedData.insert idx key id ≡ done (err f, idx')
      → insert_into_indexes json ((name, p) ∷ []) doc id e
        ≡ done (err (index_error f), set_index p idx' e)
  unfolding insert_into_indexes
  indexes_refused doc id e name key p idx idx' f txt there refused = simp (txt, there, refused)

  body_refused :
      (coll : Collection) (doc : Document V) (id : RecordId) (body : Bytes) (e : Engine W)
      (rs rs' : RecordStore) (e' : Engine W) (f : DocError)
      → get_elem? e.kv_engine.store_objects coll.record_store ≡ some rs
      → insert_record rs id body ≡ done (ok tt, rs')
      → insert_into_indexes json coll.indexes doc id (set_store coll.record_store rs' e)
        ≡ done (err f, e')
      → insert_body json coll doc id body e ≡ done (err f, e')
  unfolding insert_body
  body_refused coll doc id body e rs rs' e' f here stored refused = simp (here, stored, refused)

  pub document_runs :
      (coll : Collection) (doc : Document V) (e : Engine W) (body : Bytes)
      (r : Result DocError (Unit {0})) (e' : Engine W)
      → json.marshal (with_id (next_id e) doc) ≡ some body
      → insert_body json coll (with_id (next_id e) doc) (next_id e) body (with_next e)
        ≡ done (r, e')
      → insert_document json coll doc e ≡ done (r, e')
  unfolding insert_document
  document_runs coll doc e body r e' ser run = ground (arith, ser, run)

  -- A collection has one index, and a record store whose tree has valid shape, whose leaf for the
  -- next identifier has room, and which has no record of that identifier. If a document can be
  -- serialised, its `_id` is a text and the index refuses it, `Insert` returns the error of the
  -- index, and leaves the record in the store, where `GetRecord` finds it.
  pub insert_document_not_undone :
      (coll : Collection) (doc : Document V) (e : Engine W) (body key name : Bytes) (p : ℕ)
      (rs : RecordStore) (idx idx' : BTreeIndex) (f : IndexError) (v : IsValid rs.tree)
      (leaf : Found rs.tree (find_leaf rs.tree (next_key e)))
      → length leaf.node.keys + 1 < rs.tree.order
      → get_record rs (next_id e) ≡ done (err not_exists)
      → json.marshal (with_id (next_id e) doc) ≡ some body
      → id_text (with_id (next_id e) doc) ≡ done key
      → get_elem? e.kv_engine.store_objects coll.record_store ≡ some rs
      → coll.indexes ≡ (name, p) ∷ []
      → get_elem? e.kv_engine.index_objects p ≡ some idx
      → SortedData.insert idx key (next_id e) ≡ done (err f, idx')
      → (e' : Engine W) × (rs' : RecordStore) × (insert_document json coll doc e
          ≡ done (err (index_error f), e'))
        × (get_elem? e'.kv_engine.store_objects coll.record_store ≡ some rs')
        × (get_record rs' (next_id e) ≡ done (ok body))
  insert_document_not_undone coll doc e body key name p rs idx idx' f v leaf room fresh ser txt here
        one there refused =
      let id = next_id e in
      let named : key_of id ≡ ok (next_key e) = unfold key_of as_bytes in refl in
      let (rs', stored, changed, _, _) =
        insert_record-Changed v id (next_key e) named body leaf (next_key_ne e) room fresh in
      let e1 = set_store coll.record_store rs' (with_next e) in
      let e2 = set_index p idx' e1 in
      let doc' = with_id id doc in
      let run : insert_into_indexes json coll.indexes doc' id e1 ≡ done (err (index_error f), e2) =
        ap (λ l. insert_into_indexes json l doc' id e1) one
        ∙ indexes_refused doc' id e1 name key p idx idx' f txt there refused in
      let found : get_record rs' id ≡ done (ok body) =
        changed.gets id ∙ ground (arith, named, bytes_equal_refl (next_key e)) in
      (
        e2,
        rs',
        document_runs coll doc e body (err (index_error f)) e2 ser (
            body_refused coll doc' id body (with_next e) rs rs' e2 (index_error f) here stored run),
        get-set_same e.kv_engine.store_objects coll.record_store rs' here,
        found,
      )
