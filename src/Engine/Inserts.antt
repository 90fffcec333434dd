-- ===== src/Engine/Inserts.antt =====
-- `Insert` into a collection with one index, next to the list of the stored bodies and the table of the
-- index.
use xmongodb.Common.{
  get-set_same, ℕ, ◌+◌, ◌*◌, ◌^◌, ◌<◌, ◌≡◌, refl, ap, ◌∙◌, true, some, List, [], ◌∷◌, ◌++◌, arith,
  done, ok, length, length-append, get_elem?,
}
use mathlib.Core.Path.{subst}
use xmongodb.Common.Int.{ℤ, pos}
use xmongodb.Common.Word.{add_int64}
use xmongodb.Bytes.{Bytes}
use xmongodb.RecordId.{RecordId, new_record_id_from_long}
use xmongodb.RecordStore.{RecordStore, insert_record}
use xmongodb.RecordStore.Table.{call_store}
use xmongodb.RecordStore.Holds.{Holds}
use xmongodb.RecordStore.Refines.{insert_steps}
use xmongodb.SortedData
use xmongodb.SortedData.{BTreeIndex}
use xmongodb.SortedData.Table.{IndexTable, table_insert}
use xmongodb.SortedData.Refines
use xmongodb.SortedData.Holds.{HoldsIndex}
use xmongodb.Engine.{Engine, Collection}
use xmongodb.Engine.Docs.{
  Document, Codec, with_id, id_text, set_store, set_index, insert_document, insert_body,
  insert_into_indexes,
}
use xmongodb.Engine.Documents.{document_runs}
use xmongodb.Engine.Stored.{stored, stored-missing, stored-insert_in}

module _ {V : Type 0} (json : Codec V) where
  -- A document that is the one behind the first `n`, and its body: it can be serialised and read back, its
  -- `_id` is a text, and the index takes it.
  pub record IsAccepted (n : ℕ) (t : IndexTable) (doc : Document V) : Type 0 where
    pub body : Bytes
    pub key : Bytes
    pub serialises : json.marshal (with_id (new_record_id_from_long (pos (n + 1))) doc) ≡ some body
    pub reads_back :
        json.unmarshal body ≡ some (with_id (new_record_id_from_long (pos (n + 1))) doc)
    pub named : id_text (with_id (new_record_id_from_long (pos (n + 1))) doc) ≡ done key
    pub taken : (table_insert true key (new_record_id_from_long (pos (n + 1))) t).0 ≡ ok tt

  -- The same of each of a list of documents, the index being as the ones before have left it.
  pub data AreAccepted : ℕ → IndexTable → List (Document V) → Type 0 where
    no_document : {n : ℕ} {t : IndexTable} → AreAccepted n t []
    one_document :
        {n : ℕ} {t : IndexTable} {doc : Document V} {docs : List (Document V)}
        → (a : IsAccepted n t doc)
        → AreAccepted
            (n + 1)
            (table_insert true a.key (new_record_id_from_long (pos (n + 1))) t).1
            docs
        → AreAccepted n t (doc ∷ docs)

-- The documents with the `_id` that those without one get.
abbrev pub with_ids : {V : Type 0} → ℕ → List (Document V) → List (Document V)
with_ids n [] = []
with_ids n (doc ∷ docs) =
    with_id (new_record_id_from_long (pos (n + 1))) doc ∷ with_ids (n + 1) docs

-- The engine has stored these `n` bodies in the collection, and the index is as in the table.
pub record Loaded {W : Type 0} (coll : Collection) (n : ℕ) (bodies : List Bytes) (t : IndexTable)
    (e : Engine W) : Type 0 where
  pub store : RecordStore
  pub index : BTreeIndex
  pub how_many : length bodies ≡ n
  pub name : Bytes
  pub place : ℕ
  pub indexes : coll.indexes ≡ (name, place) ∷ []
  pub store_there : get_elem? e.kv_engine.store_objects coll.record_store ≡ some store
  pub index_there : get_elem? e.kv_engine.index_objects place ≡ some index
  pub last_id : e.next_record_id ≡ pos n
  pub holds : Holds n (stored 0 bodies) store
  pub holds_index : HoldsIndex true n t index

next_id-small : (n : ℕ) → n < 64 * 127 → add_int64 (pos n) (pos 1) ≡ pos (n + 1)
unfolding add_int64
next_id-small n h = ground arith

-- The steps of `Insert` where the store and the index take the document.
module _ {V W : Type 0} (json : Codec V) where
  indexes_taken :
      (doc : Document V) (id : RecordId) (e : Engine W) (name key : Bytes) (p : ℕ)
      (idx idx' : BTreeIndex)
      → id_text doc ≡ done key
      → get_elem? e.kv_engine.index_objects p ≡ some idx
      → SortedData.insert idx key id ≡ done (ok tt, idx')
      → insert_into_indexes json ((name, p) ∷ []) doc id e ≡ done (ok tt, set_index p idx' e)
  unfolding insert_into_indexes
  indexes_taken doc id e name key p idx idx' txt there taken = simp (txt, there, taken)

  body_taken :
      (coll : Collection) (doc : Document V) (id : RecordId) (body : Bytes) (e e' : Engine W)
      (rs rs' : RecordStore)
      → get_elem? e.kv_engine.store_objects coll.record_store ≡ some rs
      → insert_record rs id body ≡ done (ok tt, rs')
      → insert_into_indexes json coll.indexes doc id (set_store coll.record_store rs' e)
        ≡ done (ok tt, e')
      → insert_body json coll doc id body e ≡ done (ok tt, e')
  unfolding insert_body
  body_taken coll doc id body e e' rs rs' here kept taken = simp (here, kept, taken)

  document_taken :
      (coll : Collection) (doc : Document V) (next : ℤ) (body : Bytes) (e e' : Engine W)
      → add_int64 e.next_record_id (pos 1) ≡ next
      → json.marshal (with_id (new_record_id_from_long next) doc) ≡ some body
      → insert_body json coll
          (with_id (new_record_id_from_long next) doc)
          (new_record_id_from_long next)
          body
          (record e { next_record_id = next })
        ≡ done (ok tt, e')
      → insert_document json coll doc e ≡ done (ok tt, e')
  document_taken coll doc next body e e' n =
      subst {A = ℤ}
        (λ z.
          json.marshal (with_id (new_record_id_from_long z) doc) ≡ some body
          → insert_body json coll (with_id (new_record_id_from_long z) doc)
              (new_record_id_from_long z) body (record e { next_record_id = z })
            ≡ done (ok tt, e')
          → insert_document json coll doc e ≡ done (ok tt, e'))
        n (document_runs json coll doc e body (ok tt) e')

module _ {coll : Collection} {W : Type 0} {n : ℕ} {bodies : List Bytes} {t : IndexTable}
    {e : Engine W} (l : Loaded coll n bodies t e) (room : n < 64 * 127) where
  store_step :
      (body : Bytes)
      → (rs : RecordStore) × (insert_record l.store (new_record_id_from_long (pos (n + 1))) body
          ≡ done (ok tt, rs))
        × Holds (n + 1) (stored 0 (bodies ++ (body ∷ []))) rs
  unfolding call_store
  store_step body =
      let small : n + 1 < 2 ^ 63 = omega (arith, room) in
      let (rs, run, h) =
        rw (stored-missing n bodies l.how_many small) at
          (insert_steps l.holds room (pos (n + 1)) body) in
      (rs, run, rw (stored-insert_in n bodies body l.how_many small) at h)

  index_step :
      (key : Bytes)
      → (table_insert true key (new_record_id_from_long (pos (n + 1))) t).0 ≡ ok tt
      → (idx : BTreeIndex) × (SortedData.insert l.index key (new_record_id_from_long (pos (n + 1)))
          ≡ done (ok tt, idx))
        × HoldsIndex true
            (n + 1)
            (table_insert true key (new_record_id_from_long (pos (n + 1))) t).1
            idx
  index_step key taken =
      let (idx, run, h) =
        Refines.insert_steps l.holds_index room key (new_record_id_from_long (pos (n + 1))) in
      (idx, run ∙ ap (λ r. done (r, idx)) taken, h)

  pub insert_document-Loaded :
      {V : Type 0} (json : Codec V) {doc : Document V} (a : IsAccepted json n t doc)
      → (e' : Engine W) × (insert_document json coll doc e ≡ done (ok tt, e'))
        × Loaded coll
            (n + 1)
            (bodies ++ (a.body ∷ []))
            (table_insert true a.key (new_record_id_from_long (pos (n + 1))) t).1
            e'
        × (e'.databases ≡ e.databases)
  insert_document-Loaded json {doc} a =
      let next = pos (n + 1) in
      let id = new_record_id_from_long next in
      let (rs, kept, holds) = store_step a.body in
      let (idx, taken, holds_index) = index_step a.key a.taken in
      let e1 : Engine W = set_store coll.record_store rs (record e { next_record_id = next }) in
      let e2 : Engine W = set_index l.place idx e1 in
      let given : add_int64 e.next_record_id (pos 1) ≡ next =
        ap (λ z. add_int64 z (pos 1)) l.last_id ∙ next_id-small n room in
      let indexed : insert_into_indexes json coll.indexes (with_id id doc) id e1
          ≡ done (ok tt, e2) =
        ap (λ ix. insert_into_indexes json ix (with_id id doc) id e1) l.indexes
        ∙ indexes_taken json (with_id id doc) id e1 l.name a.key l.place l.index idx a.named
            l.index_there taken in
      (
        e2,
        document_taken json coll doc next a.body e e2 given a.serialises (
            body_taken json coll (with_id id doc) id a.body (record e { next_record_id = next }) e2
              l.store rs l.store_there kept indexed),
        record {
          store = rs;
          index = idx;
          name = l.name;
          place = l.place;
          indexes = l.indexes;
          store_there = get-set_same e.kv_engine.store_objects coll.record_store rs l.store_there;
          index_there = get-set_same e.kv_engine.index_objects l.place idx l.index_there;
          last_id = refl;
          how_many = length-append bodies (a.body ∷ []) ∙ omega (arith, l.how_many);
          holds = holds;
          holds_index = holds_index;
        },
        refl,
      )
