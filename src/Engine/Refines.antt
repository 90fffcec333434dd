-- ===== src/Engine/Refines.antt =====
-- `Find` after `Insert`, in a new collection.
use xmongodb.Common.{
  ℕ, ◌+◌, ◌*◌, ◌≤◌, ◌≡◌, refl, ap, ◌∙◌, some, List, [], ◌∷◌, ◌++◌, arith, done, ok, length,
  get_elem?,
}
use mathlib.Core.List.{append_assoc, append-nil}
use xmongodb.Bytes.{Bytes}
use xmongodb.RecordId.{null_record_id}
use xmongodb.BTree.Chain.{Entries}
use xmongodb.RecordStore.{RecordStore, scan}
use xmongodb.RecordStore.Cursors.{new_cursor}
use xmongodb.RecordStore.Holds.{Holds-Shows}
use xmongodb.SortedData.Table.{IndexTable, empty_index}
use xmongodb.Engine.{Engine, Collection, find_collection}
use xmongodb.Engine.Docs.{
  Document, Codec, insert_document, insert_documents, insert, decode_all, find,
}
use xmongodb.Engine.Documents.{in_range-all}
use xmongodb.Engine.Stored.{stored, stored-NonEmptyKeys}
use xmongodb.Engine.Inserts.{
  AreAccepted, no_document, one_document, with_ids, Loaded, insert_document-Loaded,
}
use xmongodb.Engine.Creation.{
  with_collection, made, the_collection, with_collection-made, find_collection-made, made-Loaded,
}

-- The engine after the documents, whose bodies are decoded to them.
record Inserted {V W : Type 0} (json : Codec V) (coll : Collection) (n : ℕ)
    (docs : List (Document V)) (bodies : List Bytes) (e : Engine W) : Type 0 where
  after : Engine W
  run : insert_documents json coll docs e ≡ done (ok tt, after)
  count : ℕ
  more : List Bytes
  table : IndexTable
  loaded : Loaded coll count (bodies ++ more) table after
  databases : after.databases ≡ e.databases
  decodes : (m : ℕ) → decode_all json (stored m more) ≡ with_ids n docs

module _ {V : Type 0} (json : Codec V) where
  decode_step :
      (m : ℕ) (body : Bytes) (bodies : List Bytes) (doc : Document V) (docs : List (Document V))
      → json.unmarshal body ≡ some doc
      → decode_all json (stored (m + 1) bodies) ≡ docs
      → decode_all json (stored m (body ∷ bodies)) ≡ doc ∷ docs
  unfolding decode_all
  decode_step m body bodies doc docs reads rest = simp (reads, rest)

module _ {V W : Type 0} (json : Codec V) where
  documents_taken :
      (coll : Collection) (doc : Document V) (docs : List (Document V)) (e e1 e2 : Engine W)
      → insert_document json coll doc e ≡ done (ok tt, e1)
      → insert_documents json coll docs e1 ≡ done (ok tt, e2)
      → insert_documents json coll (doc ∷ docs) e ≡ done (ok tt, e2)
  unfolding insert_documents
  documents_taken coll doc docs e e1 e2 first rest = simp (first, rest)

  insert_documents-Inserted :
      {coll : Collection} {n : ℕ} {t : IndexTable} {docs : List (Document V)} {bodies : List Bytes}
      {e : Engine W}
      → AreAccepted json n t docs
      → Loaded coll n bodies t e
      → n + length docs ≤ 64 * 127
      → Inserted json coll n docs bodies e
  unfolding insert_documents decode_all
  insert_documents-Inserted {n} {t} {bodies} {e} no_document l room = record {
    after = e;
    run = refl;
    count = n;
    more = [];
    table = t;
    loaded = rw (append-nil bodies) l;
    databases = refl;
    decodes = λ m. refl;
  }
  insert_documents-Inserted {coll} {bodies} {e} (one_document {doc} {docs} a more) l room =
      let (e1, first, l1, same) = insert_document-Loaded l (omega (arith, room)) json a in
      let r = insert_documents-Inserted more l1 (omega (arith, room)) in
      record {
        after = r.after;
        run = documents_taken coll doc docs e e1 r.after first r.run;
        count = r.count;
        more = a.body ∷ r.more;
        table = r.table;
        loaded = rw (append_assoc bodies (a.body ∷ []) r.more) at r.loaded;
        databases = r.databases ∙ same;
        decodes = λ m. decode_step json m a.body r.more _ _ a.reads_back (r.decodes (m + 1));
      }

module _ {V W : Type 0} (json : Codec V) (database collection : Bytes) (e : Engine W)
    (coll : Collection) where
  insert_found :
      (docs : List (Document V))
      → find_collection database collection e ≡ ok coll
      → insert json database collection docs e ≡ insert_documents json coll docs e
  unfolding insert
  insert_found docs found = ground (arith, found)

  find_found :
      (filter : Document V) (rs : RecordStore) (es : Entries)
      → find_collection database collection e ≡ ok coll
      → get_elem? e.kv_engine.store_objects coll.record_store ≡ some rs
      → scan rs null_record_id ≡ done (ok (new_cursor es))
      → find json database collection filter e ≡ done (ok (decode_all json es))
  unfolding find
  find_found filter rs es found here scanned = ground (arith, found, here, scanned)

module _ {W : Type 0} (database collection : Bytes) where
  -- A database and a collection were made in a new engine, and up to 8128 documents are inserted into it,
  -- each of which can be serialised and read back, has a text for its `_id` or none, and is not refused by
  -- the index as the ones before have left it. `Insert` succeeds, and `Find` with any filter then returns
  -- these documents in the order of the list, with the `_id` that those without one got.
  pub find-insert :
      {V : Type 0} (json : Codec V) (docs : List (Document V))
      → length docs ≤ 64 * 127
      → AreAccepted json 0 empty_index docs
      → (e : Engine W) × (insert json database collection docs (with_collection database collection)
          ≡ done (ok tt, e))
        × ((filter : Document V)
            → find json database collection filter e ≡ done (ok (with_ids 0 docs)))
  find-insert json docs few a =
      let e0 : Engine W = made database collection in
      let r =
        insert_documents-Inserted json a (made-Loaded database collection) (omega (arith, few)) in
      let kept = r.loaded in
      let scanned : scan kept.store null_record_id ≡ done (ok (new_cursor (stored 0 r.more))) =
        (Holds-Shows kept.holds).scans_all
        ∙ ap (λ es. done (ok (new_cursor es)))
            (in_range-all (stored 0 r.more) (stored-NonEmptyKeys 0 r.more)) in
      (
        r.after,
        ap (insert json database collection docs) (with_collection-made database collection)
            ∙ insert_found json database collection e0 (the_collection collection) docs
                (find_collection-made database collection e0 refl)
            ∙ r.run,
        λ filter.
            find_found json database collection r.after (the_collection collection) filter
              kept.store (stored 0 r.more)
              (find_collection-made database collection r.after r.databases) kept.store_there
              scanned
            ∙ ap (λ ds. done (ok ds)) (r.decodes 0),
      )
