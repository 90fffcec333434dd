-- ===== src/RecordStore/Lost.antt =====
-- Two calls of `InsertRecord` of server/storage/record_store.go with one new identifier, each of which
-- looks the identifier up before the other inserts.
use xmongodb.Common.{
  ℕ, ◌+◌, ◌*◌, ◌≤◌, ◌≡◌, refl, ap, ◌∙◌, none, some, List, [], ◌∷◌, arith, done, ok, length,
}
use xmongodb.Common.Int.{ℤ, pos}
use xmongodb.Common.Word.{add_int64}
use xmongodb.Bytes.{Bytes}
use xmongodb.Bytes.Order.{lex_refl, lex_symm}
use xmongodb.RecordId.{as_bytes, new_record_id_from_long}
use xmongodb.RecordId.Key.{long_key}
use xmongodb.BTree
use xmongodb.BTree.Chain.{Entries}
use xmongodb.BTree.Sorted.{lookup_in, insert_in}
use xmongodb.BTree.Totals.{total, length-insert_in_new, length-insert_in_old}
use xmongodb.BTree.Shallow.{get-lookup_in}
use xmongodb.BTree.Steps.{After}
use xmongodb.BTree.Inserts.{insert-After}
use xmongodb.BTree.Trail.{Shallow-Ascending}
use xmongodb.BTree.Ranges.{size-Shallow}
use xmongodb.BTree.Refines.{Shallow-room}
use xmongodb.RecordStore.{RecordStore, new_record_store, get_record, key_of}
use xmongodb.RecordStore.Table.{Table, insert_call, Call, call_all, call_all_table, wrapped}
use xmongodb.RecordStore.Holds.{Holds, wrapped_add, long_key_ne, new_record_store-Holds}
use xmongodb.RecordStore.Race.{
  insert_method, checking, inserting, counting, finished, begin, step, Goroutine,
}
use xmongodb.RecordStore.Interleavings.{system}
use xmongodb.RecordStore.Refines.{call_all-Holds}
use xmongodb.Races.Interleavings.{Steps, begun, next, here, there}

lookup_in-insert_in :
    (key body : Bytes) (es : Entries) → lookup_in key (insert_in key body es) ≡ some body
lookup_in-insert_in key body [] = ground (arith, lex_refl key)
lookup_in-insert_in key body ((k, v) ∷ es) =
    ground (arith, lex_refl key, lex_symm key k, lookup_in-insert_in key body es)

abbrev inserted : Goroutine
inserted = finished insert_method (ok tt)

-- Both calls have returned without an error: the store has one record more, with the body of the
-- second, and counts two records and the bytes of both bodies.
pub record BothInserted (t : Table) (id : ℤ) (first second : Bytes) (rs : RecordStore)
    : Type 0 where
  pub store : RecordStore
  pub race :
      Steps system rs
        (begin (insert_call id first) ∷ begin (insert_call id second) ∷ [])
        store
        (inserted ∷ inserted ∷ [])
  pub got : get_record store (new_record_id_from_long id) ≡ done (ok second)
  pub size : BTree.size store.tree ≡ done (length t + 1)
  pub count : store.num_records ≡ wrapped (length t + 2)
  pub data_size : store.data_size ≡ wrapped (total t + length first + length second)

module _ {bound : ℕ} {t : Table} {rs : RecordStore} (h : Holds bound t rs)
    (room : bound + 2 ≤ 64 * 127) (id : ℤ) (first second : Bytes)
    (new : lookup_in (long_key id) t ≡ none) where
  first_entered :
      After rs.tree h.weight
        (BTree.insert rs.tree (long_key id) first)
        (ok tt)
        (insert_in (long_key id) first t)
  first_entered =
      insert-After (long_key id) first h.shallow (long_key_ne id) (omega (arith, h.order)) (
        Shallow-room h.shallow (omega (arith, h.order)) (rw h.order (omega (arith, h.light, room))))

  second_entered :
      After first_entered.tree first_entered.weight
        (BTree.insert first_entered.tree (long_key id) second)
        (ok tt)
        (insert_in (long_key id) second (insert_in (long_key id) first t))
  second_entered =
      let a = first_entered in
      let order : a.tree.order ≡ 128 = a.order ∙ h.order in
      insert-After (long_key id) second a.shallow (long_key_ne id) (omega (arith, order)) (
        Shallow-room a.shallow (omega (arith, order))
          (rw order (omega (arith, h.light, a.light, room))))

  after_first : RecordStore
  after_first = record {
    tree = first_entered.tree;
    num_records = add_int64 rs.num_records (pos 1);
    data_size = add_int64 rs.data_size (pos (length first));
    namespace = rs.namespace;
  }

  after_second : RecordStore
  after_second = record {
    tree = second_entered.tree;
    num_records = add_int64 (add_int64 rs.num_records (pos 1)) (pos 1);
    data_size = add_int64 (add_int64 rs.data_size (pos (length first))) (pos (length second));
    namespace = rs.namespace;
  }

  missed :
      (body : Bytes)
      → step rs (checking (long_key id) body) ≡ done (rs, inserting (long_key id) body)
  unfolding step
  missed body = rw (get-lookup_in h.shallow (long_key id) (long_key_ne id), new) refl

  first_inserts :
      step rs (inserting (long_key id) first)
      ≡ done (record rs { tree = first_entered.tree }, counting first)
  unfolding step
  first_inserts = rw first_entered.run refl

  second_inserts :
      step after_first (inserting (long_key id) second)
      ≡ done (record after_first { tree = second_entered.tree }, counting second)
  unfolding step after_first
  second_inserts = rw second_entered.run refl

  -- Both look the identifier up, then the first inserts, then the second.
  both_return :
      Steps system rs
        (begin (insert_call id first) ∷ begin (insert_call id second) ∷ [])
        after_second
        (inserted ∷ inserted ∷ [])
  unfolding step key_of as_bytes after_first after_second
  both_return =
      let both_missed = next (next begun (here (missed first))) (there (here (missed second))) in
      let one = next (next (next both_missed (here first_inserts)) (here refl)) (here refl) in
      next (next (next one (there (here second_inserts))) (there (here refl))) (there (here refl))

  Holds-BothInserted : BothInserted t id first second rs
  unfolding get_record key_of as_bytes after_second
  Holds-BothInserted =
      let key = long_key id in
      let es = insert_in key first t in
      let old : lookup_in key es ≡ some first = lookup_in-insert_in key first t in
      let up = Shallow-Ascending first_entered.shallow in
      record {
        store = after_second;
        race = both_return;
        got =
            rw
              (
                get-lookup_in second_entered.shallow key (long_key_ne id),
                lookup_in-insert_in key second es,
              )
              refl;
        size =
            size-Shallow second_entered.shallow
            ∙ ap done (
                length-insert_in_old key second first es up old
                ∙ length-insert_in_new key first t new);
        count =
            ap (λ z. add_int64 (add_int64 z (pos 1)) (pos 1)) h.count
            ∙ ap (λ z. add_int64 z (pos 1)) (wrapped_add (length t) 1)
            ∙ wrapped_add (length t + 1) 1
            ∙ ap wrapped (omega arith);
        data_size =
            ap (λ z. add_int64 (add_int64 z (pos (length first))) (pos (length second))) h.size
            ∙ ap (λ z. add_int64 z (pos (length second))) (wrapped_add (total t) (length first))
            ∙ wrapped_add (total t + length first) (length second);
      }

-- On the store that up to 8126 calls of `InsertRecord`, `UpdateRecord` and `DeleteRecord` make of a new
-- one, two calls of `InsertRecord` with one int64 identifier that is not in use, with any bodies, have an
-- interleaving in which both return no error. Then `GetRecord` gives the body of the second alone, the
-- tree has one entry more, and the two counters have gone up by two records and by the bytes of both
-- bodies, wrapped round as int64.
pub calls-BothInserted :
    (namespace : Bytes) (cs : List Call) (id : ℤ) (first second : Bytes)
    → length cs + 2 ≤ 64 * 127
    → lookup_in (long_key id) (call_all_table [] cs).1 ≡ none
    → (rs : RecordStore) × (call_all (new_record_store namespace) cs
        ≡ done ((call_all_table [] cs).0, rs))
      × BothInserted (call_all_table [] cs).1 id first second rs
calls-BothInserted namespace cs id first second few new =
    let b = call_all-Holds cs (new_record_store-Holds namespace) (omega (arith, few)) in
    (b.store, b.run, Holds-BothInserted b.holds (omega (arith, few, b.few)) id first second new)
