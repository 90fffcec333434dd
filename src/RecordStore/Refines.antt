-- ===== src/RecordStore/Refines.antt =====
-- The record store answers as its table does, as long as its tree has one level or two.
use xmongodb.Common.{
  ℕ, ◌+◌, ◌*◌, ◌<◌, ◌≤◌, ◌≡◌, refl, sym, ap, ◌∙◌, List, [], ◌∷◌, arith, done, Result, ok, length,
  Option-cases, inl, inr,
}
use xmongodb.Common.Int.{ℤ, pos, negsuc, sub_ℕ}
use xmongodb.Common.Word.{add_int64, neg_int64}
use xmongodb.Bytes.{Bytes}
use xmongodb.RecordId.{as_bytes}
use xmongodb.RecordId.Key.{long_key}
use xmongodb.BTree
use xmongodb.BTree.Sorted.{lookup_in, insert_in, delete_in}
use xmongodb.BTree.Totals.{
  total, length-insert_in_new, total-insert_in_new, length-insert_in_old, total-insert_in_old,
  length-delete_in, total-delete_in,
}
use xmongodb.BTree.Shallow.{get-lookup_in}
use xmongodb.BTree.Steps.{After}
use xmongodb.BTree.Inserts.{insert-After}
use xmongodb.BTree.Deletes.{delete-After, delete_answer}
use xmongodb.BTree.Trail.{Shallow-Ascending}
use xmongodb.BTree.Refines.{Shallow-room}
use xmongodb.RecordStore.{
  RecordStore, StoreError, Outcome, new_record_store, insert_record, insert_new, update_record,
  update_old, delete_record, delete_old, key_of,
}
use xmongodb.RecordStore.Table.{
  Call, insert_call, update_call, delete_call, call_store, call_all, Table, call_table,
  call_all_table, wrapped, Shows,
}
use xmongodb.RecordStore.Holds.{
  Holds, later, wrapped_add, wrapped_sub, wrapped_by, wrapped_pred, long_key_ne, Holds-Shows,
  new_record_store-Holds,
}

abbrev pub Stepped : ℕ → RecordStore → Outcome → Result StoreError (Unit {0}) → Table → Type 0
Stepped bound rs r answer t =
    (rs' : RecordStore) × (r ≡ done (answer, rs')) × Holds (bound + 1) t rs'

module _ {bound : ℕ} {t : Table} {rs : RecordStore} (h : Holds bound t rs) (room : bound < 64 * 127)
    (id : ℤ) where
  -- The table's answer to `BTree.get`.
  got : BTree.get rs.tree (long_key id) ≡ done (lookup_in (long_key id) t)
  got = get-lookup_in h.shallow (long_key id) (long_key_ne id)

  entered :
      (body : Bytes)
      → After rs.tree h.weight
          (BTree.insert rs.tree (long_key id) body)
          (ok tt)
          (insert_in (long_key id) body t)
  entered body =
      insert-After (long_key id) body h.shallow (long_key_ne id) (omega (arith, h.order)) (
        Shallow-room h.shallow (omega (arith, h.order)) (rw h.order (omega (arith, h.light, room))))

  pub insert_steps :
      (body : Bytes)
      → Stepped bound rs
          (call_store rs (insert_call id body))
          (call_table t (insert_call id body)).0
          (call_table t (insert_call id body)).1
  unfolding call_store insert_record insert_new key_of as_bytes
  insert_steps body = elim (Option-cases (lookup_in (long_key id) t)) [
    | inl e ↦
        let a = entered body in
        rw e (
          record {
            tree = a.tree;
            num_records = add_int64 rs.num_records (pos 1);
            data_size = add_int64 rs.data_size (pos (length body));
            namespace = rs.namespace;
          },
          rw (got, e, a.run) refl,
          record {
            order = a.order ∙ h.order;
            weight = a.weight;
            seps = a.seps;
            shallow = a.shallow;
            light = omega (arith, a.light, h.light);
            count =
                ap (λ z. add_int64 z (pos 1)) h.count
                ∙ wrapped_add (length t) 1
                ∙ ap wrapped (sym (length-insert_in_new (long_key id) body t e));
            size =
                ap (λ z. add_int64 z (pos (length body))) h.size
                ∙ wrapped_add (total t) (length body)
                ∙ ap wrapped (sym (total-insert_in_new (long_key id) body t e));
          },
        )
    | inr (old, e) ↦ rw e (rs, rw (got, e) refl, later h)
  ]

  update_steps :
      (body : Bytes)
      → Stepped bound rs
          (call_store rs (update_call id body))
          (call_table t (update_call id body)).0
          (call_table t (update_call id body)).1
  unfolding call_store update_record update_old key_of as_bytes
  update_steps body = elim (Option-cases (lookup_in (long_key id) t)) [
    | inl e ↦ rw e (rs, rw (got, e) refl, later h)
    | inr (old, e) ↦
        let a = entered body in
        let up = Shallow-Ascending h.shallow in
        let rest = total (delete_in (long_key id) t) in
        let before : total t ≡ rest + length old = sym (total-delete_in (long_key id) old t e) in
        let behind : rest + length body ≡ total (insert_in (long_key id) body t) =
          omega (arith, total-insert_in_old (long_key id) body old t up e, before) in
        rw e (
          record {
            tree = a.tree;
            num_records = rs.num_records;
            data_size = add_int64 rs.data_size (sub_ℕ (length body) (length old));
            namespace = rs.namespace;
          },
          rw (got, e, a.run) refl,
          record {
            order = a.order ∙ h.order;
            weight = a.weight;
            seps = a.seps;
            shallow = a.shallow;
            light = omega (arith, a.light, h.light);
            count = h.count ∙ ap wrapped (sym (length-insert_in_old (long_key id) body old t up e));
            size =
                ap (λ z. add_int64 z (sub_ℕ (length body) (length old)))
                  (h.size ∙ ap wrapped before)
                ∙ wrapped_by rest (length old) (length body)
                ∙ ap wrapped behind;
          },
        )
  ]

  delete_steps :
      Stepped bound rs
        (call_store rs (delete_call id))
        (call_table t (delete_call id)).0
        (call_table t (delete_call id)).1
  unfolding call_store delete_record delete_old key_of as_bytes
  delete_steps = elim (Option-cases (lookup_in (long_key id) t)) [
    | inl e ↦ rw e (rs, rw (got, e) refl, later h)
    | inr (old, e) ↦
        let a = delete-After (long_key id) h.shallow (long_key_ne id) in
        let rest = total (delete_in (long_key id) t) in
        let before : total t ≡ rest + length old = sym (total-delete_in (long_key id) old t e) in
        rw e (
          record {
            tree = a.tree;
            num_records = add_int64 rs.num_records (negsuc 0);
            data_size = add_int64 rs.data_size (neg_int64 (pos (length old)));
            namespace = rs.namespace;
          },
          rw (got, e, a.run, ap delete_answer e) refl,
          record {
            order = a.order ∙ h.order;
            weight = a.weight;
            seps = a.seps;
            shallow = a.shallow;
            light = omega (arith, a.light, h.light);
            count =
                ap (λ z. add_int64 z (negsuc 0))
                  (h.count ∙ ap wrapped (sym (length-delete_in (long_key id) old t e)))
                ∙ wrapped_pred (length (delete_in (long_key id) t));
            size =
                ap (λ z. add_int64 z (neg_int64 (pos (length old)))) (h.size ∙ ap wrapped before)
                ∙ wrapped_sub rest (length old);
          },
        )
  ]

call_steps :
    {bound : ℕ} {t : Table} {rs : RecordStore} (c : Call)
    → Holds bound t rs
    → bound < 64 * 127
    → Stepped bound rs (call_store rs c) (call_table t c).0 (call_table t c).1
call_steps (insert_call id body) h room = insert_steps h room id body
call_steps (update_call id body) h room = update_steps h room id body
call_steps (delete_call id) h room = delete_steps h room id

-- The store after calls.
pub record Built (bound : ℕ) (t : Table) (rs : RecordStore) (cs : List Call) : Type 0 where
  pub store : RecordStore
  pub run : call_all rs cs ≡ done ((call_all_table t cs).0, store)
  pub calls : ℕ
  pub few : calls ≤ bound + length cs
  pub holds : Holds calls (call_all_table t cs).1 store

pub call_all-Holds :
    (cs : List Call) {bound : ℕ} {t : Table} {rs : RecordStore}
    → Holds bound t rs
    → bound + length cs ≤ 64 * 127
    → Built bound t rs cs
unfolding call_all
call_all-Holds [] {bound} {rs} h room = record {
  store = rs;
  run = refl;
  calls = bound;
  few = omega arith;
  holds = h;
}
call_all-Holds (c ∷ cs) {bound} h room =
    let (rs1, first, h1) = call_steps c h (omega arith) in
    let b = call_all-Holds cs h1 (omega arith) in
    record {
      store = b.store;
      run = rw (first, b.run) refl;
      calls = b.calls;
      few = omega (arith, b.few);
      holds = b.holds;
    }

-- On a new store, up to 8128 calls of `InsertRecord`, `UpdateRecord` and `DeleteRecord` with int64
-- identifiers neither panic nor loop: each answers as a list in the order of the keys does, with its
-- errors, and afterwards `GetRecord` and `Scan` from every int64 identifier and `Scan` from the null
-- one give what is in the list, and the two counters are its length and the bytes of its bodies,
-- wrapped round as int64.
pub call_all-Shows :
    (namespace : Bytes) (cs : List Call)
    → length cs ≤ 64 * 127
    → (rs : RecordStore) × (call_all (new_record_store namespace) cs
        ≡ done ((call_all_table [] cs).0, rs))
      × Shows (call_all_table [] cs).1 rs
call_all-Shows namespace cs few =
    let b = call_all-Holds cs (new_record_store-Holds namespace) (omega (arith, few)) in
    (b.store, b.run, Holds-Shows b.holds)
