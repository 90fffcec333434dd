-- ===== src/SortedData/Holds.antt =====
-- An index that holds what is in a table, in a tree of one level or two.
use xmongodb.Common.{
  ℕ, ◌+◌, ◌*◌, ◌<◌, ◌≤◌, ◌≡◌, refl, ap, ◌∙◌, Bool, true, false, some, ◌∷◌, arith, done, ◌>>=◌, ok,
  length, Option-cases, inl, inr, ◌==◌, if◌then◌else◌,
}
use xmongodb.Common.Int.{pos, negsuc}
use xmongodb.Common.Word.{add_int64}
use xmongodb.Bytes.{Bytes}
use xmongodb.RecordId.{RecordId, null_record_id}
use xmongodb.BTree
use xmongodb.BTree.Sorted.{lookup_in, insert_in, delete_in-missing}
use xmongodb.BTree.Shallow.{Shallow}
use xmongodb.BTree.Steps.{After}
use xmongodb.BTree.Inserts.{insert-After}
use xmongodb.BTree.Deletes.{delete-After, delete_answer}
use xmongodb.BTree.Ranges.{range-Shallow}
use xmongodb.BTree.Refines.{Shallow-room, new_btree-Shallow}
use xmongodb.SortedData.{
  BTreeIndex, Outcome, after_tree, insert_entry, key_exists, seek, seek_range, new_index,
  range_start, range_end,
}
use xmongodb.SortedData.Composite.{make_composite_key, make_next_key, record_id_bytes}
use xmongodb.SortedData.Table.{
  IndexTable, IndexAnswer, empty_index, sought, table_enter, table_delete, ShowsIndex,
}
use xmongodb.SortedData.Keys.{make_composite_key_ne}

pub record HoldsIndex (unique : Bool) (bound : ℕ) (t : IndexTable) (idx : BTreeIndex) : Type 0 where
  pub weight : ℕ
  pub seps : ℕ
  pub order : idx.tree.order ≡ 128
  pub shallow : Shallow idx.tree t.entries weight seps
  pub light : weight ≤ bound
  pub count : idx.num_entries ≡ t.count
  pub kind : idx.unique ≡ unique

pub later :
    {unique : Bool} {bound : ℕ} {t : IndexTable} {idx : BTreeIndex}
    → HoldsIndex unique bound t idx
    → HoldsIndex unique (bound + 1) t idx
later h = record {
  weight = h.weight;
  seps = h.seps;
  order = h.order;
  shallow = h.shallow;
  light = omega (arith, h.light);
  count = h.count;
  kind = h.kind;
}

abbrev pub Answered : Bool → ℕ → Outcome → IndexAnswer → Type 0
Answered unique bound r a =
    (idx : BTreeIndex) × (r ≡ done (a.0, idx)) × HoldsIndex unique (bound + 1) a.1 idx

module _ {unique : Bool} {bound : ℕ} {t : IndexTable} {idx : BTreeIndex}
    (h : HoldsIndex unique bound t idx) (key : Bytes) (id : RecordId) where
  pub entered :
      bound < 64 * 127 → Answered unique bound (insert_entry idx key id) (table_enter key id t)
  unfolding insert_entry
  entered room =
      let ck = make_composite_key key id in
      let a : After idx.tree h.weight (BTree.insert idx.tree ck (record_id_bytes id)) (ok tt)
          (insert_in ck (record_id_bytes id) t.entries) =
        insert-After ck (record_id_bytes id) h.shallow (make_composite_key_ne key id)
          (omega (arith, h.order))
          (Shallow-room h.shallow (omega (arith, h.order))
            (rw h.order (omega (arith, h.light, room)))) in
      (
        record idx { tree = a.tree; num_entries = add_int64 idx.num_entries (pos 1) },
        rw a.run refl,
        record {
          weight = a.weight;
          seps = a.seps;
          order = a.order ∙ h.order;
          shallow = a.shallow;
          light = omega (arith, a.light, h.light);
          count = ap (λ z. add_int64 z (pos 1)) h.count;
          kind = h.kind;
        },
      )

  pub found : key_exists idx key ≡ done (if length (sought key t.entries) == 0 then false else true)
  unfolding key_exists
  found =
      rw
        (range-Shallow h.shallow (make_composite_key key null_record_id) (some (make_next_key key)))
        refl

  pub removed :
      bound < 64 * 127
      → Answered unique bound
          (BTree.delete idx.tree (make_composite_key key id) >>= after_tree idx (negsuc 0))
          (table_delete key id t (lookup_in (make_composite_key key id) t.entries))
  removed room =
      let ck = make_composite_key key id in
      let a = delete-After ck h.shallow (make_composite_key_ne key id) in
      elim (Option-cases (lookup_in ck t.entries)) [
        | inl absent ↦ rw absent (
          record idx { tree = a.tree },
          rw (a.run, ap delete_answer absent) refl,
          record {
            weight = a.weight;
            seps = a.seps;
            order = a.order ∙ h.order;
            shallow = rw (delete_in-missing ck t.entries absent) at a.shallow;
            light = omega (arith, a.light, h.light);
            count = h.count;
            kind = h.kind;
          },
        )
        | inr (v, present) ↦ rw present (
          record idx { tree = a.tree; num_entries = add_int64 idx.num_entries (negsuc 0) },
          rw (a.run, ap delete_answer present) refl,
          record {
            weight = a.weight;
            seps = a.seps;
            order = a.order ∙ h.order;
            shallow = a.shallow;
            light = omega (arith, a.light, h.light);
            count = ap (λ z. add_int64 z (negsuc 0)) h.count;
            kind = h.kind;
          },
        )
      ]

pub HoldsIndex-ShowsIndex :
    {unique : Bool} {bound : ℕ} {t : IndexTable} {idx : BTreeIndex}
    → HoldsIndex unique bound t idx
    → ShowsIndex t idx
unfolding seek seek_range
HoldsIndex-ShowsIndex h = record {
  seeks = λ b bs.
      rw
        (range-Shallow h.shallow (make_composite_key (b ∷ bs) null_record_id)
          (some (make_next_key (b ∷ bs))))
        refl;
  ranges = λ start end. rw (range-Shallow h.shallow (range_start start) (range_end end)) refl;
  count = h.count;
}

pub new_index-HoldsIndex :
    (name : Bytes) (unique : Bool) → HoldsIndex unique 0 empty_index (new_index name unique)
unfolding new_index
new_index-HoldsIndex name unique = record {
  weight = 0;
  seps = 0;
  order = unfold BTree.new_btree in refl;
  shallow = new_btree-Shallow 128;
  light = omega arith;
  count = refl;
  kind = refl;
}
