-- ===== src/SortedData/Refines.antt =====
-- The index answers as its table does, as long as its tree has one level or two.
use xmongodb.Common.{
  ℕ, ◌+◌, ◌*◌, ◌<◌, ◌≤◌, ◌≡◌, refl, Bool, true, false, List, [], ◌∷◌, arith, done, ◌>>=◌, err,
  length, Bool-cases, inl, inr, ◌==◌, if◌then◌else◌,
}
use xmongodb.Bytes.{Bytes}
use xmongodb.RecordId.{RecordId, is_null}
use xmongodb.SortedData.{
  BTreeIndex, duplicate_key, insert, insert_entry, remove, key_exists, new_index,
}
use xmongodb.SortedData.Table.{
  IndexCall, insert_call, remove_call, call_index, call_all_index, IndexTable, empty_index, sought,
  table_enter, table_insert, table_remove, call_table, call_all_table, ShowsIndex,
}
use xmongodb.SortedData.Holds.{
  HoldsIndex, later, Answered, entered, found, removed, HoldsIndex-ShowsIndex, new_index-HoldsIndex,
}

module _ {unique : Bool} {bound : ℕ} {t : IndexTable} {idx : BTreeIndex}
    (h : HoldsIndex unique bound t idx) (room : bound < 64 * 127) where
  checked_steps :
      (u' u : Bool) (key : Bytes) (id : RecordId)
      → u' ≡ u
      → Answered unique bound
          (if u'
            then (key_exists idx key >>= λ found.
                (if found then done (err duplicate_key, idx) else insert_entry idx key id))
            else insert_entry idx key id)
          (if u
            then (if length (sought key t.entries) == 0
                then table_enter key id t
                else (err duplicate_key, t))
            else table_enter key id t)
  checked_steps true true key id e = elim (Bool-cases (length (sought key t.entries) == 0)) [
    | inl new ↦ rw (found h key id, new) (entered h key id room)
    | inr there ↦ rw (found h key id, there) (idx, refl, later h)
  ]
  checked_steps true false key id e = cc
  checked_steps false true key id e = cc
  checked_steps false false key id e = entered h key id room

  pub insert_steps :
      (key : Bytes) (id : RecordId)
      → Answered unique bound (insert idx key id) (table_insert unique key id t)
  unfolding insert
  insert_steps [] id = (idx, refl, later h)
  insert_steps (b ∷ bs) id = elim (Bool-cases (is_null id)) [
    | inl null ↦ rw null (idx, refl, later h)
    | inr given ↦ rw given (checked_steps idx.unique unique (b ∷ bs) id h.kind)
  ]

  remove_steps :
      (key : Bytes) (id : RecordId)
      → Answered unique bound (remove idx key id) (table_remove key id t)
  unfolding remove
  remove_steps [] id = (idx, refl, later h)
  remove_steps (b ∷ bs) id = elim (Bool-cases (is_null id)) [
    | inl null ↦ rw null (idx, refl, later h)
    | inr given ↦ rw given (removed h (b ∷ bs) id room)
  ]

  call_steps : (c : IndexCall) → Answered unique bound (call_index idx c) (call_table unique t c)
  unfolding call_index
  call_steps (insert_call key id) = insert_steps key id
  call_steps (remove_call key id) = remove_steps key id

call_all-HoldsIndex :
    (cs : List IndexCall) {unique : Bool} {bound : ℕ} {t : IndexTable} {idx : BTreeIndex}
    → HoldsIndex unique bound t idx
    → bound + length cs ≤ 64 * 127
    → (idx' : BTreeIndex) × (call_all_index idx cs ≡ done ((call_all_table unique t cs).0, idx'))
      × ShowsIndex (call_all_table unique t cs).1 idx'
unfolding call_all_index
call_all-HoldsIndex [] {idx} h room = (idx, refl, HoldsIndex-ShowsIndex h)
call_all-HoldsIndex (c ∷ cs) h room =
    let (idx1, first, h1) = call_steps h (omega arith) c in
    let (idx2, rest, shows) = call_all-HoldsIndex cs h1 (omega arith) in
    (idx2, rw (first, rest), shows)

-- On a new index, unique or not, up to 8128 calls of `Insert` and `Remove` with any keys and identifiers
-- neither panic nor loop: each answers as a list in the order of the composite keys does, with its errors,
-- and afterwards `Seek` of every key that is not empty and `SeekRange` between all bounds go through
-- what is in the list, and `NumEntries` is the int64 that is one more for each `Insert` without an error,
-- also of an entry that was there, and one less for each `Remove` without an error.
pub call_all_index-ShowsIndex :
    (name : Bytes) (unique : Bool) (cs : List IndexCall)
    → length cs ≤ 64 * 127
    → (idx : BTreeIndex) × (call_all_index (new_index name unique) cs
        ≡ done ((call_all_table unique empty_index cs).0, idx))
      × ShowsIndex (call_all_table unique empty_index cs).1 idx
call_all_index-ShowsIndex name unique cs few =
    call_all-HoldsIndex cs (new_index-HoldsIndex name unique) (omega (arith, few))
