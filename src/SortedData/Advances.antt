-- ===== src/SortedData/Advances.antt =====
-- The steps of goroutines keep what is said of the index that they share.
use xmongodb.Common.{
  ℕ, ◌+◌, ◌*◌, ◌-◌, ◌≤◌, ◌≡◌, refl, true, false, some, arith, done, Result, ok, err, length,
  Bool-cases, Option-cases, inl, inr, ◌==◌, if◌then◌else◌,
}
use xmongodb.Common.Int.{pos, negsuc}
use xmongodb.Common.Word.{add_int64}
use xmongodb.Bytes.{Bytes}
use xmongodb.RecordId.{RecordId, null_record_id}
use xmongodb.BTree.{key_not_found}
use xmongodb.BTree.Sorted.{lookup_in}
use xmongodb.BTree.Ranges.{range-Shallow}
use xmongodb.SortedData.{BTreeIndex, IndexError, duplicate_key, tree_error, key_exists}
use xmongodb.SortedData.Composite.{make_composite_key, make_next_key, record_id_bytes}
use xmongodb.SortedData.Keys.{make_composite_key_ne}
use xmongodb.SortedData.Table.{sought}
use xmongodb.SortedData.Race.{
  IndexMethod, insert_method, remove_method, IndexGoroutine, probing, entering, counting, removing,
  uncounting, finished, index_step,
}
use xmongodb.Races.{Tally, tally, none_yet, ◌⊕◌}
use xmongodb.Races.Interleavings.{System, Advanced, IsLawful}
use xmongodb.Races.Trees.{
  Shared, counts, uncounts, gives_up, enters, enters-Shared, deletes, deletes-Shared,
  deletes-Shared_missing,
}

abbrev pub tally_finished : IndexMethod → Result IndexError (Unit {0}) → Tally
tally_finished m (err e) = tally 1 0 0 0 0
tally_finished insert_method (ok _) = tally 1 1 0 1 0
tally_finished remove_method (ok _) = tally 1 0 1 0 1

abbrev pub tally_of : IndexGoroutine → Tally
tally_of (probing key id) = none_yet
tally_of (entering key id) = none_yet
tally_of counting = tally 1 1 0 0 0
tally_of (removing key id) = none_yet
tally_of uncounting = tally 1 0 1 0 0
tally_of (finished m r) = tally_finished m r

abbrev pub remaining : IndexGoroutine → ℕ
remaining (probing key id) = 3
remaining (entering key id) = 2
remaining counting = 1
remaining (removing key id) = 2
remaining uncounting = 1
remaining (finished m r) = 0

-- No composite key is empty, so nothing is asked of the goroutines.
abbrev pub index_system : System BTreeIndex IndexGoroutine
index_system = record {
  step = index_step;
  tally_of = tally_of;
  remaining = remaining;
  HasKey = λ p. Unit;
}

abbrev pub SharedIndex : Tally → BTreeIndex → Type 0
SharedIndex t idx = Shared t idx.tree idx.num_entries

abbrev Advances : Tally → BTreeIndex → IndexGoroutine → Type 0
Advances = Advanced index_system SharedIndex

module _ (rest : Tally) (idx : BTreeIndex) where
  acts :
      (p after : IndexGoroutine) (idx' : BTreeIndex)
      → index_step idx p ≡ done (idx', after)
      → remaining after ≤ remaining p - 1
      → SharedIndex (rest ⊕ tally_of after) idx'
      → Advances rest idx p
  acts p after idx' run nearer shared = record {
    store = idx';
    after = after;
    run = run;
    nearer = nearer;
    key = tt;
    shared = shared;
  }

  module _ (key : Bytes) (id : RecordId) (s : SharedIndex (rest ⊕ none_yet) idx) where
    -- `keyExists` looks through the entries.
    probe : (key_exists idx key ≡ done (if length (sought key s.entries) == 0 then false else true))
    unfolding key_exists
    probe =
        rw
          (range-Shallow s.shallow (make_composite_key key null_record_id)
            (some (make_next_key key)))
          refl

    probing-Advances : Advances rest idx (probing key id)
    unfolding index_step
    probing-Advances = elim (Bool-cases (length (sought key s.entries) == 0)) [
      | inl absent ↦
          acts (probing key id) (entering key id) idx (rw (probe, absent) refl) (omega arith) s
      | inr present ↦
          acts (probing key id) (finished insert_method (err duplicate_key)) idx
            (rw (probe, present) refl) (omega arith) (gives_up rest s)
    ]

    entering-Advances : rest.written + 1 ≤ 64 * 127 → Advances rest idx (entering key id)
    unfolding index_step
    entering-Advances room =
        let ck = make_composite_key key id in
        let ne = make_composite_key_ne key id in
        let a = enters rest s ck ne (record_id_bytes id) room in
        acts (entering key id) counting (record idx { tree = a.tree }) (rw a.run refl) (omega arith)
          (enters-Shared rest s ck ne (record_id_bytes id) room)

    removing-Advances : Advances rest idx (removing key id)
    unfolding index_step
    removing-Advances =
        let ck = make_composite_key key id in
        let ne = make_composite_key_ne key id in
        let a = deletes rest s ck ne in
        let idx' = record idx { tree = a.tree } in
        elim (Option-cases (lookup_in ck s.entries)) [
          | inl e ↦
              acts (removing key id) (finished remove_method (err (tree_error key_not_found))) idx'
                (rw (a.run, e) refl) (omega arith) (deletes-Shared_missing rest s ck ne e)
          | inr (old, e) ↦
              acts (removing key id) uncounting idx' (rw (a.run, e) refl) (omega arith)
                (deletes-Shared rest s ck ne old e)
        ]

  every-Advances :
      (p : IndexGoroutine)
      → rest.written + 1 ≤ 64 * 127
      → SharedIndex (rest ⊕ tally_of p) idx
      → Advances rest idx p
  unfolding index_step
  every-Advances (probing key id) room s = probing-Advances key id s
  every-Advances (entering key id) room s = entering-Advances key id s room
  every-Advances counting room s =
      acts counting (finished insert_method (ok tt))
        (record idx { num_entries = add_int64 idx.num_entries (pos 1) }) refl (omega arith)
        (counts rest s)
  every-Advances (removing key id) room s = removing-Advances key id s
  every-Advances uncounting room s =
      acts uncounting (finished remove_method (ok tt))
        (record idx { num_entries = add_int64 idx.num_entries (negsuc 0) }) refl (omega arith)
        (uncounts rest s)
  every-Advances (finished m r) room s = acts (finished m r) (finished m r) idx refl (omega arith) s

written-le : (p : IndexGoroutine) → (tally_of p).written ≤ 1
written-le p = ground arith

pub index_system-IsLawful : IsLawful index_system SharedIndex (64 * 127)
index_system-IsLawful = record {
  written-le = written-le;
  advance = λ rest idx p key room shared. every-Advances rest idx p room shared;
}
