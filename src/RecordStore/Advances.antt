-- ===== src/RecordStore/Advances.antt =====
-- The steps of goroutines keep what is said of the store that they share.
use xmongodb.Common.{
  ◌+◌, ◌*◌, ◌-◌, ◌≤◌, ◌≡◌, ◌≢◌, refl, [], arith, done, ok, err, length, Option-cases, inl, inr,
}
use xmongodb.Common.Int.{pos, negsuc, sub_ℕ}
use xmongodb.Common.Word.{add_int64, neg_int64}
use xmongodb.Bytes.{Bytes}
use xmongodb.BTree.{key_not_found}
use xmongodb.BTree.Sorted.{lookup_in}
use xmongodb.BTree.Shallow.{get-lookup_in}
use xmongodb.RecordStore.{RecordStore, already_exists, not_exists, tree_error}
use xmongodb.RecordStore.Race.{
  insert_method, update_method, delete_method, Goroutine, checking, inserting, counting, sizing,
  looking, updating, resizing, seeking, deleting, uncounting, shrinking, finished, step,
}
use xmongodb.RecordStore.Interleavings.{tally_of, HasKey, system}
use xmongodb.Races.{Tally, none_yet, ◌⊕◌}
use xmongodb.Races.Interleavings.{Advanced, IsLawful}
use xmongodb.Races.Trees.{
  Shared, counts, uncounts, gives_up, enters, enters-Shared, deletes, deletes-Shared,
  deletes-Shared_missing,
}

abbrev pub SharedStore : Tally → RecordStore → Type 0
SharedStore t rs = Shared t rs.tree rs.num_records

abbrev Advances : Tally → RecordStore → Goroutine → Type 0
Advances = Advanced system SharedStore

module _ (rest : Tally) (rs : RecordStore) where
  acts :
      (p after : Goroutine) (rs' : RecordStore)
      → step rs p ≡ done (rs', after)
      → system.remaining after ≤ system.remaining p - 1
      → HasKey after
      → SharedStore (rest ⊕ tally_of after) rs'
      → Advances rest rs p
  acts p after rs' run nearer key shared = record {
    store = rs';
    after = after;
    run = run;
    nearer = nearer;
    key = key;
    shared = shared;
  }

  module _ (key : Bytes) (ne : key ≢ []) (s : SharedStore (rest ⊕ none_yet) rs) where
    checking-Advances : (body : Bytes) → Advances rest rs (checking key body)
    unfolding step
    checking-Advances body =
        let p = checking key body in
        let got = get-lookup_in s.shallow key ne in
        elim (Option-cases (lookup_in key s.entries)) [
          | inl e ↦ acts p (inserting key body) rs (rw (got, e) refl) (omega arith) ne s
          | inr (old, e) ↦
              acts p (finished insert_method (err already_exists)) rs (rw (got, e) refl)
                (omega arith) tt (gives_up rest s)
        ]

    looking-Advances : (body : Bytes) → Advances rest rs (looking key body)
    unfolding step
    looking-Advances body =
        let p = looking key body in
        let got = get-lookup_in s.shallow key ne in
        elim (Option-cases (lookup_in key s.entries)) [
          | inl e ↦
              acts p (finished update_method (err not_exists)) rs (rw (got, e) refl) (omega arith)
                tt (gives_up rest s)
          | inr (old, e) ↦ acts p (updating key body old) rs (rw (got, e) refl) (omega arith) ne s
        ]

    seeking-Advances : Advances rest rs (seeking key)
    unfolding step
    seeking-Advances =
        let p = seeking key in
        let got = get-lookup_in s.shallow key ne in
        elim (Option-cases (lookup_in key s.entries)) [
          | inl e ↦
              acts p (finished delete_method (err not_exists)) rs (rw (got, e) refl) (omega arith)
                tt (gives_up rest s)
          | inr (old, e) ↦ acts p (deleting key old) rs (rw (got, e) refl) (omega arith) ne s
        ]

    inserting-Advances :
        (body : Bytes) → rest.written + 1 ≤ 64 * 127 → Advances rest rs (inserting key body)
    unfolding step
    inserting-Advances body room =
        let a = enters rest s key ne body room in
        acts (inserting key body) (counting body) (record rs { tree = a.tree }) (rw a.run refl)
          (omega arith) tt (enters-Shared rest s key ne body room)

    updating-Advances :
        (body old : Bytes) → rest.written + 1 ≤ 64 * 127 → Advances rest rs (updating key body old)
    unfolding step
    updating-Advances body old room =
        let a = enters rest s key ne body room in
        acts (updating key body old) (resizing body old) (record rs { tree = a.tree })
          (rw a.run refl) (omega arith) tt (enters-Shared rest s key ne body room)

    deleting-Advances : (old : Bytes) → Advances rest rs (deleting key old)
    unfolding step
    deleting-Advances old =
        let a = deletes rest s key ne in
        let rs' = record rs { tree = a.tree } in
        elim (Option-cases (lookup_in key s.entries)) [
          | inl e ↦
              acts (deleting key old) (finished delete_method (err (tree_error key_not_found))) rs'
                (rw (a.run, e) refl) (omega arith) tt (deletes-Shared_missing rest s key ne e)
          | inr (body, e) ↦
              acts (deleting key old) (uncounting old) rs' (rw (a.run, e) refl) (omega arith) tt
                (deletes-Shared rest s key ne body e)
        ]

  every-Advances :
      (p : Goroutine)
      → HasKey p
      → rest.written + 1 ≤ 64 * 127
      → SharedStore (rest ⊕ tally_of p) rs
      → Advances rest rs p
  unfolding step
  every-Advances (checking key body) k room s = checking-Advances key k s body
  every-Advances (inserting key body) k room s = inserting-Advances key k s body room
  every-Advances (counting body) k room s =
      acts (counting body) (sizing body)
        (record rs { num_records = add_int64 rs.num_records (pos 1) }) refl (omega arith) tt
        (counts rest s)
  every-Advances (sizing body) k room s =
      acts (sizing body) (finished insert_method (ok tt))
        (record rs { data_size = add_int64 rs.data_size (pos (length body)) }) refl (omega arith) tt
        s
  every-Advances (looking key body) k room s = looking-Advances key k s body
  every-Advances (updating key body old) k room s = updating-Advances key k s body old room
  every-Advances (resizing body old) k room s =
      acts (resizing body old) (finished update_method (ok tt))
        (record rs { data_size = add_int64 rs.data_size (sub_ℕ (length body) (length old)) }) refl
        (omega arith) tt s
  every-Advances (seeking key) k room s = seeking-Advances key k s
  every-Advances (deleting key old) k room s = deleting-Advances key k s old
  every-Advances (uncounting old) k room s =
      acts (uncounting old) (shrinking old)
        (record rs { num_records = add_int64 rs.num_records (negsuc 0) }) refl (omega arith) tt
        (uncounts rest s)
  every-Advances (shrinking old) k room s =
      acts (shrinking old) (finished delete_method (ok tt))
        (record rs { data_size = add_int64 rs.data_size (neg_int64 (pos (length old))) }) refl
        (omega arith) tt s
  every-Advances (finished m r) k room s =
      acts (finished m r) (finished m r) rs refl (omega arith) tt s

written-le : (p : Goroutine) → (tally_of p).written ≤ 1
written-le p = ground arith

pub system-IsLawful : IsLawful system SharedStore (64 * 127)
system-IsLawful = record {
  written-le = written-le;
  advance = λ rest rs p key room shared. every-Advances rest rs p key room shared;
}
