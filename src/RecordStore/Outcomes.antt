-- ===== src/RecordStore/Outcomes.antt =====
-- Where calls of the methods that write come to, in goroutines.
use xmongodb.Common.{
  ℕ, suc, ◌+◌, ◌*◌, ◌≤◌, ◌≡◌, refl, ap, ◌∙◌, List, [], ◌∷◌, arith, done, ok, length,
}
use xmongodb.Common.Int.{sub_ℕ}
use xmongodb.Bytes.{Bytes}
use xmongodb.BTree
use xmongodb.BTree.Ranges.{size-Shallow}
use xmongodb.RecordId.{as_bytes}
use xmongodb.RecordStore.{RecordStore, new_record_store, key_of}
use xmongodb.RecordStore.Table.{Call, insert_call, update_call, delete_call}
use xmongodb.RecordStore.Holds.{long_key_ne}
use xmongodb.RecordStore.Race.{
  Method, insert_method, update_method, delete_method, Goroutine, finished, begin,
}
use xmongodb.RecordStore.Interleavings.{tally_of, remaining, system}
use xmongodb.RecordStore.Advances.{SharedStore, system-IsLawful}
use xmongodb.Races.{Tally, none_yet}
use xmongodb.Races.Interleavings.{
  Steps, sum_of, AllHaveKeys, AllFinished, AllGoOn, Kept, Steps-Kept, Kept-AllGoOn,
}
use xmongodb.Races.Trees.{new-Shared, net_small}

abbrev pub begin_all : List Call → List Goroutine
begin_all [] = []
begin_all (c ∷ calls) = begin c ∷ begin_all calls

begin_all-AllHaveKeys : (calls : List Call) → AllHaveKeys system (begin_all calls)
unfolding key_of as_bytes
begin_all-AllHaveKeys [] = tt
begin_all-AllHaveKeys (insert_call id body ∷ calls) = (long_key_ne id, begin_all-AllHaveKeys calls)
begin_all-AllHaveKeys (update_call id body ∷ calls) = (long_key_ne id, begin_all-AllHaveKeys calls)
begin_all-AllHaveKeys (delete_call id ∷ calls) = (long_key_ne id, begin_all-AllHaveKeys calls)

tally_of-begin : (c : Call) → tally_of (begin c) ≡ none_yet
unfolding key_of as_bytes
tally_of-begin (insert_call id body) = refl
tally_of-begin (update_call id body) = refl
tally_of-begin (delete_call id) = refl

sum_of-begin_all : (calls : List Call) → sum_of system (begin_all calls) ≡ none_yet
sum_of-begin_all [] = refl
sum_of-begin_all (c ∷ calls) = rw (tally_of-begin c, sum_of-begin_all calls) refl

length-begin_all : (calls : List Call) → length (begin_all calls) ≡ length calls
length-begin_all [] = refl
length-begin_all (c ∷ calls) = ap suc (length-begin_all calls)

-- What holds after any steps of calls on a new store.
store-Kept :
    (namespace : Bytes) (calls : List Call) {rs : RecordStore} {ps : List Goroutine}
    → length calls ≤ 64 * 127
    → Steps system (new_record_store namespace) (begin_all calls) rs ps
    → Kept system SharedStore none_yet (begin_all calls) rs ps
unfolding new_record_store
store-Kept namespace calls few =
    Steps-Kept system SharedStore system-IsLawful (rw (sum_of-begin_all calls) new-Shared)
      (begin_all-AllHaveKeys calls) (omega (arith, length-begin_all calls, few))

-- Up to 8128 calls of `InsertRecord`, `UpdateRecord` and `DeleteRecord` with int64 identifiers begin on a
-- new store, and their steps come in any order. At every time the next step of each call neither panics
-- nor loops, and leaves it a step less to its answer, of four at most, unless it has it.
pub Steps-AllGoOn :
    (namespace : Bytes) (calls : List Call) {rs : RecordStore} {ps : List Goroutine}
    → length calls ≤ 64 * 127
    → Steps system (new_record_store namespace) (begin_all calls) rs ps
    → AllGoOn system rs ps
Steps-AllGoOn namespace calls {ps} few steps =
    let k = store-Kept namespace calls few steps in
    Kept-AllGoOn system SharedStore system-IsLawful none_yet ps k.shared k.keys
      (omega (arith, k.same_length, length-begin_all calls, few))

abbrev same_method : Method → Method → ℕ
same_method insert_method insert_method = 1
same_method update_method update_method = 1
same_method delete_method delete_method = 1
same_method m n = 0

-- The calls of a method that returned without an error.
abbrev pub success : Method → Goroutine → ℕ
success m (finished n (ok _)) = same_method m n
success m p = 0

abbrev pub successes : Method → List Goroutine → ℕ
successes m [] = 0
successes m (p ∷ ps) = success m p + successes m ps

-- What finished calls have done: `i`, `u` and `d` insertions, updates and deletions without an error.
abbrev DoneBy : (i u d : ℕ) → Tally → Type 0
DoneBy i u d t = (t.entered ≡ i + u) × (t.removed ≡ d) × (t.counted ≡ i) × (t.uncounted ≡ d)

finished-DoneBy :
    (p : Goroutine)
    → remaining p ≡ 0
    → DoneBy
        (success insert_method p)
        (success update_method p)
        (success delete_method p)
        (tally_of p)
finished-DoneBy p h = ground arith

AllFinished-DoneBy :
    (ps : List Goroutine)
    → AllFinished system ps
    → DoneBy
        (successes insert_method ps)
        (successes update_method ps)
        (successes delete_method ps)
        (sum_of system ps)
AllFinished-DoneBy [] h = (refl, refl, refl, refl)
AllFinished-DoneBy (p ∷ ps) h =
    let (a, b, c, d) = finished-DoneBy p h.0 in
    let (a', b', c', d') = AllFinished-DoneBy ps h.1 in
    (omega (arith, a, a'), omega (arith, b, b'), omega (arith, c, c'), omega (arith, d, d'))

successes-le : (m : Method) (ps : List Goroutine) → successes m ps ≤ length ps
successes-le m [] = omega arith
successes-le m (p ∷ ps) = ground (arith, successes-le m ps)

-- Up to 8128 calls of `InsertRecord`, `UpdateRecord` and `DeleteRecord` with int64 identifiers begin on a
-- new store, and their steps come in any order. When all have returned, `NumRecords` is the number of
-- insertions without an error less that of deletions without an error, and the tree has at most as many
-- entries as there were insertions and updates without an error less deletions.
pub Steps-AllFinished :
    (namespace : Bytes) (calls : List Call) {rs : RecordStore} {ps : List Goroutine}
    → length calls ≤ 64 * 127
    → Steps system (new_record_store namespace) (begin_all calls) rs ps
    → AllFinished system ps
    → (rs.num_records ≡ sub_ℕ (successes insert_method ps) (successes delete_method ps))
      × ((n : ℕ) × (BTree.size rs.tree ≡ done n)
          × (n + successes delete_method ps
              ≤ successes insert_method ps + successes update_method ps))
Steps-AllFinished namespace calls {ps} few steps over =
    let k = store-Kept namespace calls few steps in
    let s = k.shared in
    let (entered, removed, counted, uncounted) = AllFinished-DoneBy ps over in
    let bound = λ (m : Method). successes-le m ps in
    (
      s.count
          ∙ net_small _ _ (successes insert_method ps) (successes delete_method ps)
              (omega (arith, counted)) (omega (arith, uncounted))
              (omega (arith, bound insert_method, k.same_length, length-begin_all calls, few))
              (omega (arith, bound delete_method, k.same_length, length-begin_all calls, few)),
      (length s.entries, size-Shallow s.shallow, omega (arith, s.few, entered, removed)),
    )
