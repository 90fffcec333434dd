-- ===== src/SortedData/Outcomes.antt =====
-- Where calls of `Insert` and `Remove` come to, in goroutines.
use xmongodb.Common.{
  ℕ, suc, ◌+◌, ◌*◌, ◌≤◌, ◌≡◌, refl, ap, ◌∙◌, Bool, List, [], ◌∷◌, arith, done, ok, length,
}
use xmongodb.Common.Int.{pos, sub_ℕ}
use xmongodb.Bytes.{Bytes}
use xmongodb.BTree
use xmongodb.BTree.Ranges.{size-Shallow}
use xmongodb.SortedData.{BTreeIndex, new_index}
use xmongodb.SortedData.Table.{IndexCall, insert_call, remove_call}
use xmongodb.SortedData.Race.{
  IndexMethod, insert_method, remove_method, IndexGoroutine, finished, begin_index,
}
use xmongodb.SortedData.Advances.{
  tally_of, remaining, index_system, SharedIndex, index_system-IsLawful,
}
use xmongodb.Races.{Tally, none_yet}
use xmongodb.Races.Interleavings.{
  Steps, sum_of, AllHaveKeys, AllFinished, AllGoOn, Kept, Steps-Kept, Kept-AllGoOn,
}
use xmongodb.Races.Trees.{new-Shared, stays, net_small}

abbrev pub begin_all_index : Bool → List IndexCall → List IndexGoroutine
begin_all_index unique [] = []
begin_all_index unique (c ∷ calls) = begin_index unique c ∷ begin_all_index unique calls

-- Nothing is entered, removed or counted yet.
abbrev IsIdle : Tally → Type 0
IsIdle t = (t.entered ≡ 0) × (t.removed ≡ 0) × (t.counted ≡ 0) × (t.uncounted ≡ 0)

begin_index-IsIdle : (unique : Bool) (c : IndexCall) → IsIdle (tally_of (begin_index unique c))
begin_index-IsIdle unique (insert_call [] id) = (refl, refl, refl, refl)
begin_index-IsIdle unique (insert_call (b ∷ bs) id) =
    (ground arith, ground arith, ground arith, ground arith)
begin_index-IsIdle unique (remove_call [] id) = (refl, refl, refl, refl)
begin_index-IsIdle unique (remove_call (b ∷ bs) id) =
    (ground arith, ground arith, ground arith, ground arith)

begin_all_index-IsIdle :
    (unique : Bool) (calls : List IndexCall)
    → IsIdle (sum_of index_system (begin_all_index unique calls))
begin_all_index-IsIdle unique [] = (refl, refl, refl, refl)
begin_all_index-IsIdle unique (c ∷ calls) =
    let (a, b, c1, d) = begin_index-IsIdle unique c in
    let (a', b', c', d') = begin_all_index-IsIdle unique calls in
    (omega (arith, a, a'), omega (arith, b, b'), omega (arith, c1, c'), omega (arith, d, d'))

all_have_keys : (ps : List IndexGoroutine) → AllHaveKeys index_system ps
all_have_keys [] = tt
all_have_keys (p ∷ ps) = (tt, all_have_keys ps)

length-begin_all_index :
    (unique : Bool) (calls : List IndexCall) → length (begin_all_index unique calls) ≡ length calls
length-begin_all_index unique [] = refl
length-begin_all_index unique (c ∷ calls) = ap suc (length-begin_all_index unique calls)

-- What holds after any steps of calls on a new index.
index-Kept :
    (name : Bytes) (unique : Bool) (calls : List IndexCall) {idx : BTreeIndex}
    {ps : List IndexGoroutine}
    → length calls ≤ 64 * 127
    → Steps index_system (new_index name unique) (begin_all_index unique calls) idx ps
    → Kept index_system SharedIndex none_yet (begin_all_index unique calls) idx ps
unfolding new_index
index-Kept name unique calls few =
    let (entered, removed, counted, uncounted) = begin_all_index-IsIdle unique calls in
    Steps-Kept index_system SharedIndex index_system-IsLawful
      (stays _ _ (pos 0) new-Shared (omega arith) entered removed (rw (counted, uncounted) refl))
      (all_have_keys (begin_all_index unique calls))
      (omega (arith, length-begin_all_index unique calls, few))

-- Up to 8128 calls of `Insert` and `Remove` begin on a new index, and their steps come in any order. At
-- every time the next step of each call neither panics nor loops, and leaves it a step less to its
-- answer, of three at most, unless it has it.
pub index_steps-AllGoOn :
    (name : Bytes) (unique : Bool) (calls : List IndexCall) {idx : BTreeIndex}
    {ps : List IndexGoroutine}
    → length calls ≤ 64 * 127
    → Steps index_system (new_index name unique) (begin_all_index unique calls) idx ps
    → AllGoOn index_system idx ps
index_steps-AllGoOn name unique calls {ps} few steps =
    let k = index-Kept name unique calls few steps in
    Kept-AllGoOn index_system SharedIndex index_system-IsLawful none_yet ps k.shared k.keys
      (omega (arith, k.same_length, length-begin_all_index unique calls, few))

abbrev same_method : IndexMethod → IndexMethod → ℕ
same_method insert_method insert_method = 1
same_method remove_method remove_method = 1
same_method m n = 0

-- The calls of a method that returned without an error.
abbrev pub success : IndexMethod → IndexGoroutine → ℕ
success m (finished n (ok _)) = same_method m n
success m p = 0

abbrev pub successes : IndexMethod → List IndexGoroutine → ℕ
successes m [] = 0
successes m (p ∷ ps) = success m p + successes m ps

-- What finished calls have done: `i` insertions and `r` removals without an error.
abbrev DoneBy : (i r : ℕ) → Tally → Type 0
DoneBy i r t = (t.entered ≡ i) × (t.removed ≡ r) × (t.counted ≡ i) × (t.uncounted ≡ r)

finished-DoneBy :
    (p : IndexGoroutine)
    → remaining p ≡ 0
    → DoneBy (success insert_method p) (success remove_method p) (tally_of p)
finished-DoneBy p h = ground arith

AllFinished-DoneBy :
    (ps : List IndexGoroutine)
    → AllFinished index_system ps
    → DoneBy (successes insert_method ps) (successes remove_method ps) (sum_of index_system ps)
AllFinished-DoneBy [] h = (refl, refl, refl, refl)
AllFinished-DoneBy (p ∷ ps) h =
    let (a, b, c, d) = finished-DoneBy p h.0 in
    let (a', b', c', d') = AllFinished-DoneBy ps h.1 in
    (omega (arith, a, a'), omega (arith, b, b'), omega (arith, c, c'), omega (arith, d, d'))

successes-le : (m : IndexMethod) (ps : List IndexGoroutine) → successes m ps ≤ length ps
successes-le m [] = omega arith
successes-le m (p ∷ ps) = ground (arith, successes-le m ps)

-- Up to 8128 calls of `Insert` and `Remove` begin on a new index, unique or not, and their steps come in
-- any order. When all have returned, `NumEntries` is the number of insertions without an error less that
-- of removals without an error, and the tree has at most so many entries.
pub index_steps-AllFinished :
    (name : Bytes) (unique : Bool) (calls : List IndexCall) {idx : BTreeIndex}
    {ps : List IndexGoroutine}
    → length calls ≤ 64 * 127
    → Steps index_system (new_index name unique) (begin_all_index unique calls) idx ps
    → AllFinished index_system ps
    → (idx.num_entries ≡ sub_ℕ (successes insert_method ps) (successes remove_method ps))
      × ((n : ℕ) × (BTree.size idx.tree ≡ done n)
          × (n + successes remove_method ps ≤ successes insert_method ps))
index_steps-AllFinished name unique calls {ps} few steps over =
    let k = index-Kept name unique calls few steps in
    let s = k.shared in
    let (entered, removed, counted, uncounted) = AllFinished-DoneBy ps over in
    let total = length-begin_all_index unique calls in
    (
      s.count
          ∙ net_small _ _ (successes insert_method ps) (successes remove_method ps)
              (omega (arith, counted)) (omega (arith, uncounted))
              (omega (arith, successes-le insert_method ps, k.same_length, total, few))
              (omega (arith, successes-le remove_method ps, k.same_length, total, few)),
      (length s.entries, size-Shallow s.shallow, omega (arith, s.few, entered, removed)),
    )
