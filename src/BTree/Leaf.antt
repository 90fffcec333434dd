-- ===== src/BTree/Leaf.antt =====
-- What the operations do inside one leaf.
use xmongodb.Common.{
  ℕ, suc, Bool, true, false, Option, none, some, List, [], ◌∷◌, Run, done, panic, ◌>>=◌, length,
  get_elem?, set, insert_at, remove_at, ltb, leb, if◌then◌else◌,
}
use xmongodb.Bytes.{Bytes, lex, bytes_equal, is_lt}
use xmongodb.BTree.Heap.{Node, BTree, load, store}
use xmongodb.BTree.Find.{insert_index}

-- `leaf.values[i] = value`
unfoldable pub set_value : ℕ → Bytes → Node → Run Node
set_value i value n =
    if ltb i (length n.values) then done (record n { values = set n.values i value }) else panic

-- Both slices are cut at `i`, the values second: a cut beyond the length panics.
unfoldable pub insert_entry : ℕ → Bytes → Bytes → Node → Run Node
insert_entry i key value n =
    if leb i (length n.values)
    then done (record n { keys = insert_at i key n.keys; values = insert_at i value n.values })
    else panic

-- The key at the position is compared only where there is one.
abbrev pub holds_at : List Bytes → ℕ → Bytes → Bool
holds_at keys i key = elim (get_elem? keys i) [ none ↦ false | some k ↦ bytes_equal key k ]

-- `insertIntoLeaf` on the node itself.
unfoldable pub insert_into_node : Bytes → Bytes → Node → Run Node
unfolding set_value insert_entry insert_index
insert_into_node key value n =
    let i = insert_index key n.keys in
    if holds_at n.keys i key then set_value i value n else insert_entry i key value n

unfoldable pub insert_into_leaf : BTree → ℕ → Bytes → Bytes → Run BTree
unfolding insert_into_node store
insert_into_leaf t leaf key value =
    load t leaf >>= λ n. insert_into_node key value n >>= λ n'. done (store t leaf n')

-- The loop of `Get` over the keys of the leaf: the value beside the first equal key.
unfoldable pub find_value : Bytes → List Bytes → List Bytes → Run (Option Bytes)
find_value key [] values = done none
find_value key (k ∷ keys) [] = if bytes_equal k key then panic else find_value key keys []
find_value key (k ∷ keys) (v ∷ values) =
    if bytes_equal k key then done (some v) else find_value key keys values

-- The loop of `Delete`: the index of the first equal key.
unfoldable pub index_of : Bytes → List Bytes → Option ℕ
index_of key [] = none
index_of key (k ∷ keys) =
    let rest = index_of key keys in
    if bytes_equal k key then some 0 else elim rest [ none ↦ none | some i ↦ some (suc i) ]

-- `values[i+1:]` panics where there is no value at `i`.
unfoldable pub remove_entry : ℕ → Node → Run Node
remove_entry i n =
    if ltb i (length n.values)
    then done (record n { keys = remove_at i n.keys; values = remove_at i n.values })
    else panic

-- The inner loop of `Range`: the entries of one leaf that are in the range, and whether the end
-- was met. `none` for the end is Go's nil: no bound.
abbrev pub past_end : Option Bytes → Bytes → Bool
past_end none k = false
past_end (some e) k = if is_lt (lex k e) then false else true

pub record Scan : Type 0 where
  pub entries : List (Bytes × Bytes)
  pub ended : Bool

abbrev pub scan_cons : Bytes → Bytes → Scan → Scan
scan_cons k v s = record s { entries = (k, v) ∷ s.entries }

unfoldable pub scan_leaf : Bytes → Option Bytes → List Bytes → List Bytes → Run Scan
scan_leaf start end [] values = done (record { entries = []; ended = false })
scan_leaf start end (k ∷ keys) [] =
    let rest = scan_leaf start end keys [] in
    if is_lt (lex k start)
    then rest
    else if past_end end k
    then done (record { entries = []; ended = true })
    else panic
scan_leaf start end (k ∷ keys) (v ∷ values) =
    let rest = scan_leaf start end keys values in
    if is_lt (lex k start)
    then rest
    else if past_end end k
    then done (record { entries = []; ended = true })
    else (rest >>= λ s. done (scan_cons k v s))
