-- ===== src/BTree.antt =====
-- server/storage/btree/btree.go: the B+ tree, over an explicit heap of nodes.
-- The pointers `children`, `next` and `parent` are addresses, `nil` is `none`.
pub mod Heap
pub mod Find
pub mod Landing
pub mod Leaf
pub mod Split
pub mod Entries
pub mod Removal
pub mod Valid
pub mod Replace
pub mod Update
pub mod Chain
pub mod Sizes
pub mod Sorted
pub mod Row
pub mod Fits
pub mod Focus
pub mod Shallow
pub mod SplitLeaf
pub mod Halves
pub mod Grow
pub mod Steps
pub mod Inserts
pub mod Deletes
pub mod Trail
pub mod Ranges
pub mod Refines
pub mod Totals
pub mod Writes
mod Tests
use xmongodb.Common.{
  ℕ, zero, suc, ◌+◌, ◌/◌, Bool, true, false, Option, none, some, List, [], ◌∷◌, ◌++◌, Run, done,
  panic, out_of_fuel, must, ◌>>=◌, Result, ok, err, length, get_elem?, set, ◌==◌, ltb, leb,
  if◌then◌else◌,
}
use xmongodb.Bytes.{Bytes}
use Heap.{Node, BTree, new_leaf_node, new_internal_node, load, store, alloc}
use Find.{find_leaf, find_first_leaf}
use Leaf.{insert_into_leaf, index_of, remove_entry, find_value, scan_leaf}
use Split.{split_leaf}

pub data TreeError : Type 0 where
  empty_key key_not_found : TreeError

abbrev pub min_order : ℕ → ℕ
min_order order = if ltb order 3 then 3 else order

-- An order below 3 is taken for 3.
unfoldable pub new_btree : ℕ → BTree
new_btree order = record {
  cell = λ p. if p == 0 then some new_leaf_node else none;
  fresh = 1;
  root = 0;
  order = min_order order;
}

-- `Insert`: an empty key is an error; a leaf that is full afterwards is split.
unfoldable pub insert : BTree → Bytes → Bytes → Run (Result TreeError (Unit {0}) × BTree)
unfolding find_leaf insert_into_leaf split_leaf
insert t [] value = done (err empty_key, t)
insert t (b ∷ bs) value =
    let key = b ∷ bs in
    find_leaf t key >>= λ leaf. insert_into_leaf t leaf key value >>= λ t1. load t1 leaf >>= λ n.
    let split = split_leaf t1 leaf >>= λ t2. done (ok tt, t2) in
    if leb t1.order (length n.keys) then split else done (ok tt, t1)

-- `Get`: `none` is Go's `nil, false`.
unfoldable pub get : BTree → Bytes → Run (Option Bytes)
unfolding find_leaf find_value
get t [] = done none
get t (b ∷ bs) =
    find_leaf t (b ∷ bs) >>= λ leaf. load t leaf >>= λ n. find_value (b ∷ bs) n.keys n.values

unfoldable pub delete : BTree → Bytes → Run (Result TreeError (Unit {0}) × BTree)
unfolding find_leaf index_of remove_entry store
delete t [] = done (err empty_key, t)
delete t (b ∷ bs) = find_leaf t (b ∷ bs) >>= λ leaf. load t leaf >>= λ n.
    elim (index_of (b ∷ bs) n.keys) [
      | none ↦ done (err key_not_found, t)
      | some i ↦ remove_entry i n >>= λ n'. done (ok tt, store t leaf n')
    ]

-- The outer loop of `Range`, along the chain of leaves.
unfoldable pub range_from : ℕ → BTree → Bytes → Option Bytes → Option ℕ → Run (List (Bytes × Bytes))
unfolding scan_leaf
range_from zero t start end p = out_of_fuel
range_from (suc fuel) t start end none = done []
range_from (suc fuel) t start end (some p) = load t p >>= λ n.
    scan_leaf start end n.keys n.values >>= λ s.
    let rest = range_from fuel t start end n.next >>= λ es. done (s.entries ++ es) in
    if s.ended then done s.entries else rest

-- `Range`: keys and values side by side. The chain visits each node at most once.
unfoldable pub range : BTree → Bytes → Option Bytes → Run (List (Bytes × Bytes))
unfolding find_leaf range_from
range t start end = find_leaf t start >>= λ leaf. range_from (suc t.fresh) t start end (some leaf)

unfoldable pub size_from : ℕ → BTree → Option ℕ → ℕ → Run ℕ
size_from zero t p count = out_of_fuel
size_from (suc fuel) t none count = done count
size_from (suc fuel) t (some p) count =
    load t p >>= λ n. size_from fuel t n.next (count + length n.keys)

unfoldable pub size : BTree → Run ℕ
unfolding find_first_leaf size_from
size t = find_first_leaf t >>= λ leaf. size_from (suc t.fresh) t (some leaf) 0
