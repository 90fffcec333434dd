-- ===== src/BTree/Find.antt =====
-- Descending the tree: `findLeaf` and `findFirstLeaf`.
use xmongodb.Common.{
  ℕ, zero, suc, List, [], ◌∷◌, Run, done, out_of_fuel, must, ◌>>=◌, get_elem?, if◌then◌else◌,
}
use xmongodb.Bytes.{Bytes, lex, is_lt, is_gt}
use xmongodb.BTree.Heap.{BTree, load}

-- The first index at which `Compare(key, keys[i]) >= 0` fails.
unfoldable pub child_index : Bytes → List Bytes → ℕ
child_index key [] = 0
child_index key (k ∷ ks) = if is_lt (lex key k) then 0 else suc (child_index key ks)

-- The first index at which `Compare(key, keys[i]) > 0` fails.
unfoldable pub insert_index : Bytes → List Bytes → ℕ
insert_index key [] = 0
insert_index key (k ∷ ks) = if is_gt (lex key k) then suc (insert_index key ks) else 0

-- The descent from a node, to the child that `pick` chooses among the keys.
unfoldable pub descend : ℕ → BTree → (List Bytes → ℕ) → ℕ → Run ℕ
descend zero t pick p = out_of_fuel
descend (suc fuel) t pick p = load t p >>= λ n.
    if n.is_leaf
    then done p
    else (must (get_elem? n.children (pick n.keys)) >>= λ c. descend fuel t pick c)

-- The address of the leaf. The path visits each node at most once, so `t.fresh` rounds are enough.
unfoldable pub find_leaf : BTree → Bytes → Run ℕ
unfolding child_index descend
find_leaf t key = descend t.fresh t (child_index key) t.root

unfoldable pub find_first_leaf : BTree → Run ℕ
unfolding descend
find_first_leaf t = descend t.fresh t (λ keys. 0) t.root
