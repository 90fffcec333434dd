-- ===== src/BTree/Split.antt =====
-- Splitting: `splitLeaf`, `insertIntoParent`, `splitInternal`.
use xmongodb.Common.{
  ℕ, zero, suc, ◌/◌, Option, none, some, List, [], ◌∷◌, Run, done, panic, out_of_fuel, must,
  require, ◌>>=◌, length, get_elem?, take, drop, insert_at, leb, if◌then◌else◌,
}
use xmongodb.Bytes.{Bytes}
use xmongodb.BTree.Heap.{BTree, new_leaf_node, new_internal_node, load, store, alloc}
use xmongodb.BTree.Find.{insert_index}

-- `child.parent = p`
unfoldable pub set_parent : BTree → ℕ → Option ℕ → Run BTree
unfolding store
set_parent t c p = load t c >>= λ n. done (store t c (record n { parent = p }))

-- The loop that gives the children of the new internal node their parent.
unfoldable pub set_parents : BTree → List ℕ → ℕ → Run BTree
unfolding set_parent
set_parents t [] p = done t
set_parents t (c ∷ cs) p = set_parent t c (some p) >>= λ t'. set_parents t' cs p

-- A new root over two nodes; both get it for their parent.
unfoldable pub grow_root : BTree → Bytes → (left right : ℕ) → Run BTree
unfolding alloc set_parent
grow_root t key left right =
    let r = t.fresh in
    let t1 = alloc t (record new_internal_node { keys = key ∷ []; children = left ∷ right ∷ [] }) in
    set_parent t1 left (some r) >>= λ t2.
    set_parent t2 right (some r) >>= λ t3. done (record t3 { root = r })

-- `up` is `insertIntoParent`. What is promoted goes into the parent of `p`, or into a new root; the
-- new node `q` then gets the parent that `p` has by now.
unfoldable pub promote : (BTree → ℕ → Bytes → ℕ → Run BTree) → BTree → Bytes → (p q : ℕ) → Run BTree
unfolding grow_root set_parent
promote up t key p q = load t p >>= λ n. elim n.parent [
  | none ↦ grow_root t key p q
  | some pp ↦ up t pp key q >>= λ t'. load t' p >>= λ n'. set_parent t' q n'.parent
]

unfoldable pub split_internal : (BTree → ℕ → Bytes → ℕ → Run BTree) → BTree → ℕ → Run BTree
unfolding alloc store set_parents promote
split_internal up t p = load t p >>= λ n.
    let mid = length n.keys / 2 in
    must (get_elem? n.keys mid) >>= λ key. require (leb (suc mid) (length n.children)) >>= λ fits.
    let children = drop (suc mid) n.children in
    let q = t.fresh in
    let t1 =
      alloc t (record new_internal_node { keys = drop (suc mid) n.keys; children = children }) in
    set_parents t1 children q >>= λ t2. load t2 p >>= λ n2.
    let t3 =
      store t2 p (record n2 { keys = take mid n2.keys; children = take (suc mid) n2.children }) in
    promote up t3 key p q

-- `children[i+1:]` panics where there are fewer than `i + 1` children. Each round goes one level up,
-- so the number of nodes is fuel enough.
unfoldable pub insert_into_parent : ℕ → BTree → ℕ → Bytes → ℕ → Run BTree
unfolding insert_index split_internal store
insert_into_parent zero t parent key right = out_of_fuel
insert_into_parent (suc fuel) t parent key right = load t parent >>= λ n.
    let i = insert_index key n.keys in
    if leb (suc i) (length n.children)
    then (let keys = insert_at i key n.keys in
        let t1 =
          store t parent
            (record n { keys = keys; children = insert_at (suc i) right n.children }) in
        let split = split_internal (insert_into_parent fuel) t1 parent in
        if leb t.order (length keys) then split else done t1)
    else panic

unfoldable pub split_leaf : BTree → ℕ → Run BTree
unfolding alloc store insert_into_parent promote
split_leaf t p = load t p >>= λ n.
    let mid = length n.keys / 2 in
    require (leb mid (length n.values)) >>= λ fits.
    let q = t.fresh in
    let keys = drop mid n.keys in
    let t1 =
      alloc t (record new_leaf_node { keys = keys; values = drop mid n.values; next = n.next }) in
    let t2 =
      store t1 p (record n { keys = take mid n.keys; values = take mid n.values; next = some q }) in
    must (get_elem? keys 0) >>= λ key. promote (insert_into_parent t2.fresh) t2 key p q
