-- ===== src/BTree/SplitLeaf.antt =====
-- What `splitLeaf` does to the heap, at a leaf that is the root and at one below a root with room.
use xmongodb.Common.{
  ℕ, ◌+◌, ◌/◌, ◌<◌, ◌≡◌, ◌≢◌, refl, sym, ◌∙◌, true, false, Option, none, some, [], ◌∷◌, arith, done,
  length, length-insert_at, get_elem?, insert_at, take, drop, suc, ◌==◌, ==_iff, leb,
}
use xmongodb.Bytes.{Bytes}
use xmongodb.BTree.Heap.{Node, BTree, new_leaf_node, new_internal_node, store, alloc}
use xmongodb.BTree.Find.{insert_index}
use xmongodb.BTree.Split.{split_leaf, promote, grow_root, set_parent, insert_into_parent}

-- The two halves of a leaf below `up`.
abbrev pub left_half : ℕ → ℕ → Option ℕ → Node → Node
left_half mid q up n = record n {
  keys = take mid n.keys;
  values = take mid n.values;
  next = some q;
  parent = up;
}

abbrev pub right_half : ℕ → Option ℕ → Node → Node
right_half mid up n = record new_leaf_node {
  keys = drop mid n.keys;
  values = drop mid n.values;
  next = n.next;
  parent = up;
}

-- The leaf is split, and its halves still have no place in an inner node.
abbrev pub halved : BTree → ℕ → Node → BTree
halved t p n =
    let mid = length n.keys / 2 in
    store (alloc t (right_half mid none n)) p (left_half mid t.fresh n.parent n)

abbrev pub new_root : Bytes → ℕ → ℕ → Node
new_root sep p q = record new_internal_node { keys = sep ∷ []; children = p ∷ q ∷ [] }

-- The tree after the root was split.
abbrev pub split_root : BTree → ℕ → Node → Bytes → BTree
split_root t p n sep =
    let mid = length n.keys / 2 in
    let q = t.fresh in
    let r = suc t.fresh in
    record (store (store (alloc (halved t p n) (new_root sep p q)) p (left_half mid q (some r) n)) q
      (right_half mid (some r) n)) { root = r }

abbrev pub with_child : Bytes → ℕ → Node → Node
with_child sep q m =
    let i = insert_index sep m.keys in
    record m { keys = insert_at i sep m.keys; children = insert_at (suc i) q m.children }

-- The tree after a leaf below the root was split.
abbrev pub split_below : BTree → ℕ → Node → Node → Bytes → BTree
split_below t p n m sep =
    let mid = length n.keys / 2 in
    let q = t.fresh in
    store (store (halved t p n) t.root (with_child sep q m)) q (right_half mid (some t.root) n)

pub same : (a : ℕ) → (a == a) ≡ true
same a = (==_iff a a).1 refl

pub differ : (a b : ℕ) → a ≢ b → (a == b) ≡ false
differ a b h = ground (arith, ==_iff a b)

module _ (t : BTree) (p : ℕ) (n : Node) (sep : Bytes) (e : t.cell p ≡ some n) (old : p < t.fresh)
    (par : length n.keys ≡ length n.values)
    (first : get_elem? (drop (length n.keys / 2) n.keys) 0 ≡ some sep) where
  split_leaf-halved :
      split_leaf t p ≡ promote (insert_into_parent (suc t.fresh)) (halved t p n) sep p t.fresh
  unfolding split_leaf store alloc
  split_leaf-halved =
      let enough : leb (length n.keys / 2) (length n.values) ≡ true = ground arith in
      rw (e, enough, first) refl

  pub split_leaf-split_root : n.parent ≡ none → split_leaf t p ≡ done (split_root t p n sep)
  unfolding store alloc promote grow_root set_parent
  split_leaf-split_root u =
      split_leaf-halved
      ∙ simp (
        same p,
        differ t.fresh p (omega arith),
        differ (suc t.fresh) p (omega arith),
        same t.fresh,
        differ p t.fresh (omega arith),
        differ (suc t.fresh) t.fresh (omega arith),
        u,
      )

  pub split_leaf-split_below :
      {m : Node}
      → n.parent ≡ some t.root
      → t.cell t.root ≡ some m
      → t.root < t.fresh
      → p ≢ t.root
      → insert_index sep m.keys < length m.children
      → length m.keys + 1 < t.order
      → split_leaf t p ≡ done (split_below t p n m sep)
  unfolding store alloc promote insert_into_parent set_parent
  split_leaf-split_below {m} u root low apart inside room =
      split_leaf-halved
      ∙ (let full : leb t.order (length (insert_at (insert_index sep m.keys) sep m.keys)) ≡ false =
            ground (arith, length-insert_at (insert_index sep m.keys) sep m.keys) in
          let inner : leb (suc (insert_index sep m.keys)) (length m.children) ≡ true =
            ground arith in
          simp (
            same p,
            differ t.fresh p (omega arith),
            same t.root,
            differ p t.root apart,
            differ t.fresh t.root (omega arith),
            same t.fresh,
            differ p t.fresh (omega arith),
            differ t.root p (λ x. apart (sym x)),
            differ t.root t.fresh (omega arith),
            root,
            u,
            inner,
            full,
          ))
