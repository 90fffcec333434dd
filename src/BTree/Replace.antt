-- ===== src/BTree/Replace.antt =====
-- A tree after one of its leaves was replaced, and a new tree.
use xmongodb.Common.{
  ℕ, ◌+◌, ◌≤◌, ◌≡◌, ◌≢◌, refl, ap, ◌∙◌, true, false, Option, none, some, List, [], ◌∷◌, arith, Run,
  done, length, if◌then◌else◌, ◌==◌, ==_iff, Bool-cases, inl, inr,
}
use xmongodb.Bytes.{Bytes, bytes_equal}
use xmongodb.Bytes.Order.{eq_of_lex}
use xmongodb.BTree.Heap.{Node, BTree, new_leaf_node, store}
use xmongodb.BTree.Find.{child_index, find_leaf}
use xmongodb.BTree.Leaf.{find_value}
use xmongodb.BTree.Valid.{AreBelow, IsLeafNode, IsValid, Found, find_leaf-Found, descend-store}
use xmongodb.BTree.{new_btree, min_order, get}

AreBelow-store :
    (t : BTree) (level : ℕ → ℕ) (p q : ℕ) (n' : Node) (cs : List ℕ)
    → AreBelow t level q cs
    → AreBelow (store t p n') level q cs
unfolding store
AreBelow-store t level p q n' [] b = tt
AreBelow-store t level p q n' (c ∷ cs) b = (
  elim (Bool-cases (p == c)) [
    | inl same ↦ (n', rw same, b.0.2)
    | inr other ↦ (b.0.0, rw other b.0.1, b.0.2)
  ],
  AreBelow-store t level p q n' cs b.1,
)

-- A leaf may be replaced by any leaf whose lists are parallel and sorted.
pub store-IsValid :
    {t : BTree} (v : IsValid t) (p : ℕ) (n n' : Node)
    → t.cell p ≡ some n
    → n.is_leaf ≡ true
    → n'.is_leaf ≡ true
    → IsLeafNode t.order n'
    → IsValid (store t p n')
unfolding store
store-IsValid {t} v p n n' e l l' good = record {
  level = v.level;
  root_low = v.root_low;
  root_node = if p == t.root then n' else v.root_node;
  root_live = ground (arith, v.root_live);
  leaves = λ q m f leaf. elim (Bool-cases (p == q)) [
    | inl same ↦ let g : n' ≡ m = ground arith in rw g at good
    | inr other ↦ v.leaves q m (rw other at f) leaf
  ];
  inner = λ q m f deep. elim (Bool-cases (p == q)) [
    | inl same ↦ absurd (ground arith)
    | inr other ↦
        let i = v.inner q m (rw other at f) deep in
        record { fits = i.fits; below = AreBelow-store t v.level p q n' m.children i.below }
  ];
}

-- `Get` reads the leaf that `findLeaf` finds.
pub get-find_value :
    {t : BTree} (b : ℕ) (bs : Bytes) (f : Found t (find_leaf t (b ∷ bs)))
    → get t (b ∷ bs) ≡ find_value (b ∷ bs) f.node.keys f.node.values
unfolding get
get-find_value b bs f = rw (f.result, f.holds)

pub find_leaf-store :
    (t : BTree) (p : ℕ) (n n' : Node) (key : Bytes)
    → t.cell p ≡ some n
    → n.is_leaf ≡ true
    → n'.is_leaf ≡ true
    → find_leaf (store t p n') key ≡ find_leaf t key
unfolding find_leaf store
find_leaf-store t p n n' key e l l' =
    unfold store in descend-store t.fresh t (child_index key) p t.root n n' e l l'

-- `Get` after the leaf that holds the place of a key was replaced.
pub get-store :
    {t : BTree} (v : IsValid t) (key : Bytes) (f : Found t (find_leaf t key)) (n' : Node)
    (r : Run (Option Bytes)) (j : Bytes)
    → n'.is_leaf ≡ true
    → key ≢ []
    → find_value j n'.keys n'.values
      ≡ (if bytes_equal key j then r else find_value j f.node.keys f.node.values)
    → get (store t f.leaf n') j ≡ (if bytes_equal key j then r else get t j)
unfolding get
get-store {t} v key f n' r [] l' ne h = ground (arith, eq_of_lex key [])
get-store {t} v key f n' r (j ∷ js) l' ne h =
    let g = find_leaf-Found v (j ∷ js) in
    let moved : find_leaf (store t f.leaf n') (j ∷ js) ≡ done g.leaf =
      find_leaf-store t f.leaf f.node n' (j ∷ js) f.holds f.is_leaf l' ∙ g.result in
    elim (Bool-cases (f.leaf == g.leaf)) [
      | inl same ↦
          let e : f.leaf ≡ g.leaf = (==_iff f.leaf g.leaf).0 same in
          let nodes : f.node ≡ g.node = ground (arith, ap t.cell e, f.holds, g.holds) in
          rw (moved, g.result) (unfold store in rw (same, g.holds, ← nodes) h)
      | inr other ↦
          let differ : bytes_equal key (j ∷ js) ≡ false =
            ground (arith, eq_of_lex key (j ∷ js), ap (find_leaf t), f.result, g.result) in
          rw (moved, g.result, differ) (unfold store in rw (other, g.holds))
    ]

pub get_empty : (t : BTree) {old : Bytes} → ¬ (get t [] ≡ done (some old))
unfolding get
get_empty t h = cc

-- The root is a leaf with at most `bound` keys.
abbrev pub LeafRoot : BTree → ℕ → Type 0
LeafRoot t bound =
    (n : Node) × (t.cell t.root ≡ some n) × (n.is_leaf ≡ true) × (length n.keys ≤ bound)

pub store-LeafRoot :
    (t : BTree) (p : ℕ) (n n' : Node) (bound : ℕ)
    → t.cell p ≡ some n
    → n'.is_leaf ≡ true
    → length n'.keys ≤ length n.keys + 1
    → LeafRoot t bound
    → LeafRoot (store t p n') (bound + 1)
unfolding store
store-LeafRoot t p n n' bound here leaf more (m, root, l, few) = elim (Bool-cases (p == t.root)) [
  | inl same ↦
      let nodes : n ≡ m = ground (arith, ap t.cell ((==_iff p t.root).0 same)) in
      (n', rw same, leaf, omega (arith, more, ap (λ x. length x.keys) nodes))
  | inr other ↦ (m, rw other root, l, omega arith)
]

-- A new tree is one empty leaf.
pub new_btree-IsValid : (order : ℕ) → IsValid (new_btree order)
unfolding new_btree
new_btree-IsValid order = record {
  level = λ p. 0;
  root_low = omega arith;
  root_node = new_leaf_node;
  root_live = refl;
  leaves = λ p n e leaf.
      let q : new_leaf_node ≡ n = ground arith in
      let good : IsLeafNode (min_order order) new_leaf_node = record {
        parallel = refl;
        sorted = tt;
        small = ground arith;
      } in
      rw q at good;
  inner = λ p n e deep. absurd (ground arith);
}

pub get-new_btree : (order : ℕ) (key : Bytes) → get (new_btree order) key ≡ done none
unfolding get new_btree find_leaf find_value
get-new_btree order [] = refl
get-new_btree order (b ∷ bs) = refl
