-- ===== src/BTree/Valid.antt =====
-- The shape that keeps the operations of the tree from panicking, and what `findLeaf` finds in it.
use xmongodb.Common.{
  ℕ, zero, suc, ◌≤◌, ◌<◌, ◌≡◌, refl, ap, true, false, some, List, [], ◌∷◌, arith, Run, done, length,
  get_elem?, ◌==◌, ==_iff, Bool-cases, inl, inr,
}
use xmongodb.Bytes.{Bytes}
use xmongodb.BTree.Heap.{Node, BTree, store}
use xmongodb.BTree.Find.{child_index, descend, find_leaf, find_first_leaf}
use xmongodb.BTree.Entries.{AreParallel, IsSorted}

-- Every child is a live node of a lower level.
abbrev pub AreBelow : BTree → (ℕ → ℕ) → ℕ → List ℕ → Type 0
AreBelow t level p [] = Unit
AreBelow t level p (c ∷ cs) =
    ((n : Node) × (t.cell c ≡ some n) × (level c < level p)) × AreBelow t level p cs

-- The lists of a leaf are parallel, its keys ascend strictly, and there are fewer than the order.
pub record IsLeafNode (order : ℕ) (n : Node) : Type 0 where
  pub parallel : AreParallel n.keys n.values
  pub sorted : IsSorted n.keys
  pub small : length n.keys < order

-- An inner node has one child more than keys, each a live node of a lower level.
pub record IsInnerNode (t : BTree) (level : ℕ → ℕ) (p : ℕ) (n : Node) : Type 0 where
  pub fits : length n.children ≡ suc (length n.keys)
  pub below : AreBelow t level p n.children

pub record IsValid (t : BTree) : Type 0 where
  pub level : ℕ → ℕ
  pub root_low : level t.root < t.fresh
  pub root_node : Node
  pub root_live : t.cell t.root ≡ some root_node
  pub leaves : (p : ℕ) (n : Node) → t.cell p ≡ some n → n.is_leaf ≡ true → IsLeafNode t.order n
  pub inner : (p : ℕ) (n : Node) → t.cell p ≡ some n → n.is_leaf ≡ false → IsInnerNode t level p n

-- What a descent ends at.
pub record Found (t : BTree) (r : Run ℕ) : Type 0 where
  pub leaf : ℕ
  pub node : Node
  pub result : r ≡ done leaf
  pub holds : t.cell leaf ≡ some node
  pub is_leaf : node.is_leaf ≡ true

AreBelow-get :
    (t : BTree) (level : ℕ → ℕ) (p i : ℕ) (cs : List ℕ)
    → AreBelow t level p cs
    → i < length cs
    → (c : ℕ) × (n : Node) × (get_elem? cs i ≡ some c) × (t.cell c ≡ some n) × (level c < level p)
AreBelow-get t level p i [] b h = absurd (omega arith)
AreBelow-get t level p zero (c ∷ cs) b h = (c, b.0.0, refl, b.0.1, b.0.2)
AreBelow-get t level p (suc i) (c ∷ cs) b h = AreBelow-get t level p i cs b.1 (omega arith)

child_index-bound : (key : Bytes) (ks : List Bytes) → child_index key ks ≤ length ks
unfolding child_index
child_index-bound key [] = omega arith
child_index-bound key (k ∷ ks) = ground (arith, child_index-bound key ks)

module _ {t : BTree} (v : IsValid t) (pick : List Bytes → ℕ)
    (inside : (ks : List Bytes) → pick ks ≤ length ks) where
  -- The descent ends at a leaf, with fuel above the level at which it begins.
  descend-Found :
      (fuel p : ℕ) (n : Node)
      → t.cell p ≡ some n
      → v.level p < fuel
      → Found t (descend fuel t pick p)
  unfolding descend
  descend-Found zero p n e h = absurd (omega arith)
  descend-Found (suc fuel) p n e h = elim (Bool-cases n.is_leaf) [
    | inl leaf ↦ record { leaf = p; node = n; result = rw (e, leaf); holds = e; is_leaf = leaf }
    | inr deep ↦
        let inner = v.inner p n e deep in
        let (c, m, found, live, low) =
          AreBelow-get t v.level p (pick n.keys) n.children inner.below
            (ground (arith, inside n.keys, inner.fits)) in
        rw (e, deep, found) (descend-Found fuel c m live (omega arith))
  ]

-- In a tree of valid shape `findLeaf` neither panics nor runs out of fuel, and ends at a leaf.
pub find_leaf-Found : {t : BTree} → IsValid t → (key : Bytes) → Found t (find_leaf t key)
unfolding find_leaf
find_leaf-Found {t} v key =
    descend-Found v (child_index key) (child_index-bound key) t.fresh t.root v.root_node v.root_live
      v.root_low

pub find_first_leaf-Found : {t : BTree} → IsValid t → Found t (find_first_leaf t)
unfolding find_first_leaf
find_first_leaf-Found {t} v =
    descend-Found v (λ ks. 0) (λ ks. omega arith) t.fresh t.root v.root_node v.root_live v.root_low

-- Changing what a leaf holds leaves every descent where it was.
pub descend-store :
    (fuel : ℕ) (t : BTree) (pick : List Bytes → ℕ) (p q : ℕ) (n n' : Node)
    → t.cell p ≡ some n
    → n.is_leaf ≡ true
    → n'.is_leaf ≡ true
    → descend fuel (store t p n') pick q ≡ descend fuel t pick q
unfolding descend store
descend-store zero t pick p q n n' e l l' = refl
descend-store (suc fuel) t pick p q n n' e l l' = elim (Bool-cases (p == q)) [
  | inl same ↦ ground (arith, ap t.cell ((==_iff p q).0 same))
  | inr other ↦
      let ih : (c : ℕ) → descend fuel (store t p n') pick c ≡ descend fuel t pick c =
        λ c. descend-store fuel t pick p c n n' e l l' in
      simp (other, ih)
]
