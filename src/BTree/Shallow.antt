-- ===== src/BTree/Shallow.antt =====
-- Trees of one level, whose root is a leaf, and of two, whose root has the leaves for its children.
use xmongodb.Common.{
  ℕ, ◌+◌, ◌<◌, ◌≤◌, ◌≡◌, ◌≢◌, refl, ap, ◌∙◌, true, false, Option, none, some, List, [], ◌∷◌, ◌++◌,
  arith, done, length, get_elem?, zero, suc, ==_iff,
}
use xmongodb.Bytes.{Bytes}
use xmongodb.BTree.Heap.{Node, BTree, store}
use xmongodb.BTree.Find.{child_index, descend, find_leaf}
use xmongodb.BTree.Valid.{IsLeafNode}
use xmongodb.BTree.Chain.{Entries, KeysAbove}
use xmongodb.BTree.Sorted.{KeysBelow, lookup_in, lookup_in-pair_up, lookup_in-append}
use xmongodb.BTree.Row.{at_least, before, Within, entries_of, excess, Row, Keeps}
use xmongodb.BTree.Focus.{focus}
use xmongodb.BTree.Writes.{descend-leaf}
use xmongodb.BTree.{get}

-- The entries of the tree, what its splits and excess keys count, and how many keys an inner root has.
pub data Shallow (t : BTree) : Entries → ℕ → ℕ → Type 0 where
  leaf_root :
      {es : Entries} {w : ℕ} → Row t.order t none none [] (t.root ∷ []) es w → Shallow t es w 0
  inner_root :
      {m : Node} {es : Entries} {w : ℕ}
      → t.cell t.root ≡ some m
      → m.is_leaf ≡ false
      → m.parent ≡ none
      → t.root < t.fresh
      → length m.children ≤ t.fresh
      → Row t.order t (some t.root) none m.keys m.children es w
      → Shallow t es w (length m.keys)

pub store-Keeps : (t : BTree) (p : ℕ) (n : Node) → Keeps t (store t p n) p
unfolding store
store-Keeps t p n = record {
  grows = omega arith;
  same = λ j m e l h ne. ground (arith, ==_iff p j);
}

pub store_here : (t : BTree) (p : ℕ) (n : Node) → (store t p n).cell p ≡ some n
unfolding store
store_here t p n = ground arith

-- The leaf of a key, and the tree after the leaf was replaced.
pub record Spot (t : BTree) (es : Entries) (w : ℕ) (k : ℕ) (key : Bytes) : Type 0 where
  pub address : ℕ
  pub node : Node
  pub low : Option Bytes
  pub high : Option Bytes
  pub pre : Entries
  pub post : Entries
  pub rest : ℕ
  pub found : find_leaf t key ≡ done address
  pub live : t.cell address ≡ some node
  pub leaf : node.is_leaf ≡ true
  pub good : IsLeafNode t.order node
  pub within : Within low high node.keys
  pub reached : at_least low key ≡ true
  pub not_passed : before high key ≡ true
  pub entries : es ≡ pre ++ (entries_of node ++ post)
  pub weight : w ≡ rest + excess t.order node
  pub below : KeysBelow key pre
  pub behind : KeysAbove key post
  pub replaced :
      (n : Node)
      → n.is_leaf ≡ true
      → n.parent ≡ node.parent
      → n.next ≡ node.next
      → IsLeafNode t.order n
      → Within low high n.keys
      → Shallow (store t address n) (pre ++ (entries_of n ++ post)) (rest + excess t.order n) k

pub descend_two :
    (t : BTree) (fuel : ℕ) (pick : List Bytes → ℕ) {p c : ℕ} {m n : Node}
    → t.cell p ≡ some m
    → m.is_leaf ≡ false
    → get_elem? m.children (pick m.keys) ≡ some c
    → t.cell c ≡ some n
    → n.is_leaf ≡ true
    → 1 < fuel
    → descend fuel t pick p ≡ done c
unfolding descend
descend_two t zero pick e d g f l h = absurd (omega arith)
descend_two t (suc fuel) pick e d g f l h =
    rw (e, d, g) (descend-leaf t fuel pick f l (omega arith))

pub leaf_not_inner :
    (t : BTree) {p c : ℕ} {m n : Node}
    → t.cell p ≡ some m
    → m.is_leaf ≡ false
    → t.cell c ≡ some n
    → n.is_leaf ≡ true
    → p ≢ c
leaf_not_inner t e d f l = λ x. ground (arith, ap t.cell x)

module _ {t : BTree} {es : Entries} {w : ℕ} (key : Bytes) where
  leaf-Spot : Row t.order t none none [] (t.root ∷ []) es w → Spot t es w 0 key
  unfolding find_leaf child_index store
  leaf-Spot r =
      let f = focus key r refl in
      let root : t.root ≡ f.address = ground (arith, f.at) in
      record {
        address = f.address;
        node = f.node;
        low = f.low;
        high = f.high;
        pre = f.pre;
        post = f.post;
        rest = f.rest;
        found =
            descend-leaf t t.fresh (child_index key) (ap t.cell root ∙ f.here.live) f.here.leaf
              (omega (arith, f.here.old))
            ∙ ap done root;
        live = f.here.live;
        leaf = f.here.leaf;
        good = f.here.good;
        within = f.here.within;
        reached = f.reached;
        not_passed = f.not_passed;
        entries = f.entries;
        weight = f.weight;
        below = f.below;
        behind = f.behind;
        replaced = λ n l p x g b. leaf_root (
            f.replaced (store t f.address n) n (store-Keeps t f.address n)
              (store_here t f.address n)
              (record {
                leaf = l;
                parent = p ∙ f.here.parent;
                next_leaf = x ∙ f.here.next_leaf;
                good = g;
                within = b;
              }));
      }

  inner-Spot :
      {m : Node}
      → t.cell t.root ≡ some m
      → m.is_leaf ≡ false
      → m.parent ≡ none
      → t.root < t.fresh
      → length m.children ≤ t.fresh
      → Row t.order t (some t.root) none m.keys m.children es w
      → Spot t es w (length m.keys) key
  unfolding find_leaf store
  inner-Spot {m} e d u old fits r =
      let f = focus key r refl in
      let apart : t.root ≢ f.address = leaf_not_inner t e d f.here.live f.here.leaf in
      record {
        address = f.address;
        node = f.node;
        low = f.low;
        high = f.high;
        pre = f.pre;
        post = f.post;
        rest = f.rest;
        found =
            descend_two t t.fresh (child_index key) e d f.at f.here.live f.here.leaf
              (omega (arith, f.here.old));
        live = f.here.live;
        leaf = f.here.leaf;
        good = f.here.good;
        within = f.here.within;
        reached = f.reached;
        not_passed = f.not_passed;
        entries = f.entries;
        weight = f.weight;
        below = f.below;
        behind = f.behind;
        replaced = λ n l p x g b.
            inner_root {m = m} (ground (arith, e, ==_iff f.address t.root)) d u old fits (
              f.replaced (store t f.address n) n (store-Keeps t f.address n)
                (store_here t f.address n)
                (record {
                  leaf = l;
                  parent = p ∙ f.here.parent;
                  next_leaf = x ∙ f.here.next_leaf;
                  good = g;
                  within = b;
                }));
      }

pub spot : {t : BTree} {es : Entries} {w k : ℕ} (key : Bytes) → Shallow t es w k → Spot t es w k key
spot key (leaf_root r) = leaf-Spot key r
spot key (inner_root e d u old fits r) = inner-Spot key e d u old fits r

-- `Get` looks the key up in the entries.
pub get-lookup_in :
    {t : BTree} {es : Entries} {w k : ℕ}
    → Shallow t es w k
    → (key : Bytes) → key ≢ []
    → get t key ≡ done (lookup_in key es)
unfolding get
get-lookup_in s [] ne = absurd (ne refl)
get-lookup_in s (b ∷ bs) ne =
    let key : Bytes = b ∷ bs in
    let x = spot key s in
    rw
      (
        x.found,
        x.live,
        x.entries,
        lookup_in-append key x.pre (entries_of x.node) x.post x.below x.behind,
      )
      (lookup_in-pair_up key x.node.keys x.node.values x.good.parallel)
