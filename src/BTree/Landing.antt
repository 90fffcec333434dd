-- ===== src/BTree/Landing.antt =====
-- The leaf at which `findLeaf` of server/storage/btree/btree.go ends, in a tree made by calls.
use xmongodb.Common.{ℕ, ◌*◌, ◌-◌, ◌/◌, ◌<◌, ◌≡◌, true, some, List, [], ◌++◌, Run, done, length}
use xmongodb.Bytes.{Bytes}
use xmongodb.BTree.Heap.{Node, BTree}
use xmongodb.BTree.Find.{find_leaf}
use xmongodb.BTree.Chain.{Entries, KeysAbove}
use xmongodb.BTree.Sorted.{KeysBelow}
use xmongodb.BTree.Row.{entries_of}
use xmongodb.BTree.Shallow.{Shallow, spot}
use xmongodb.BTree.Writes.{Write, GiveKeys}
use xmongodb.BTree.Refines.{call_all, call_all_list, few_calls-Built}
use xmongodb.BTree.{new_btree}

-- The descent ends at a leaf whose entries stand where the key belongs: the entries before them
-- have smaller keys, and those after them greater ones.
pub record CoveringLeaf (t : BTree) (es : Entries) (key : Bytes) (r : Run ℕ) : Type 0 where
  pub address : ℕ
  pub node : Node
  pub result : r ≡ done address
  pub holds : t.cell address ≡ some node
  pub is_leaf : node.is_leaf ≡ true
  pub earlier : Entries
  pub later : Entries
  pub parts : es ≡ earlier ++ (entries_of node ++ later)
  pub earlier_below : KeysBelow key earlier
  pub later_above : KeysAbove key later

Shallow-CoveringLeaf :
    {t : BTree} {es : Entries} {w k : ℕ} (key : Bytes)
    → Shallow t es w k
    → CoveringLeaf t es key (find_leaf t key)
Shallow-CoveringLeaf key s =
    let x = spot key s in
    record {
      address = x.address;
      node = x.node;
      result = x.found;
      holds = x.live;
      is_leaf = x.leaf;
      earlier = x.pre;
      later = x.post;
      parts = x.entries;
      earlier_below = x.below;
      later_above = x.behind;
    }

-- On the tree that fewer than `(o / 2) * (o - 1)` calls of `Insert` and `Delete`, on keys that are not
-- empty, make of a new tree of order `o`, `findLeaf` of every key neither panics nor runs out of fuel.
-- It ends at a leaf that divides the entries of the sorted list with the same calls: those before
-- the leaf have keys below the key, those after it keys above.
pub find_leaf-CoveringLeaf :
    (order : ℕ) (ws : List Write)
    → length ws < ((new_btree order).order / 2) * ((new_btree order).order - 1)
    → GiveKeys ws
    → (t : BTree) × (call_all (new_btree order) ws ≡ done ((call_all_list [] ws).0, t))
      × ((key : Bytes) → CoveringLeaf t (call_all_list [] ws).1 key (find_leaf t key))
find_leaf-CoveringLeaf order ws few keys =
    let b = few_calls-Built order ws few keys in
    (b.tree, b.run, λ key. Shallow-CoveringLeaf key b.shallow)
