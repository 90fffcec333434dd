-- ===== src/BTree/Heap.antt =====
-- The nodes of the B+ tree and the heap they live in.
use xmongodb.Common.{
  ℕ, suc, Bool, true, false, Option, none, some, List, [], Run, must, ◌==◌, if◌then◌else◌,
}
use xmongodb.Bytes.{Bytes}

pub record Node : Type 0 where
  pub is_leaf : Bool
  pub keys : List Bytes
  pub values : List Bytes
  pub children : List ℕ
  pub next : Option ℕ
  pub parent : Option ℕ

-- `cell` holds the nodes allocated so far, at the addresses below `fresh`.
pub record BTree : Type 0 where
  pub cell : ℕ → Option Node
  pub fresh : ℕ
  pub root : ℕ
  pub order : ℕ

abbrev pub new_leaf_node : Node
new_leaf_node = record {
  is_leaf = true;
  keys = [];
  values = [];
  children = [];
  next = none;
  parent = none;
}

abbrev pub new_internal_node : Node
new_internal_node = record {
  is_leaf = false;
  keys = [];
  values = [];
  children = [];
  next = none;
  parent = none;
}

abbrev pub update : (ℕ → Option Node) → ℕ → Node → ℕ → Option Node
update f p n q = if p == q then some n else f q

-- Reading through a pointer, and writing a whole node back.
abbrev pub load : BTree → ℕ → Run Node
load t p = must (t.cell p)

unfoldable pub store : BTree → ℕ → Node → BTree
store t p n = record t { cell = update t.cell p n }

-- A new node, at the address `t.fresh`.
unfoldable pub alloc : BTree → Node → BTree
alloc t n = record t { cell = update t.cell t.fresh n; fresh = suc t.fresh }
