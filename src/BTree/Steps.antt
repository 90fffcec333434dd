-- ===== src/BTree/Steps.antt =====
-- The steps of `Insert` on trees of one and two levels, next to the sorted list.
use xmongodb.Common.{
  ℕ, ◌+◌, ◌≤◌, ◌≡◌, refl, sym, ap, ◌∙◌, true, false, Option, some, List, [], ◌∷◌, ◌++◌, arith, Run,
  done, ◌>>=◌, Result, ok, length, leb, if◌then◌else◌, ==_iff,
}
use xmongodb.Bytes.{Bytes}
use xmongodb.BTree.Heap.{Node, BTree, store}
use xmongodb.BTree.Find.{find_leaf}
use xmongodb.BTree.Split.{split_leaf}
use xmongodb.BTree.Entries.{
  AreParallel, new_keys, with_entry, insert_into_node_lem, new_keys-AreParallel, new_keys-IsSorted,
  length-new_keys,
}
use xmongodb.BTree.Chain.{Entries}
use xmongodb.BTree.Sorted.{insert_in, insert_in-pair_up, insert_in-append}
use xmongodb.BTree.Row.{at_least, before, Within, entries_of, excess, IsLeafAt}
use xmongodb.BTree.Shallow.{Shallow, Spot}
use xmongodb.BTree.Halves.{IsFull}
use xmongodb.BTree.Grow.{Splits}
use xmongodb.BTree.{insert, TreeError}

-- The tree after a call: it holds these entries, and counts one more split or excess key at most.
pub record After (t : BTree) (w : ℕ) (r : Run (Result TreeError (Unit {0}) × BTree))
    (answer : Result TreeError (Unit {0})) (es : Entries) : Type 0 where
  pub tree : BTree
  pub run : r ≡ done (answer, tree)
  pub order : tree.order ≡ t.order
  pub weight : ℕ
  pub seps : ℕ
  pub shallow : Shallow tree es weight seps
  pub light : weight ≤ w + 1

Within-new_keys :
    (lo hi : Option Bytes) (key : Bytes) (ks : List Bytes)
    → at_least lo key ≡ true
    → before hi key ≡ true
    → Within lo hi ks
    → Within lo hi (new_keys key ks)
Within-new_keys lo hi key [] a b w = (a, b, tt)
Within-new_keys lo hi key (k ∷ ks) a b w =
    ground (arith, Within-new_keys lo hi key ks a b w.2, w.0, w.1, w.2)

pub insert_runs :
    (t : BTree) {p : ℕ} {n : Node} (b : ℕ) (bs v : Bytes)
    → find_leaf t (b ∷ bs) ≡ done p
    → t.cell p ≡ some n
    → AreParallel n.keys n.values
    → insert t (b ∷ bs) v ≡ (
        if leb t.order (length (new_keys (b ∷ bs) n.keys))
        then (split_leaf (store t p (with_entry (b ∷ bs) v n)) p >>= λ t2. done (ok tt, t2))
        else done (ok tt, store t p (with_entry (b ∷ bs) v n)))
unfolding insert
insert_runs t {p} {n} b bs v found live par =
    rw (found, live, insert_into_node_lem (b ∷ bs) v n par)
      (unfold store in rw ((==_iff p p).1 refl) refl)

module _ {t : BTree} {es : Entries} {w k : ℕ} (key v : Bytes) (x : Spot t es w k key) where
  -- The entries after the leaf has the new entry.
  inserted_entries : x.pre ++ (entries_of (with_entry key v x.node) ++ x.post) ≡ insert_in key v es
  inserted_entries =
      ap (λ l. x.pre ++ (l ++ x.post))
        (insert_in-pair_up key v x.node.keys x.node.values x.good.parallel)
      ∙ sym (insert_in-append key v x.pre (entries_of x.node) x.post x.below x.behind)
      ∙ ap (insert_in key v) (sym x.entries)

  pub fits-After :
      leb t.order (length (new_keys key x.node.keys)) ≡ false
      → (r : Run (Result TreeError (Unit {0}) × BTree))
      → r ≡ done (ok tt, store t x.address (with_entry key v x.node))
      → After t w r (ok tt) (insert_in key v es)
  unfolding store
  fits-After room r run = record {
    tree = store t x.address (with_entry key v x.node);
    run = run;
    order = refl;
    weight = x.rest + excess t.order (with_entry key v x.node);
    seps = k;
    shallow = rw inserted_entries at (
        x.replaced (with_entry key v x.node) x.leaf refl refl
          (record {
            parallel = new_keys-AreParallel key v x.node.keys x.node.values x.good.parallel;
            sorted = new_keys-IsSorted key x.node.keys x.good.sorted;
            small = ground (arith, room);
          })
          (Within-new_keys x.low x.high key x.node.keys x.reached x.not_passed x.within));
    light = omega (arith, x.weight, length-new_keys key x.node.keys);
  }

-- The leaf with the new entry, if there is no room for it below the order.
pub entered-IsFull :
    {t : BTree} {up : Option ℕ} {lo hi : Option Bytes} {next : Option ℕ} {p : ℕ} {n : Node}
    (key v : Bytes)
    → IsLeafAt t.order t up lo hi next p n
    → at_least lo key ≡ true
    → before hi key ≡ true
    → 3 ≤ t.order
    → leb t.order (length (new_keys key n.keys)) ≡ true
    → IsFull t.order lo hi next (with_entry key v n)
entered-IsFull {t} {lo} {hi} {n} key v l a b h full = record {
  leaf = l.leaf;
  next_leaf = l.next_leaf;
  parallel = new_keys-AreParallel key v n.keys n.values l.good.parallel;
  sorted = new_keys-IsSorted key n.keys l.good.sorted;
  full = ground (arith, full, l.good.small, length-new_keys key n.keys);
  within = Within-new_keys lo hi key n.keys a b l.within;
  order_low = h;
}

-- A call whose leaf is split.
pub split-After :
    (t : BTree) {p : ℕ} (n' : Node) {es es' : Entries} {w u k : ℕ}
    (r : Run (Result TreeError (Unit {0}) × BTree))
    → r ≡ (split_leaf (store t p n') p >>= λ t2. done (ok tt, t2))
    → Splits (store t p n') p es' u k
    → es' ≡ es
    → u ≤ w + 1
    → After t w r (ok tt) es
unfolding store
split-After t n' {w} {k} r run s e h = record {
  tree = s.tree;
  run = run ∙ rw s.run refl;
  order = s.order;
  weight = _;
  seps = k;
  shallow = rw e at s.shallow;
  light = h;
}
