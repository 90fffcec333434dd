-- ===== src/BTree/Ranges.antt =====
-- `Range` and `Size` on trees of one and two levels, along the chain of their leaves.
use xmongodb.Common.{
  ℕ, ◌<◌, ◌≤◌, ◌≡◌, refl, sym, ap, ◌∙◌, true, false, Option, some, List, [], ◌∷◌, ◌++◌, arith, done,
  length, get_elem?, Bool-cases, inl, inr,
}
use mathlib.Core.List.{append_assoc}
use xmongodb.Bytes.{Bytes, lex, is_lt}
use xmongodb.BTree.Heap.{Node, BTree}
use xmongodb.BTree.Find.{child_index, find_leaf, find_first_leaf}
use xmongodb.BTree.Chain.{Entries, in_range, range-in_range}
use xmongodb.BTree.Sizes.{size-length}
use xmongodb.BTree.Sorted.{KeysBelow, in_range-below}
use xmongodb.BTree.Row.{IsLeafAt, entries_of, Row, last, more, KeysBelow-Within}
use xmongodb.BTree.Shallow.{Shallow, leaf_root, inner_root, descend_two, leaf_not_inner}
use xmongodb.BTree.Writes.{descend-leaf}
use xmongodb.BTree.{range, size}
use xmongodb.BTree.Trail.{Trail, trail}

-- The chain from the leaf of a key on, and what stands before it.
record Reach (t : BTree) (seps : List Bytes) (ps : List ℕ) (es : Entries) (key : Bytes)
    : Type 0 where
  address : ℕ
  at : get_elem? ps (child_index key seps) ≡ some address
  node : Node
  live : t.cell address ≡ some node
  leaf : node.is_leaf ≡ true
  old : address < t.fresh
  on : List ℕ
  few : length on ≤ length ps
  pre : Entries
  rest : Entries
  split : es ≡ pre ++ rest
  below : KeysBelow key pre
  tail : Trail t (some address) on rest

reach_first :
    {order : ℕ} {t : BTree} {up : Option ℕ} {lo : Option Bytes} {s : Bytes} {seps : List Bytes}
    {p q : ℕ} {ps : List ℕ} {n : Node} {w : ℕ} (es : Entries) (key : Bytes)
    → IsLeafAt order t up lo (some s) (some q) p n
    → Row order t up lo (s ∷ seps) (p ∷ q ∷ ps) (entries_of n ++ es) w
    → is_lt (lex key s) ≡ true
    → Reach t (s ∷ seps) (p ∷ q ∷ ps) (entries_of n ++ es) key
unfolding child_index
reach_first {p} {q} {ps} {n} es key l r left = record {
  address = p;
  at = rw left;
  node = n;
  live = l.live;
  leaf = l.leaf;
  old = l.old;
  on = p ∷ q ∷ ps;
  few = omega arith;
  pre = [];
  rest = entries_of n ++ es;
  split = refl;
  below = tt;
  tail = trail r;
}

reach_later :
    {order : ℕ} {t : BTree} {up : Option ℕ} {lo : Option Bytes} {s : Bytes} {seps : List Bytes}
    {p q : ℕ} {ps : List ℕ} {n : Node} {es : Entries} (key : Bytes)
    → IsLeafAt order t up lo (some s) (some q) p n
    → is_lt (lex key s) ≡ false
    → Reach t seps (q ∷ ps) es key
    → Reach t (s ∷ seps) (p ∷ q ∷ ps) (entries_of n ++ es) key
unfolding child_index
reach_later {lo} {s} {n} key l right x = record {
  address = x.address;
  at = rw right x.at;
  node = x.node;
  live = x.live;
  leaf = x.leaf;
  old = x.old;
  on = x.on;
  few = omega (arith, x.few);
  pre = entries_of n ++ x.pre;
  rest = x.rest;
  split = ap (λ y. entries_of n ++ y) x.split ∙ sym (append_assoc (entries_of n) x.pre x.rest);
  below = KeysBelow-Within key lo s n.keys n.values x.pre (ground (arith, right)) l.within x.below;
  tail = x.tail;
}

reach :
    {order : ℕ} {t : BTree} {up : Option ℕ} {lo : Option Bytes} {seps : List Bytes} {ps : List ℕ}
    {es : Entries} {w : ℕ} (key : Bytes)
    → Row order t up lo seps ps es w
    → Reach t seps ps es key
unfolding child_index
reach key (last {p} {n} l) = record {
  address = p;
  at = refl;
  node = n;
  live = l.live;
  leaf = l.leaf;
  old = l.old;
  on = p ∷ [];
  few = omega arith;
  pre = [];
  rest = entries_of n;
  split = refl;
  below = tt;
  tail = trail (last l);
}
reach key (more {s} {es} l low other r) = elim (Bool-cases (is_lt (lex key s))) [
  | inl left ↦ reach_first es key l (more l low other r) left
  | inr right ↦ reach_later key l right (reach key r)
]

range-Reach :
    {t : BTree} {seps : List Bytes} {ps : List ℕ} {es : Entries} {start : Bytes}
    (end : Option Bytes) (x : Reach t seps ps es start)
    → find_leaf t start ≡ done x.address
    → length ps ≤ t.fresh
    → range t start end ≡ done (in_range start end es)
range-Reach {es} {start} end x found fits =
    range-in_range end (record {
      leaf = x.address;
      leaves = x.tail.leaves;
      found = found;
      chain = x.tail.chain;
      fits = omega (arith, x.tail.count, x.few);
      parallel = x.tail.parallel;
      ascending = rw (sym x.tail.entries) at x.tail.ascending;
    })
    ∙ ap (λ rest. done (in_range start end rest)) x.tail.entries
    ∙ ap done (sym (in_range-below start end x.pre x.rest x.below))
    ∙ ap (λ all. done (in_range start end all)) (sym x.split)

-- On a tree of one or two levels `Range` returns the entries whose keys are at least the start and
-- below the end, if there is one, in order.
pub range-Shallow :
    {t : BTree} {es : Entries} {w k : ℕ}
    → Shallow t es w k
    → (start : Bytes) (end : Option Bytes) → range t start end ≡ done (in_range start end es)
unfolding find_leaf
range-Shallow {t} (leaf_root r) start end =
    let x = reach start r in
    let root : t.root ≡ x.address = unfold child_index in ground (arith, x.at) in
    range-Reach end x
      (descend-leaf t t.fresh (child_index start) (ap t.cell root ∙ x.live) x.leaf
          (omega (arith, x.old))
        ∙ ap done root)
      (omega (arith, x.old))
range-Shallow {t} (inner_root e d u old fits r) start end =
    let x = reach start r in
    let apart = leaf_not_inner t e d x.live x.leaf in
    range-Reach end x
      (descend_two t t.fresh (child_index start) e d x.at x.live x.leaf
        (omega (arith, x.old, old, apart)))
      fits

size-Trail :
    {t : BTree} {p : ℕ} {ps : List ℕ} {es : Entries} (x : Trail t (some p) ps es)
    → find_first_leaf t ≡ done p
    → length ps ≤ t.fresh
    → size t ≡ done (length es)
size-Trail x found fits =
    size-length found x.chain (omega (arith, x.count)) x.parallel
    ∙ ap (λ es. done (length es)) x.entries

size-Row :
    {t : BTree} {m : Node} {es : Entries} {w : ℕ}
    → t.cell t.root ≡ some m
    → m.is_leaf ≡ false
    → t.root < t.fresh
    → length m.children ≤ t.fresh
    → {lo : Option Bytes} {seps : List Bytes} {ps : List ℕ} → ps ≡ m.children
    → Row t.order t (some t.root) lo seps ps es w
    → size t ≡ done (length es)
unfolding find_first_leaf
size-Row {t} e d old fits same (last l) =
    size-Trail (trail (last l))
      (descend_two t t.fresh (λ keys. 0) e d (ap (λ cs. get_elem? cs 0) (sym same)) l.live l.leaf
        (omega (arith, l.old, old, leaf_not_inner t e d l.live l.leaf)))
      (omega (arith, ap length same, fits))
size-Row {t} e d old fits same (more l low other r) =
    size-Trail (trail (more l low other r))
      (descend_two t t.fresh (λ keys. 0) e d (ap (λ cs. get_elem? cs 0) (sym same)) l.live l.leaf
        (omega (arith, l.old, old, leaf_not_inner t e d l.live l.leaf)))
      (omega (arith, ap length same, fits))

-- On a tree of one or two levels `Size` counts the entries.
pub size-Shallow :
    {t : BTree} {es : Entries} {w k : ℕ} → Shallow t es w k → size t ≡ done (length es)
unfolding find_first_leaf
size-Shallow {t} (leaf_root (last l)) =
    size-Trail (trail (last l))
      (descend-leaf t t.fresh (λ keys. 0) l.live l.leaf (omega (arith, l.old)))
      (omega (arith, l.old))
size-Shallow (inner_root e d u old fits r) = size-Row e d old fits refl r
