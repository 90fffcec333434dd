-- ===== src/BTree/Grow.antt =====
-- A tree of one or two levels after a full leaf was split.
use xmongodb.Common.{
  ℕ, ◌+◌, ◌/◌, ◌<◌, ◌≤◌, ◌≡◌, ◌≢◌, refl, sym, ap, false, Option, none, some, List, [], ◌∷◌, ◌++◌,
  arith, done, length, get_elem?, insert_at, drop, zero, suc, length-insert_at, ==_iff,
}
use mathlib.Core.Path.{subst}
use mathlib.Core.List.{append-nil}
use xmongodb.Bytes.{Bytes}
use xmongodb.BTree.Heap.{Node, BTree, store, alloc}
use xmongodb.BTree.Find.{child_index, insert_index}
use xmongodb.BTree.Split.{split_leaf}
use xmongodb.BTree.Chain.{Entries}
use xmongodb.BTree.Row.{entries_of, Row, last, more, Keeps}
use xmongodb.BTree.Focus.{Focus}
use xmongodb.BTree.Fits.{placed, retyped}
use xmongodb.BTree.Shallow.{Shallow, inner_root, store_here, leaf_not_inner}
use xmongodb.BTree.SplitLeaf.{
  left_half, right_half, split_root, split_below, new_root, with_child, split_leaf-split_root,
  split_leaf-split_below, same, differ,
}
use xmongodb.BTree.Halves.{
  IsFull, Within-halves, above-middle, left_half-Fits, right_half-Fits, excess-halves,
  entries-halves,
}

-- What a split of the leaf at `p` of `t1` leads to.
pub record Splits (t1 : BTree) (p : ℕ) (es : Entries) (w k : ℕ) : Type 0 where
  pub tree : BTree
  pub run : split_leaf t1 p ≡ done tree
  pub order : tree.order ≡ t1.order
  pub shallow : Shallow tree es w k

get-bound : {c : ℕ} (i : ℕ) (cs : List ℕ) → get_elem? cs i ≡ some c → i < length cs
get-bound i [] e = cc
get-bound zero (x ∷ cs) e = omega arith
get-bound (suc i) (x ∷ cs) e = omega (arith, get-bound i cs e)

-- The heap after a split has every other leaf.
module _ (t : BTree) (p : ℕ) (n : Node) (sep : Bytes) (old : p < t.fresh) where
  split_root_cells :
      let t2 = split_root (store t p n) p n sep in
      let mid = length n.keys / 2 in
      (t2.cell p ≡ some (left_half mid t.fresh (some (suc t.fresh)) n))
      × (t2.cell t.fresh ≡ some (right_half mid (some (suc t.fresh)) n))
      × (t2.cell t2.root ≡ some (new_root sep p t.fresh))
  unfolding store alloc
  split_root_cells =
      let a = same p in
      let b = differ t.fresh p (omega arith) in
      let c = same t.fresh in
      let d = same (suc t.fresh) in
      let e = differ t.fresh (suc t.fresh) (omega arith) in
      let g = differ p (suc t.fresh) (omega arith) in (simp (a, b), simp c, simp (d, e, g))

  split_below_cells :
      (m : Node)
      → p ≢ t.root
      → t.root < t.fresh
      → let t2 = split_below (store t p n) p n m sep in
        let mid = length n.keys / 2 in
        (t2.cell p ≡ some (left_half mid t.fresh n.parent n))
        × (t2.cell t.fresh ≡ some (right_half mid (some t.root) n))
        × (t2.cell t.root ≡ some (with_child sep t.fresh m))
  unfolding store alloc
  split_below_cells m apart low =
      let a = same p in
      let b = differ t.fresh p (omega arith) in
      let c = same t.fresh in
      let d = same t.root in
      let e = differ t.fresh t.root (omega arith) in
      let g = differ t.root p (λ x. apart (sym x)) in (simp (a, b, g), simp c, simp (d, e))

  split_below-Keeps :
      (m m0 : Node)
      → t.cell t.root ≡ some m0
      → m0.is_leaf ≡ false
      → Keeps t (split_below (store t p n) p n m sep) p
  unfolding store alloc
  split_below-Keeps m m0 root deep = record {
    grows = omega arith;
    same = λ j x e l h ne.
        let a = differ t.fresh j (omega arith) in
        let b = differ t.root j (leaf_not_inner t root deep e l) in
        let c = differ p j ne in simp (a, b, c, e);
  }

-- The index under which a separator was inserted, by another name.
at_index :
    {order : ℕ} {t : BTree} {up : Option ℕ} {lo : Option Bytes} (sep : Bytes) (seps : List Bytes)
    (q : ℕ) (ps : List ℕ) {es : Entries} {w i j : ℕ}
    → i ≡ j
    → Row order t up lo (insert_at i sep seps) (insert_at (suc i) q ps) es w
    → Row order t up lo (insert_at j sep seps) (insert_at (suc j) q ps) es w
at_index {order} {t} {up} {lo} sep seps q ps {es} {w} e r =
    subst (λ x. Row order t up lo (insert_at x sep seps) (insert_at (suc x) q ps) es w) e r

module _ (t : BTree) {n : Node} (sep : Bytes)
    (e : get_elem? (drop (length n.keys / 2) n.keys) 0 ≡ some sep) where
  pub root_halved :
      (full : IsFull t.order none none none n)
      → n.parent ≡ none
      → t.root < t.fresh
      → Splits (store t t.root n) t.root (entries_of n) (t.order / 2) 1
  unfolding store alloc
  root_halved full u old =
      let mid = length n.keys / 2 in
      let up = some (suc t.fresh) in
      let t2 = split_root (store t t.root n) t.root n sep in
      let (at_left, at_right, at_top) = split_root_cells t t.root n sep old in
      let left = placed {t = t2} at_left (omega arith) (left_half-Fits full sep e t.fresh up) in
      let right = placed {t = t2} at_right (omega arith) (right_half-Fits full sep e up) in
      let (x, y) = excess-halves full sep e t.fresh up in
      let whole : entries_of (left_half mid t.fresh up n) ++ entries_of (right_half mid up n)
          ≡ entries_of n =
        simp append-nil at (entries-halves full sep e t.fresh up []) in
      record {
        tree = t2;
        run =
            split_leaf-split_root (store t t.root n) t.root n sep (store_here t t.root n) old
              full.parallel e u;
        order = refl;
        shallow =
            inner_root {m = new_root sep t.root t.fresh} at_top refl refl (omega arith)
              (omega arith)
              (retyped whole (omega (arith, x, y))
                (more left refl ((λ z. omega (arith, old)), tt) (last right)));
      }

  pub leaf_halved :
      {m : Node} {es : Entries} {w : ℕ} {key : Bytes}
      → t.cell t.root ≡ some m
      → m.is_leaf ≡ false
      → m.parent ≡ none
      → t.root < t.fresh
      → length m.children ≤ t.fresh
      → length m.keys + 1 < t.order
      → (f : Focus t.order t (some t.root) none m.keys m.children es w key)
      → IsFull t.order f.low f.high f.next n
      → n.parent ≡ some t.root
      → Splits
          (store t f.address n)
          f.address
          (f.pre ++ (entries_of n ++ f.post))
          (t.order / 2 + f.rest)
          (length m.keys + 1)
  unfolding store alloc
  leaf_halved {m} {key} root deep top low fits room f full u =
      let p = f.address in
      let mid = length n.keys / 2 in
      let up = some t.root in
      let t1 = store t p n in
      let t2 = split_below t1 p n m sep in
      let apart : p ≢ t.root = λ x. leaf_not_inner t root deep f.here.live f.here.leaf (sym x) in
      let (at_left, at_right, at_root) = split_below_cells t p n sep f.here.old m apart low in
      let (lefts, rights, al, bh) =
        Within-halves f.low f.high sep mid n.keys full.sorted full.within e in
      let up_low =
        above-middle f.low f.high sep mid n.keys full.sorted full.within e
          (omega (arith, full.full, full.order_low)) in
      let place : insert_index sep m.keys ≡ child_index key m.keys = f.place sep up_low bh in
      let inside : insert_index sep m.keys < length m.children =
        omega (arith, place, get-bound (child_index key m.keys) m.children f.at) in
      let (x, y) = excess-halves full sep e t.fresh n.parent in
      let whole = entries-halves full sep e t.fresh n.parent f.post in
      let keeps = split_below-Keeps t p n sep f.here.old m m root deep in
      let row =
        f.split t2 t.fresh sep (left_half mid t.fresh n.parent n) (right_half mid up n) keeps
          at_left at_right (omega arith) (omega arith) al bh
          (rw u (left_half-Fits full sep e t.fresh up)) (right_half-Fits full sep e up) in
      record {
        tree = t2;
        run =
            split_leaf-split_below t1 p n sep (store_here t p n) f.here.old full.parallel e u
              (ground (arith, root, ==_iff p t.root)) low apart inside room;
        order = refl;
        shallow =
            subst (λ k. Shallow t2 (f.pre ++ (entries_of n ++ f.post)) (t.order / 2 + f.rest) k)
              (length-insert_at (insert_index sep m.keys) sep m.keys)
              (inner_root {m = with_child sep t.fresh m} at_root deep top (omega (arith, low))
                (omega (
                  arith,
                  fits,
                  length-insert_at (suc (insert_index sep m.keys)) t.fresh m.children,
                ))
                (at_index sep m.keys t.fresh m.children (sym place)
                  (retyped (ap (λ z. f.pre ++ z) whole) (omega (arith, x, y)) row)));
      }
