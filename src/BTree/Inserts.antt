-- ===== src/BTree/Inserts.antt =====
-- `Insert` on trees of one and two levels, next to the sorted list.
use xmongodb.Common.{
  ℕ, ◌+◌, ◌/◌, ◌<◌, ◌≤◌, ◌≡◌, ◌≢◌, refl, sym, ap, ◌∙◌, true, false, none, some, [], ◌∷◌, ◌++◌,
  arith, done, ok, length, leb, Bool-cases, inl, inr,
}
use xmongodb.Bytes.{Bytes}
use xmongodb.BTree.Heap.{Node, BTree}
use xmongodb.BTree.Find.{child_index, find_leaf}
use xmongodb.BTree.Entries.{new_keys, with_entry, length-new_keys}
use xmongodb.BTree.Chain.{Entries}
use xmongodb.BTree.Sorted.{insert_in, insert_in-pair_up, insert_in-append}
use xmongodb.BTree.Row.{entries_of, excess, IsLeafAt, last}
use xmongodb.BTree.Focus.{Focus, focus}
use xmongodb.BTree.Shallow.{Shallow, leaf_root, inner_root, Spot, spot, descend_two, leaf_not_inner}
use xmongodb.BTree.Writes.{descend-leaf}
use xmongodb.BTree.Halves.{middle}
use xmongodb.BTree.Grow.{root_halved, leaf_halved}
use xmongodb.BTree.{insert}
use xmongodb.BTree.Steps.{After, insert_runs, fits-After, entered-IsFull, split-After}

module _ {t : BTree} (b : ℕ) (bs v : Bytes) (low : 3 ≤ t.order) where
  root_insert :
      {n : Node} (l : IsLeafAt t.order t none none none none t.root n)
      → leb t.order (length (new_keys (b ∷ bs) n.keys)) ≡ true
      → find_leaf t (b ∷ bs) ≡ done t.root
      → After t
          (excess t.order n)
          (insert t (b ∷ bs) v)
          (ok tt)
          (insert_in (b ∷ bs) v (entries_of n))
  root_insert {n} l full found =
      let key : Bytes = b ∷ bs in
      let n' = with_entry key v n in
      let f = entered-IsFull key v l refl refl low full in
      let (sep, e) = middle (length n'.keys / 2) n'.keys (omega (arith, f.full, low)) in
      split-After t n' (insert t key v)
        (insert_runs t b bs v found l.live l.good.parallel ∙ rw full refl)
        (root_halved t sep e f l.parent l.old)
        (insert_in-pair_up key v n.keys n.values l.good.parallel)
        (omega (arith, f.full, low, length-new_keys key n.keys))

  leaf_insert :
      {m : Node} {es : Entries} {w : ℕ}
      → t.cell t.root ≡ some m
      → m.is_leaf ≡ false
      → m.parent ≡ none
      → t.root < t.fresh
      → length m.children ≤ t.fresh
      → length m.keys + 1 < t.order
      → (f : Focus t.order t (some t.root) none m.keys m.children es w (b ∷ bs))
      → leb t.order (length (new_keys (b ∷ bs) f.node.keys)) ≡ true
      → find_leaf t (b ∷ bs) ≡ done f.address
      → After t w (insert t (b ∷ bs) v) (ok tt) (insert_in (b ∷ bs) v es)
  leaf_insert root deep top old fits room f full found =
      let key : Bytes = b ∷ bs in
      let n' = with_entry key v f.node in
      let i = entered-IsFull key v f.here f.reached f.not_passed low full in
      let (sep, e) = middle (length n'.keys / 2) n'.keys (omega (arith, i.full, low)) in
      let same : f.pre ++ (entries_of n' ++ f.post) ≡ insert_in key v _ =
        ap (λ l. f.pre ++ (l ++ f.post))
          (insert_in-pair_up key v f.node.keys f.node.values f.here.good.parallel)
        ∙ sym (insert_in-append key v f.pre (entries_of f.node) f.post f.below f.behind)
        ∙ ap (insert_in key v) (sym f.entries) in
      split-After t n' (insert t key v)
        (insert_runs t b bs v found f.here.live f.here.good.parallel ∙ rw full refl)
        (leaf_halved t sep e root deep top old fits room f i f.here.parent) same
        (omega (arith, i.full, low, f.weight, length-new_keys key f.node.keys))

Spot-insert :
    {t : BTree} {es : Entries} {w k p : ℕ} {n : Node} (b : ℕ) (bs v : Bytes)
    (x : Spot t es w k (b ∷ bs))
    → find_leaf t (b ∷ bs) ≡ done p
    → t.cell p ≡ some n
    → leb t.order (length (new_keys (b ∷ bs) n.keys)) ≡ false
    → After t w (insert t (b ∷ bs) v) (ok tt) (insert_in (b ∷ bs) v es)
Spot-insert {t} {p} {n} b bs v x found live fits =
    let key : Bytes = b ∷ bs in
    let place : x.address ≡ p = ground (arith, x.found, found) in
    let nodes : x.node ≡ n = ground (arith, x.live, live, ap t.cell place) in
    let room : leb t.order (length (new_keys key x.node.keys)) ≡ false =
      ap (λ m. leb t.order (length (new_keys key m.keys))) nodes ∙ fits in
    fits-After key v x room (insert t key v)
      (insert_runs t b bs v x.found x.live x.good.parallel ∙ rw room refl)

-- In a tree of one or two levels whose root has room for one more separator, `Insert` of a key that is
-- not empty succeeds, also where it splits a leaf, and the entries are those with the key inserted.
pub insert-After :
    {t : BTree} {es : Entries} {w k : ℕ} (key v : Bytes)
    → Shallow t es w k
    → key ≢ []
    → 3 ≤ t.order
    → k + 1 < t.order
    → After t w (insert t key v) (ok tt) (insert_in key v es)
unfolding find_leaf
insert-After [] v s ne low room = absurd (ne refl)
insert-After {t} (b ∷ bs) v (leaf_root (last {n} l)) ne low room =
    let key : Bytes = b ∷ bs in
    let found : find_leaf t key ≡ done t.root =
      descend-leaf t t.fresh (child_index key) l.live l.leaf (omega (arith, l.old)) in
    elim (Bool-cases (leb t.order (length (new_keys key n.keys)))) [
      | inl full ↦ root_insert b bs v low l full found
      | inr fits ↦
          let x : Spot t (entries_of n) (excess t.order n) 0 key = spot key (leaf_root (last l)) in
          Spot-insert b bs v x found l.live fits
    ]
insert-After {t} {es} {w} (b ∷ bs) v (inner_root {m} root deep top old wide r) ne low room =
    let key : Bytes = b ∷ bs in
    let f = focus key r refl in
    let found : find_leaf t key ≡ done f.address =
      descend_two t t.fresh (child_index key) root deep f.at f.here.live f.here.leaf
        (omega (arith, f.here.old, old, leaf_not_inner t root deep f.here.live f.here.leaf)) in
    elim (Bool-cases (leb t.order (length (new_keys key f.node.keys)))) [
      | inl full ↦ leaf_insert b bs v low root deep top old wide room f full found
      | inr fits ↦
          Spot-insert b bs v (spot key (inner_root root deep top old wide r)) found f.here.live fits
    ]
