-- ===== src/BTree/Deletes.antt =====
-- `Delete` on trees of one and two levels, next to the sorted list.
use xmongodb.Common.{
  ℕ, ◌+◌, ◌≡◌, ◌≢◌, refl, sym, ap, ◌∙◌, Option, none, some, List, [], ◌∷◌, ◌++◌, arith, done,
  Result, ok, err, inl, inr,
}
use xmongodb.Bytes.{Bytes}
use xmongodb.BTree.Heap.{Node, BTree, store}
use xmongodb.BTree.Find.{find_leaf}
use xmongodb.BTree.Leaf.{index_of, remove_entry}
use xmongodb.BTree.Removal.{
  without_key, without_entry, remove_entry_lem, without_key-IsSorted, without_key-AreParallel,
  length-without_key,
}
use xmongodb.BTree.Chain.{Entries}
use xmongodb.BTree.Sorted.{
  delete_in, lookup_in, lookup_in-missing, lookup_in-present, lookup_in-append, delete_in-missing,
  delete_in-pair_up, delete_in-append,
}
use xmongodb.BTree.Row.{Within, entries_of, excess}
use xmongodb.BTree.Shallow.{Shallow, Spot, spot}
use xmongodb.BTree.{delete, TreeError, key_not_found}
use xmongodb.BTree.Steps.{After}

Within-without_key :
    (lo hi : Option Bytes) (key : Bytes) (ks : List Bytes)
    → Within lo hi ks
    → Within lo hi (without_key key ks)
Within-without_key lo hi key [] w = tt
Within-without_key lo hi key (k ∷ ks) w =
    ground (arith, Within-without_key lo hi key ks w.2, w.0, w.1, w.2)

delete_misses :
    (t : BTree) {p : ℕ} {n : Node} (b : ℕ) (bs : Bytes)
    → find_leaf t (b ∷ bs) ≡ done p
    → t.cell p ≡ some n
    → index_of (b ∷ bs) n.keys ≡ none
    → delete t (b ∷ bs) ≡ done (err key_not_found, t)
unfolding delete
delete_misses t b bs found live missing = ground (arith, found, live, missing)

delete_removes :
    (t : BTree) {p i : ℕ} {n n' : Node} (b : ℕ) (bs : Bytes)
    → find_leaf t (b ∷ bs) ≡ done p
    → t.cell p ≡ some n
    → index_of (b ∷ bs) n.keys ≡ some i
    → remove_entry i n ≡ done n'
    → delete t (b ∷ bs) ≡ done (ok tt, store t p n')
unfolding delete
delete_removes t b bs found live present removed = ground (arith, found, live, present, removed)

abbrev pub delete_answer : Option Bytes → Result TreeError (Unit {0})
delete_answer none = err key_not_found
delete_answer (some v) = ok tt

-- The call at the leaf to which the key leads.
module _ {t : BTree} {es : Entries} {w k : ℕ} (b : ℕ) (bs : Bytes) (s : Shallow t es w k)
    (x : Spot t es w k (b ∷ bs)) where
  lookup_at_spot : lookup_in (b ∷ bs) es ≡ lookup_in (b ∷ bs) (entries_of x.node)
  lookup_at_spot =
      ap (lookup_in (b ∷ bs)) x.entries
      ∙ lookup_in-append (b ∷ bs) x.pre (entries_of x.node) x.post x.below x.behind

  deleted_entries :
      x.pre ++ (entries_of (without_entry (b ∷ bs) x.node) ++ x.post) ≡ delete_in (b ∷ bs) es
  deleted_entries =
      ap (λ l. x.pre ++ (l ++ x.post))
        (delete_in-pair_up (b ∷ bs) x.node.keys x.node.values x.good.parallel)
      ∙ sym (delete_in-append (b ∷ bs) x.pre (entries_of x.node) x.post x.below x.behind)
      ∙ ap (delete_in (b ∷ bs)) (sym x.entries)

  missing-After :
      index_of (b ∷ bs) x.node.keys ≡ none
      → lookup_in (b ∷ bs) es ≡ none
      → After t w
          (delete t (b ∷ bs))
          (delete_answer (lookup_in (b ∷ bs) es))
          (delete_in (b ∷ bs) es)
  missing-After index absent = record {
    tree = t;
    run = delete_misses t b bs x.found x.live index ∙ rw absent refl;
    order = refl;
    weight = w;
    seps = k;
    shallow = rw (delete_in-missing (b ∷ bs) es absent) s;
    light = omega arith;
  }

  removed-After :
      {i : ℕ} {v : Bytes}
      → index_of (b ∷ bs) x.node.keys ≡ some i
      → remove_entry i x.node ≡ done (without_entry (b ∷ bs) x.node)
      → lookup_in (b ∷ bs) es ≡ some v
      → After t w
          (delete t (b ∷ bs))
          (delete_answer (lookup_in (b ∷ bs) es))
          (delete_in (b ∷ bs) es)
  removed-After index removed there =
      let key : Bytes = b ∷ bs in
      record {
        tree = store t x.address (without_entry key x.node);
        run = delete_removes t b bs x.found x.live index removed ∙ rw there refl;
        order = unfold store in refl;
        weight = x.rest + excess t.order (without_entry key x.node);
        seps = k;
        shallow = rw deleted_entries at (
            x.replaced (without_entry key x.node) x.leaf refl refl
              (record {
                parallel = without_key-AreParallel key x.node.keys x.node.values x.good.parallel;
                sorted = without_key-IsSorted key x.node.keys x.good.sorted;
                small = omega (arith, x.good.small, length-without_key key x.node.keys);
              })
              (Within-without_key x.low x.high key x.node.keys x.within));
        light = omega (arith, x.weight, length-without_key key x.node.keys);
      }

-- In a tree of one or two levels, `Delete` of a key that is not empty fails if the key is not there,
-- and otherwise removes its entry.
pub delete-After :
    {t : BTree} {es : Entries} {w k : ℕ} (key : Bytes)
    → Shallow t es w k
    → key ≢ []
    → After t w (delete t key) (delete_answer (lookup_in key es)) (delete_in key es)
delete-After [] s ne = absurd (ne refl)
delete-After (b ∷ bs) s ne =
    let x = spot (b ∷ bs) s in
    let here = lookup_at_spot b bs s x in
    elim (remove_entry_lem (b ∷ bs) x.node x.good.parallel) [
      | inl (missing, index) ↦
          missing-After b bs s x index
            (here ∙ lookup_in-missing (b ∷ bs) x.node.keys x.node.values missing)
      | inr (i, present, index, removed) ↦
          let (v, found) =
            lookup_in-present (b ∷ bs) x.node.keys x.node.values x.good.parallel present in
          removed-After b bs s x index removed (here ∙ found)
    ]
