-- ===== src/BTree/Update.antt =====
-- `Insert` without a split, `Delete` and `Get` in a tree of valid shape: the tree is a map from keys
-- to values.
use xmongodb.Common.{
  ℕ, ◌+◌, ◌<◌, ◌≡◌, ◌≢◌, refl, ◌∙◌, true, false, Option, none, some, [], ◌∷◌, arith, done, ok, err,
  length, if◌then◌else◌, ==_iff, leb, ◌⊎◌, inl, inr,
}
use xmongodb.Bytes.{Bytes, bytes_equal}
use xmongodb.BTree.Heap.{BTree, store}
use xmongodb.BTree.Find.{find_leaf}
use xmongodb.BTree.Entries.{
  new_keys, with_entry, insert_into_node_lem, length-new_keys, new_keys-AreParallel,
  new_keys-IsSorted, find_value-new_keys,
}
use xmongodb.BTree.Removal.{
  has_key, without_entry, remove_entry_lem, find_value-without_key, without_key-IsSorted,
  without_key-AreParallel, find_value-missing, find_value-present, length-new_keys_of_has_key,
  length-without_key,
}
use xmongodb.BTree.Valid.{IsLeafNode, IsValid, Found, find_leaf-Found}
use xmongodb.BTree.{key_not_found, insert, get, delete}
use xmongodb.BTree.Replace.{
  store-IsValid, get-find_value, get-store, get_empty, LeafRoot, store-LeafRoot,
}

-- A tree of valid shape that differs from `t` as a map at `key` alone, where it now gives `r`. A root
-- that is a leaf stays one, with at most one key more.
pub record Updated (t : BTree) (key : Bytes) (r : Option Bytes) (t' : BTree) : Type 0 where
  pub valid : IsValid t'
  pub order : t'.order ≡ t.order
  pub gets : (j : Bytes) → get t' j ≡ (if bytes_equal key j then done r else get t j)
  pub leaf_root : (bound : ℕ) → LeafRoot t bound → LeafRoot t' (bound + 1)

module _ {t : BTree} (v : IsValid t) where
  insert_fits :
      (b : ℕ) (bs value : Bytes) (f : Found t (find_leaf t (b ∷ bs)))
      → length (new_keys (b ∷ bs) f.node.keys) < t.order
      → (t' : BTree) × (insert t (b ∷ bs) value ≡ done (ok tt, t'))
        × Updated t (b ∷ bs) (some value) t'
  unfolding insert
  insert_fits b bs value f room =
      let key : Bytes = b ∷ bs in
      let leaf = v.leaves f.leaf f.node f.holds f.is_leaf in
      let n' = with_entry key value f.node in
      let good : IsLeafNode t.order n' = record {
        parallel = new_keys-AreParallel key value f.node.keys f.node.values leaf.parallel;
        sorted = new_keys-IsSorted key f.node.keys leaf.sorted;
        small = room;
      } in
      let small : leb t.order (length n'.keys) ≡ false = ground arith in
      (
        store t f.leaf n',
        rw (f.result, f.holds, insert_into_node_lem key value f.node leaf.parallel)
            (unfold store in rw ((==_iff f.leaf f.leaf).1 refl, small)),
        record {
          valid = store-IsValid v f.leaf f.node n' f.holds f.is_leaf f.is_leaf good;
          order = unfold store in refl;
          gets = λ j.
              get-store v key f n' (done (some value)) j f.is_leaf (λ e. cc e)
                (find_value-new_keys key value j f.node.keys f.node.values leaf.parallel);
          leaf_root = λ bound.
              store-LeafRoot t f.leaf f.node n' bound f.holds f.is_leaf
                (length-new_keys key f.node.keys);
        },
      )

  -- In a tree of valid shape, `Insert` of a key that is not empty, into a leaf that has room for one
  -- more below the order, succeeds: the tree keeps its shape, `Get` of the key returns the new value,
  -- and `Get` of every other key what it returned before.
  pub insert-Updated :
      (key value : Bytes) (f : Found t (find_leaf t key))
      → key ≢ []
      → length f.node.keys + 1 < t.order
      → (t' : BTree) × (insert t key value ≡ done (ok tt, t')) × Updated t key (some value) t'
  insert-Updated [] value f ne room = absurd (ne refl)
  insert-Updated (b ∷ bs) value f ne room =
      insert_fits b bs value f (omega (arith, length-new_keys (b ∷ bs) f.node.keys))

  -- In a tree of valid shape, `Insert` of a key that is there succeeds, however full its leaf is:
  -- the tree keeps its shape, `Get` of the key returns the new value, and `Get` of every other key
  -- what it returned before.
  pub insert-Updated_of_get :
      (key value : Bytes) {old : Bytes}
      → get t key ≡ done (some old)
      → (t' : BTree) × (insert t key value ≡ done (ok tt, t')) × Updated t key (some value) t'
  insert-Updated_of_get [] value h = absurd (get_empty t h)
  insert-Updated_of_get (b ∷ bs) value {old} h =
      let f = find_leaf-Found v (b ∷ bs) in
      let leaf = v.leaves f.leaf f.node f.holds f.is_leaf in
      let present : has_key (b ∷ bs) f.node.keys ≡ true =
        ground
          (arith, get-find_value b bs f, find_value-missing (b ∷ bs) f.node.keys f.node.values) in
      insert_fits b bs value f (
        omega
          (arith, length-new_keys_of_has_key (b ∷ bs) f.node.keys leaf.sorted present, leaf.small))

  -- `Get` finds the key exactly where the leaf of the key has it.
  get-has_key :
      (b : ℕ) (bs : Bytes) (f : Found t (find_leaf t (b ∷ bs)))
      → has_key (b ∷ bs) f.node.keys ≡ false
      → get t (b ∷ bs) ≡ done none
  get-has_key b bs f h =
      get-find_value b bs f ∙ find_value-missing (b ∷ bs) f.node.keys f.node.values h

  -- In a tree of valid shape `Delete` of a key that is not empty either reports a missing key, and
  -- then `Get` finds none and nothing changes, or removes a key that `Get` finds, and `Get` of
  -- every other key returns what it returned before.
  pub delete-Updated :
      (key : Bytes)
      → key ≢ []
      → ((get t key ≡ done none) × (delete t key ≡ done (err key_not_found, t)))
        ⊎ ((value : Bytes) × (t' : BTree) × (get t key ≡ done (some value))
            × (delete t key ≡ done (ok tt, t'))
            × Updated t key none t')
  unfolding delete
  delete-Updated [] ne = absurd (ne refl)
  delete-Updated (b ∷ bs) ne =
      let key : Bytes = b ∷ bs in
      let f = find_leaf-Found v key in
      let leaf = v.leaves f.leaf f.node f.holds f.is_leaf in
      let n' = without_entry key f.node in
      let good : IsLeafNode t.order n' = record {
        parallel = without_key-AreParallel key f.node.keys f.node.values leaf.parallel;
        sorted = without_key-IsSorted key f.node.keys leaf.sorted;
        small = omega (arith, length-without_key key f.node.keys, leaf.small);
      } in
      elim (remove_entry_lem key f.node leaf.parallel) [
        | inl (absent, index) ↦
            inl (get-has_key b bs f absent, ground (arith, f.result, f.holds, index))
        | inr (i, present, index, removed) ↦
            let (value, found) =
              find_value-present key f.node.keys f.node.values leaf.parallel present in
            inr (
              value,
              store t f.leaf n',
              get-find_value b bs f ∙ found,
              ground (arith, f.result, f.holds, index, removed),
              record {
                valid = store-IsValid v f.leaf f.node n' f.holds f.is_leaf f.is_leaf good;
                order = unfold store in refl;
                gets = λ j. get-store v key f n' (done none) j f.is_leaf ne (
                    find_value-without_key key j f.node.keys f.node.values leaf.parallel
                      leaf.sorted);
                leaf_root = λ bound.
                    store-LeafRoot t f.leaf f.node n' bound f.holds f.is_leaf
                      (omega (arith, length-without_key key f.node.keys));
              },
            )
      ]
