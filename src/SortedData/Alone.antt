-- ===== src/SortedData/Alone.antt =====
-- A call of `Insert` or `Remove` whose steps no other call interrupts.
use xmongodb.Common.{
  ◌≡◌, refl, Bool, true, false, [], ◌∷◌, Run, done, panic, out_of_fuel, ◌>>=◌, Result, ok, err,
  if◌then◌else◌,
}
use xmongodb.Common.Int.{ℤ, pos, negsuc}
use xmongodb.Common.Word.{add_int64}
use xmongodb.Bytes.{Bytes}
use xmongodb.RecordId.{RecordId, is_null}
use xmongodb.BTree
use xmongodb.BTree.Heap.{BTree}
use xmongodb.BTree.{TreeError}
use xmongodb.SortedData.{
  BTreeIndex, Outcome, after_tree, insert, insert_entry, remove, key_exists, duplicate_key,
  IndexError, tree_error,
}
use xmongodb.SortedData.Composite.{make_composite_key, record_id_bytes}
use xmongodb.SortedData.Table.{IndexCall, insert_call, remove_call, call_index}
use xmongodb.SortedData.Race.{
  IndexMethod, insert_method, remove_method, IndexGoroutine, counting, uncounting, finished,
  begin_index, after_probe, after_index_write, index_step, index_answer, alone_index,
}

module _ (idx : BTreeIndex) where
  -- The steps behind the first.
  abbrev two_more : BTreeIndex × IndexGoroutine → Outcome
  two_more a = index_step a.0 a.1 >>= λ b. index_step b.0 b.1 >>= index_answer

  abbrev one_more : BTreeIndex × IndexGoroutine → Outcome
  one_more b = index_step b.0 b.1 >>= index_answer

  -- Behind a write of the tree, when `more` is what is left.
  written :
      (m : IndexMethod) (next : IndexGoroutine) (by : ℤ)
      (more : BTreeIndex × IndexGoroutine → Outcome)
      → ((t : BTree)
          → more (record idx { tree = t }, next)
            ≡ done (ok tt, record idx { tree = t; num_entries = add_int64 idx.num_entries by }))
      → ((t : BTree) (r : Result IndexError (Unit {0}))
          → more (record idx { tree = t }, finished m r) ≡ done (r, record idx { tree = t }))
      → (r : Run (Result TreeError (Unit {0}) × BTree))
      → ((r >>= after_index_write idx m next) >>= more) ≡ (r >>= after_tree idx by)
  written m next by more h g (done (ok _, t)) = h t
  written m next by more h g (done (err e, t)) = g t (err (tree_error e))
  written m next by more h g panic = refl
  written m next by more h g out_of_fuel = refl

  probed :
      (key : Bytes) (id : RecordId) (r : Run Bool)
      → ((r >>= after_probe idx key id) >>= two_more) ≡ (
          r >>= λ found. (if found then done (err duplicate_key, idx) else insert_entry idx key id))
  unfolding index_step insert_entry
  probed key id (done true) = refl
  probed key id (done false) =
      written insert_method counting (pos 1) one_more (λ t. refl) (λ t r. refl)
        (BTree.insert idx.tree (make_composite_key key id) (record_id_bytes id))
  probed key id panic = refl
  probed key id out_of_fuel = refl

  -- A method that begins with a test.
  if_alone :
      (b : Bool) (p q : IndexGoroutine) {x y : Outcome}
      → alone_index idx p ≡ x
      → alone_index idx q ≡ y
      → alone_index idx (if b then p else q) ≡ (if b then x else y)
  if_alone true p q f g = f
  if_alone false p q f g = g

  -- A call of `Insert` or `Remove` that no other call interrupts does in its steps what the method does as
  -- one.
  pub alone-call_index :
      (c : IndexCall) → alone_index idx (begin_index idx.unique c) ≡ call_index idx c
  unfolding call_index insert remove insert_entry alone_index index_step
  alone-call_index (insert_call [] id) = refl
  alone-call_index (remove_call [] id) = refl
  alone-call_index (insert_call (b ∷ bs) id) = if_alone (is_null id) _ _ refl (
      if_alone idx.unique _ _ (probed (b ∷ bs) id (key_exists idx (b ∷ bs))) (
        written insert_method counting (pos 1) two_more (λ t. refl) (λ t r. refl)
          (BTree.insert idx.tree (make_composite_key (b ∷ bs) id) (record_id_bytes id))))
  alone-call_index (remove_call (b ∷ bs) id) = if_alone (is_null id) _ _ refl (
      written remove_method uncounting (negsuc 0) two_more (λ t. refl) (λ t r. refl)
        (BTree.delete idx.tree (make_composite_key (b ∷ bs) id)))
