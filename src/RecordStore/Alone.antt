-- ===== src/RecordStore/Alone.antt =====
-- A call of a method whose steps no other call interrupts.
use xmongodb.Common.{
  ◌≡◌, refl, Option, none, some, Run, done, panic, out_of_fuel, ◌>>=◌, Result, ok, err,
}
use xmongodb.Bytes.{Bytes}
use xmongodb.BTree
use xmongodb.BTree.Heap.{BTree}
use xmongodb.BTree.{TreeError}
use xmongodb.RecordId.{new_record_id_from_long}
use xmongodb.RecordStore.{
  RecordStore, StoreError, Outcome, key_of, insert_record, insert_new, update_record, update_old,
  delete_record, delete_old, after_tree,
}
use xmongodb.RecordStore.Table.{Call, insert_call, update_call, delete_call, call_store}
use xmongodb.RecordStore.Race.{
  Method, insert_method, update_method, delete_method, Goroutine, checking, counting, looking,
  resizing, seeking, uncounting, begin_with, begin, after_check, after_look, after_seek,
  after_write, step, answer_of, alone,
}

-- The steps that are left behind the first and the second.
abbrev two_more : RecordStore × Goroutine → Outcome
two_more b = step b.0 b.1 >>= λ c. step c.0 c.1 >>= answer_of

abbrev three_more : RecordStore × Goroutine → Outcome
three_more a = step a.0 a.1 >>= two_more

module _ (rs : RecordStore) where
  -- Behind a write of the tree.
  written :
      (m : Method) (next : Goroutine) (finish : BTree → RecordStore)
      → ((t : BTree) → two_more (record rs { tree = t }, next) ≡ done (ok tt, finish t))
      → (r : Run (Result TreeError (Unit {0}) × BTree))
      → ((r >>= after_write rs m next) >>= two_more) ≡ (r >>= after_tree rs finish)
  unfolding step
  written m next finish h (done (ok _, t)) = h t
  written m next finish h (done (err e, t)) = refl
  written m next finish h panic = refl
  written m next finish h out_of_fuel = refl

  checked :
      (key body : Bytes) (r : Run (Option Bytes))
      → ((r >>= after_check rs key body) >>= three_more) ≡ (r >>= insert_new rs key body)
  unfolding step insert_new
  checked key body (done none) =
      written insert_method (counting body) _ (λ t. refl) (BTree.insert rs.tree key body)
  checked key body (done (some old)) = refl
  checked key body panic = refl
  checked key body out_of_fuel = refl

  looked :
      (key body : Bytes) (r : Run (Option Bytes))
      → ((r >>= after_look rs key body) >>= three_more) ≡ (r >>= update_old rs key body)
  unfolding step update_old
  looked key body (done none) = refl
  looked key body (done (some old)) =
      written update_method (resizing body old) _ (λ t. refl) (BTree.insert rs.tree key body)
  looked key body panic = refl
  looked key body out_of_fuel = refl

  sought :
      (key : Bytes) (r : Run (Option Bytes))
      → ((r >>= after_seek rs key) >>= three_more) ≡ (r >>= delete_old rs key)
  unfolding step delete_old
  sought key (done none) = refl
  sought key (done (some old)) =
      written delete_method (uncounting old) _ (λ t. refl) (BTree.delete rs.tree key)
  sought key panic = refl
  sought key out_of_fuel = refl

  alone-begin :
      (m : Method) (next : Bytes → Goroutine) (then_get : Bytes → Option Bytes → Outcome)
      → ((key : Bytes) → alone rs (next key) ≡ (BTree.get rs.tree key >>= then_get key))
      → (r : Result StoreError Bytes)
      → alone rs (begin_with m next r)
        ≡ (elim r [ err e ↦ done (err e, rs) | ok key ↦ BTree.get rs.tree key >>= then_get key ])
  unfolding alone step
  alone-begin m next then_get h (err e) = refl
  alone-begin m next then_get h (ok key) = h key

  -- A call of `InsertRecord`, `UpdateRecord` or `DeleteRecord` that no other call interrupts does in its
  -- steps what the method does as one.
  pub alone-call_store : (c : Call) → alone rs (begin c) ≡ call_store rs c
  unfolding call_store insert_record update_record delete_record alone step
  alone-call_store (insert_call id body) =
      alone-begin insert_method (λ key. checking key body) (λ key. insert_new rs key body)
        (λ key. checked key body (BTree.get rs.tree key)) (key_of (new_record_id_from_long id))
  alone-call_store (update_call id body) =
      alone-begin update_method (λ key. looking key body) (λ key. update_old rs key body)
        (λ key. looked key body (BTree.get rs.tree key)) (key_of (new_record_id_from_long id))
  alone-call_store (delete_call id) =
      alone-begin delete_method seeking (λ key. delete_old rs key)
        (λ key. sought key (BTree.get rs.tree key)) (key_of (new_record_id_from_long id))
