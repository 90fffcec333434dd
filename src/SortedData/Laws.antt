-- ===== src/SortedData/Laws.antt =====
-- What `Insert`, `Remove`, `Seek` and `keyExists` of the index do.
use xmongodb.Common.{
  ◌-◌, ◌^◌, ◌<◌, Ordering, ◌≡◌, ◌≢◌, refl, ap, ◌∙◌, sym, Bool, true, false, none, some, [], ◌∷◌,
  arith, done, ok, err, length, if◌then◌else◌, inl, inr, ◌⊎◌,
}
use xmongodb.Common.Int.{pos, negsuc}
use xmongodb.Common.Word.{add_int64}
use xmongodb.Bytes.{Bytes, lex, bytes_equal}
use xmongodb.Bytes.Order.{eq_of_bytes_equal}
use xmongodb.RecordId.{RecordId, is_null}
use xmongodb.BTree
use xmongodb.BTree.{key_not_found}
use xmongodb.BTree.Valid.{IsValid}
use xmongodb.BTree.Update.{Updated, insert-Updated_of_get, delete-Updated}
use xmongodb.BTree.Chain.{all_entries}
use xmongodb.SortedData.Composite.{make_composite_key, record_id_bytes}
use xmongodb.SortedData.Keys.{in_seek_range}
use xmongodb.SortedData.{
  BTreeIndex, duplicate_key, tree_error, key_exists, insert, insert_entry, remove,
}
use xmongodb.SortedData.Seeks.{
  any_key, any_key_mono, in_seek_range_of_le, SeekWalk, key_exists-any_key,
}
use xmongodb.SortedData.Keys.{make_composite_key_ne}

insert-key_exists :
    (idx : BTreeIndex) (key : Bytes) (id : RecordId)
    → key ≢ []
    → is_null id ≡ false
    → idx.unique ≡ true
    → (b : Bool) → key_exists idx key ≡ done b
    → insert idx key id ≡ (if b then done (err duplicate_key, idx) else insert_entry idx key id)
unfolding insert
insert-key_exists idx [] id ne real u b e = absurd (ne refl)
insert-key_exists idx (x ∷ xs) id ne real u b e = simp (real, u, e)

-- `Insert` of a key that is not empty and an identifier that is not null into a unique index whose
-- leaves are in order fails with the duplicate error, and changes nothing, whenever the index has
-- an entry of this key, or of any greater key of the same length, if the length fits in four bytes
-- with one to spare.
pub insert-duplicate_key :
    (idx : BTreeIndex) (key : Bytes) (w : SeekWalk idx key) (id id' : RecordId) (k' : Bytes)
    → idx.unique ≡ true
    → key ≢ []
    → is_null id ≡ false
    → length key < 2 ^ 32 - 1
    → length k' ≡ length key
    → (lex key k' ≡ Ordering.lt) ⊎ (key ≡ k')
    → any_key (bytes_equal (make_composite_key k' id')) (all_entries w.leaves) ≡ true
    → insert idx key id ≡ done (err duplicate_key, idx)
insert-duplicate_key idx key w id id' k' u ne real short same ge has =
    let inside = in_seek_range_of_le key k' id' short same ge in
    let any : any_key (in_seek_range key) (all_entries w.leaves) ≡ true =
      any_key_mono (bytes_equal (make_composite_key k' id')) (in_seek_range key)
        (all_entries w.leaves)
        (λ k e.
          ap (in_seek_range key) (sym (eq_of_bytes_equal (make_composite_key k' id') k e)) ∙ inside)
        has in
    insert-key_exists idx key id ne real u true (key_exists-any_key idx key w ∙ ap done any)

-- `Insert` of an entry that is there already, with a key that is not empty and an identifier that
-- is not null, into an index that is not unique and whose tree has valid shape, leaves the tree as
-- it is as a map, but counts one entry more.
pub insert_twice :
    (idx : BTreeIndex) (key : Bytes) (id : RecordId)
    → IsValid idx.tree
    → idx.unique ≡ false
    → key ≢ []
    → is_null id ≡ false
    → BTree.get idx.tree (make_composite_key key id) ≡ done (some (record_id_bytes id))
    → (idx' : BTreeIndex) × (insert idx key id ≡ done (ok tt, idx'))
      × ((j : Bytes) → BTree.get idx'.tree j ≡ BTree.get idx.tree j)
      × (idx'.num_entries ≡ add_int64 idx.num_entries (pos 1))
unfolding insert insert_entry
insert_twice idx [] id v u ne real h = absurd (ne refl)
insert_twice idx (b ∷ bs) id v u ne real h =
    let composite = make_composite_key (b ∷ bs) id in
    let (t', run, changed) = insert-Updated_of_get v composite (record_id_bytes id) h in
    (
      record idx { tree = t'; num_entries = add_int64 idx.num_entries (pos 1) },
      rw (real, u, run),
      λ j.
          ground (arith, changed.gets j, ap (BTree.get idx.tree), eq_of_bytes_equal composite j, h),
      refl,
    )

-- With a tree of valid shape, a key that is not empty and an identifier that is not null, `Remove`
-- of an entry that is there takes it out of the tree, leaves every other, and counts one less; of
-- one that is not there it fails with the error of the tree, and changes nothing.
pub remove_lem :
    (idx : BTreeIndex) (key : Bytes) (id : RecordId)
    → IsValid idx.tree
    → key ≢ []
    → is_null id ≡ false
    → ((idx' : BTreeIndex) × (remove idx key id ≡ done (ok tt, idx'))
        × Updated idx.tree (make_composite_key key id) none idx'.tree
        × (idx'.num_entries ≡ add_int64 idx.num_entries (negsuc 0)))
      ⊎ ((BTree.get idx.tree (make_composite_key key id) ≡ done none)
          × (remove idx key id ≡ done (err (tree_error key_not_found), idx)))
unfolding remove
remove_lem idx [] id v ne real = absurd (ne refl)
remove_lem idx (b ∷ bs) id v ne real =
    let composite = make_composite_key (b ∷ bs) id in
    elim (delete-Updated v composite (make_composite_key_ne (b ∷ bs) id)) [
      | inl (absent, run) ↦ inr (absent, rw (real, run))
      | inr (old, t', present, run, u) ↦ inl (
        record idx { tree = t'; num_entries = add_int64 idx.num_entries (negsuc 0) },
        rw (real, run),
        u,
        refl,
      )
    ]
