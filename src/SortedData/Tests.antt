-- ===== src/SortedData/Tests.antt =====
-- The theorems of the index on concrete keys and trees.
use xmongodb.SortedData.Table.{
  IndexCall, insert_call, remove_call, call_all_index, call_all_table, empty_index, ShowsIndex,
}
use xmongodb.SortedData.Refines.{call_all_index-ShowsIndex}
use xmongodb.Common.{
  List, ℕ, ◌+◌, ◌≤◌, ◌≡◌, ◌≢◌, Ordering, refl, inl, some, [], ◌∷◌, arith, done, ok, err, true,
  false,
}
use xmongodb.Common.Int.{pos}
use xmongodb.Common.Word.{add_int64}
use xmongodb.Bytes.{Bytes, lex, bytes_equal}
use xmongodb.RecordId.{
  RecordId, put_uint64, new_record_id_from_long, new_record_id_from_bytes, as_bytes,
}
use xmongodb.BTree
use xmongodb.BTree.{key_not_found}
use xmongodb.BTree.Heap.{Node, new_leaf_node, store}
use xmongodb.BTree.Find.{find_leaf}
use xmongodb.BTree.Chain.{end_of_chain, link, all_entries}
use xmongodb.SortedData.{BTreeIndex, duplicate_key, new_index, insert}
use xmongodb.SortedData.Composite.{
  make_composite_key, make_next_key, parse_composite_key, record_id_bytes,
}
use xmongodb.SortedData.{key_exists}
use xmongodb.SortedData.Race.{IndexGoroutine, finished, insert_method, index_step}
use xmongodb.SortedData.Advances.{index_system}
use xmongodb.SortedData.Outcomes.{begin_all_index, index_steps-AllFinished}
use xmongodb.Races.Interleavings.{Steps, begun, next, here, there}
use xmongodb.SortedData.Keys.{parse-make_composite_key}
use xmongodb.SortedData.Seeks.{SeekWalk, any_key}
use xmongodb.SortedData.Laws.{insert-duplicate_key}

abbrev id_one : RecordId
id_one = new_record_id_from_bytes (1 ∷ [])

-- The index key 9, and 5, which is smaller.
abbrev nine : Bytes
nine = 9 ∷ []

abbrev five : Bytes
five = 5 ∷ []

five_ne : five ≢ []
five_ne = λ e. cc

-- An index with the one entry of key 9 and identifier 1.
abbrev nine_leaf : Node
nine_leaf = record new_leaf_node {
  keys = (0 ∷ 0 ∷ 0 ∷ 1 ∷ 9 ∷ 1 ∷ []) ∷ [];
  values = (1 ∷ []) ∷ [];
}

abbrev nine_index : BTreeIndex
nine_index = record (new_index (120 ∷ []) true) {
  tree = store (BTree.new_btree 128) 0 nine_leaf;
  num_entries = pos 1;
}

abbrev plain_index : BTreeIndex
plain_index = record nine_index { unique = false }

nine-SeekWalk : SeekWalk nine_index five
unfolding BTree.new_btree store find_leaf lex make_composite_key record_id_bytes as_bytes
nine-SeekWalk = record {
  leaf = 0;
  leaves = nine_leaf ∷ [];
  found = refl;
  chain = link refl end_of_chain;
  fits = omega arith;
  parallel = (refl, tt);
  ascending = (tt, tt);
}

five_lt : lex five nine ≡ Ordering.lt
unfolding lex
five_lt = refl

has_nine :
    any_key (bytes_equal (make_composite_key nine id_one)) (all_entries nine-SeekWalk.leaves) ≡ true
unfolding nine-SeekWalk make_composite_key record_id_bytes as_bytes lex
has_nine = refl

unique_nine : nine_index.unique ≡ true
unfolding new_index
unique_nine = refl

nine_there :
    BTree.get plain_index.tree (make_composite_key nine id_one)
    ≡ done (some (record_id_bytes id_one))
unfolding BTree.new_btree store BTree.get lex make_composite_key record_id_bytes as_bytes
nine_there = refl

parse-make_composite_key_example :
    parse_composite_key (make_composite_key nine id_one)
    ≡ ok (nine, new_record_id_from_bytes (record_id_bytes id_one))
parse-make_composite_key_example = parse-make_composite_key nine id_one (omega arith)

insert-duplicate_key_example : insert nine_index five id_one ≡ done (err duplicate_key, nine_index)
insert-duplicate_key_example =
    insert-duplicate_key nine_index five nine-SeekWalk id_one id_one nine unique_nine five_ne refl
      (omega arith) refl (inl five_lt) has_nine

-- In a unique index, the key 5 after the key 9 is refused, the key 10 with two bytes is not.
abbrev index_calls : List IndexCall
index_calls =
    insert_call (9 ∷ []) (new_record_id_from_long (pos 1))
    ∷ insert_call (5 ∷ []) (new_record_id_from_long (pos 2))
    ∷ insert_call (1 ∷ 0 ∷ []) (new_record_id_from_long (pos 3))
    ∷ remove_call (9 ∷ []) (new_record_id_from_long (pos 1))
    ∷ []

call_all_index-ShowsIndex_example :
    (idx : BTreeIndex) × (call_all_index (new_index [] true) index_calls
      ≡ done ((call_all_table true empty_index index_calls).0, idx))
    × ShowsIndex (call_all_table true empty_index index_calls).1 idx
call_all_index-ShowsIndex_example = call_all_index-ShowsIndex [] true index_calls (omega arith)

index_answers :
    (call_all_table true empty_index index_calls).0 ≡ ok tt ∷ err duplicate_key ∷ ok tt ∷ ok tt ∷ []
unfolding make_composite_key make_next_key record_id_bytes as_bytes put_uint64 lex add_int64
index_answers = refl

-- Two insertions of one key with two identifiers into a unique index: both find it absent, and both return
-- without an error.
abbrev same_key : List IndexCall
same_key =
    insert_call (7 ∷ []) (new_record_id_from_bytes (1 ∷ []))
    ∷ insert_call (7 ∷ []) (new_record_id_from_bytes (2 ∷ []))
    ∷ []

abbrev entered : IndexGoroutine
entered = finished insert_method (ok tt)

both_entered :
    (idx : BTreeIndex) × Steps index_system
      (new_index [] true)
      (begin_all_index true same_key)
      idx
      (entered ∷ entered ∷ [])
unfolding index_step make_composite_key make_next_key record_id_bytes as_bytes lex new_index
    BTree.new_btree key_exists BTree.range BTree.insert
both_entered =
    let found = next (next begun (here refl)) (there (here refl)) in
    let written = next (next found (here refl)) (there (here refl)) in
    (_, next (next written (here refl)) (there (here refl)))

index_steps-AllFinished_example :
    (both_entered.0.num_entries ≡ pos 2)
    × ((n : ℕ) × (BTree.size both_entered.0.tree ≡ done n) × (n + 0 ≤ 2))
index_steps-AllFinished_example =
    index_steps-AllFinished [] true same_key (omega arith) both_entered.1 (refl, (refl, tt))

-- The unique index has two entries of the key.
two_entries : BTree.size both_entered.0.tree ≡ done 2
unfolding both_entered index_step make_composite_key make_next_key record_id_bytes as_bytes lex
    new_index BTree.new_btree key_exists BTree.range BTree.insert BTree.size
two_entries = refl
