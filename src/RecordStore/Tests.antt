-- ===== src/RecordStore/Tests.antt =====
-- The theorems of the record store on concrete stores.
use xmongodb.Common.{
  none, List, ℕ, ◌+◌, ◌<◌, ◌≤◌, ◌≡◌, ◌≢◌, refl, some, [], ◌∷◌, arith, done, ok, err, length,
}
use xmongodb.Common.Int.{pos}
use xmongodb.Common.Word.{add_int64}
use xmongodb.Bytes.{Bytes, lex}
use xmongodb.RecordId.{RecordId, new_record_id_from_bytes, as_bytes}
use xmongodb.BTree.{new_btree, get, insert, delete, size}
use xmongodb.BTree.Heap.{Node, new_leaf_node, store}
use xmongodb.BTree.Find.{find_leaf}
use xmongodb.BTree.Valid.{IsValid, Found, IsLeafNode}
use xmongodb.BTree.Replace.{store-IsValid, new_btree-IsValid}
use xmongodb.RecordStore.{
  RecordStore, not_exists, key_of, new_record_store, insert_record, get_record,
}
use xmongodb.RecordStore.Valid.{Changed}
use xmongodb.RecordId.{put_uint64}
use xmongodb.RecordStore.{already_exists}
use xmongodb.RecordStore.Table.{
  Call, insert_call, update_call, delete_call, call_all, call_all_table, Shows,
}
use xmongodb.RecordStore.Refines.{call_all-Shows}
use xmongodb.RecordStore.Race.{
  Goroutine, finished, insert_method, update_method, delete_method, step,
}
use xmongodb.RecordStore.Lost.{BothInserted, calls-BothInserted}
use xmongodb.RecordId.Key.{long_key}
use xmongodb.BTree.Sorted.{lookup_in}
use xmongodb.RecordStore.Interleavings.{system}
use xmongodb.Races.Interleavings.{Steps, begun, next, here, there, AllGoOn}
use xmongodb.RecordStore.Outcomes.{begin_all, Steps-AllGoOn, Steps-AllFinished}
use xmongodb.RecordStore.Laws.{insert_record-Changed}

abbrev id_two : RecordId
id_two = new_record_id_from_bytes (2 ∷ [])

abbrev id_five : RecordId
id_five = new_record_id_from_bytes (5 ∷ [])

-- A store that holds one record.
abbrev one_leaf : Node
one_leaf = record new_leaf_node { keys = (2 ∷ []) ∷ []; values = (20 ∷ 21 ∷ []) ∷ [] }

abbrev one : RecordStore
one = record (new_record_store []) {
  tree = store (new_btree 128) 0 one_leaf;
  num_records = pos 1;
  data_size = pos 2;
}

one_leaf-IsLeafNode : IsLeafNode 128 one_leaf
one_leaf-IsLeafNode = record { parallel = refl; sorted = (tt, tt); small = omega arith }

one-IsValid : IsValid one.tree
unfolding new_btree
one-IsValid =
    store-IsValid (new_btree-IsValid 128) 0 new_leaf_node one_leaf refl refl refl
      one_leaf-IsLeafNode

abbrev five : Bytes
five = 5 ∷ []

five_ne : five ≢ []
five_ne = λ e. cc

one-Found : Found one.tree (find_leaf one.tree five)
unfolding new_btree store find_leaf
one-Found = record { leaf = 0; node = one_leaf; result = refl; holds = refl; is_leaf = refl }

room_in_one : length one-Found.node.keys + 1 < one.tree.order
unfolding new_btree store one-Found
room_in_one = omega arith

key_five : key_of id_five ≡ ok five
unfolding key_of as_bytes
key_five = refl

key_two : key_of id_two ≡ ok (2 ∷ [])
unfolding key_of as_bytes
key_two = refl

get_five : get_record one id_five ≡ done (err not_exists)
unfolding get_record key_of as_bytes new_btree store get lex
get_five = refl

get_two : get_record one id_two ≡ done (ok (20 ∷ 21 ∷ []))
unfolding get_record key_of as_bytes new_btree store get lex
get_two = refl

insert_record-Changed_example :
    (rs' : RecordStore) × (insert_record one id_five (50 ∷ []) ≡ done (ok tt, rs'))
    × Changed one five (some (50 ∷ [])) rs'
    × (rs'.num_records ≡ add_int64 one.num_records (pos 1))
    × (rs'.data_size ≡ add_int64 one.data_size (pos (length {A = ℕ} (50 ∷ []))))
insert_record-Changed_example =
    insert_record-Changed one-IsValid id_five five key_five (50 ∷ []) one-Found five_ne room_in_one
      get_five

-- Two insertions under one identifier, an update and the deletion of another.
abbrev calls : List Call
calls =
    insert_call (pos 1) (120 ∷ [])
    ∷ insert_call (pos 1) (121 ∷ [])
    ∷ update_call (pos 1) (122 ∷ 123 ∷ [])
    ∷ delete_call (pos 2)
    ∷ []

call_all-Shows_example :
    (rs : RecordStore) × (call_all (new_record_store []) calls
      ≡ done ((call_all_table [] calls).0, rs))
    × Shows (call_all_table [] calls).1 rs
call_all-Shows_example = call_all-Shows [] calls (omega arith)

-- The answers: done, already there, done, not there.
answers : (call_all_table [] calls).0 ≡ ok tt ∷ err already_exists ∷ ok tt ∷ err not_exists ∷ []
unfolding put_uint64 lex add_int64
answers = refl

-- Two insertions with the same identifier: both check, then both insert, and both return without an error.
abbrev same_id : List Call
same_id = insert_call (pos 1) (120 ∷ []) ∷ insert_call (pos 1) (121 ∷ []) ∷ []

abbrev inserted : Goroutine
inserted = finished insert_method (ok tt)

raced :
    (rs : RecordStore) × Steps system
      (new_record_store [])
      (begin_all same_id)
      rs
      (inserted ∷ inserted ∷ [])
unfolding step key_of as_bytes put_uint64 lex new_record_store new_btree get insert
raced = (
  _,
  next
      (next
        (next
          (next
            (next (next (next (next begun (here refl)) (there (here refl))) (here refl))
              (there (here refl)))
            (here refl))
          (there (here refl)))
        (here refl))
      (there (here refl)),
)

-- There is one record, and `NumRecords` is two.
one_record : size raced.0.tree ≡ done 1
unfolding raced step key_of as_bytes put_uint64 lex new_record_store new_btree get insert size
one_record = refl

two_counted : raced.0.num_records ≡ pos 2
unfolding raced step add_int64
two_counted = refl

Steps-AllFinished_example :
    (raced.0.num_records ≡ pos 2) × ((n : ℕ) × (size raced.0.tree ≡ done n) × (n + 0 ≤ 2 + 0))
Steps-AllFinished_example = Steps-AllFinished [] same_id (omega arith) raced.1 (refl, (refl, tt))

-- A record is inserted, an update and a deletion find it, it is deleted, and the update writes it again.
abbrev same_record : List Call
same_record =
    insert_call (pos 1) (120 ∷ []) ∷ update_call (pos 1) (121 ∷ []) ∷ delete_call (pos 1) ∷ []

abbrev updated : Goroutine
updated = finished update_method (ok tt)

abbrev deleted : Goroutine
deleted = finished delete_method (ok tt)

brought_back :
    (rs : RecordStore) × Steps system
      (new_record_store [])
      (begin_all same_record)
      rs
      (inserted ∷ updated ∷ deleted ∷ [])
unfolding step key_of as_bytes put_uint64 lex new_record_store new_btree get insert delete
brought_back =
    let stored = next (next (next (next begun (here refl)) (here refl)) (here refl)) (here refl) in
    let both_found = next (next stored (there (here refl))) (there (there (here refl))) in
    let gone = next both_found (there (there (here refl))) in
    let back = next (next gone (there (here refl))) (there (here refl)) in
    (_, next (next back (there (there (here refl)))) (there (there (here refl))))

-- There is one record, and `NumRecords` is 0.
still_there : size brought_back.0.tree ≡ done 1
unfolding brought_back step key_of as_bytes put_uint64 lex new_record_store new_btree get insert
    delete size
still_there = refl

none_counted : brought_back.0.num_records ≡ pos 0
unfolding brought_back step add_int64
none_counted = refl

Steps-AllGoOn_example : AllGoOn system brought_back.0 (inserted ∷ updated ∷ deleted ∷ [])
Steps-AllGoOn_example = Steps-AllGoOn [] same_record (omega arith) brought_back.1

-- After the calls above the identifier 2 is not in use.
not_in_use : lookup_in (long_key (pos 2)) (call_all_table [] calls).1 ≡ none
unfolding put_uint64 lex add_int64
not_in_use = refl

calls-BothInserted_example :
    (rs : RecordStore) × (call_all (new_record_store []) calls
      ≡ done ((call_all_table [] calls).0, rs))
    × BothInserted (call_all_table [] calls).1 (pos 2) (120 ∷ []) (121 ∷ []) rs
calls-BothInserted_example =
    calls-BothInserted [] calls (pos 2) (120 ∷ []) (121 ∷ []) (omega arith) not_in_use
