-- ===== src/BTree/Tests.antt =====
-- Runs of the tree on concrete keys.
use xmongodb.Common.{
  ℕ, ◌+◌, ◌-◌, ◌*◌, ◌/◌, ◌<◌, ◌≡◌, ◌≢◌, refl, ◌⊎◌, none, some, List, [], ◌∷◌, arith, Run, done,
  ◌>>=◌, ok, err, length,
}
use xmongodb.Bytes.{Bytes, lex}
use xmongodb.BTree.Heap.{BTree, Node, new_leaf_node, store}
use xmongodb.BTree.Find.{find_leaf, find_first_leaf}
use xmongodb.BTree.Valid.{IsValid, Found, IsLeafNode}
use xmongodb.BTree.Landing.{CoveringLeaf, find_leaf-CoveringLeaf}
use xmongodb.BTree.Update.{Updated, insert-Updated, delete-Updated}
use xmongodb.BTree.Replace.{store-IsValid, new_btree-IsValid}
use xmongodb.BTree.Chain.{end_of_chain, link, Walk, all_entries, in_range, range-in_range}
use xmongodb.BTree.Writes.{Write, put, remove, GiveKeys}
use xmongodb.BTree.Refines.{call, call_all, call_all_list, ShowsList, call_all-ShowsList}
use xmongodb.BTree.{new_btree, insert, get, delete, range, size, key_not_found}

abbrev insert_all : BTree → List ℕ → Run BTree
insert_all t [] = done t
insert_all t (k ∷ ks) = insert t (k ∷ []) (k ∷ []) >>= λ r. insert_all r.1 ks

-- Seven keys in a tree of order 3: the fourth is inserted and cannot be found.
lost_key :
    (insert_all (new_btree 3) (1 ∷ 2 ∷ 6 ∷ 7 ∷ 3 ∷ 4 ∷ 5 ∷ []) >>= λ t. get t (4 ∷ [])) ≡ done none
unfolding lex new_btree insert get
lost_key = refl

in_order :
    (insert_all (new_btree 3) (1 ∷ 2 ∷ 6 ∷ 7 ∷ 3 ∷ 4 ∷ []) >>= λ t.
    range t (3 ∷ []) (some (7 ∷ [])))
    ≡ done ((3 ∷ [], 3 ∷ []) ∷ (4 ∷ [], 4 ∷ []) ∷ (6 ∷ [], 6 ∷ []) ∷ [])
unfolding lex new_btree insert range
in_order = refl

size_of_six :
    (insert_all (new_btree 3) (1 ∷ 2 ∷ 6 ∷ 7 ∷ 3 ∷ 4 ∷ []) >>= λ t.
    delete t (7 ∷ []) >>= λ r. size r.1)
    ≡ done 5
unfolding lex new_btree insert size delete
size_of_six = refl

-- A tree of order 4 with two keys.
abbrev two_leaf : Node
two_leaf = record new_leaf_node {
  keys = (3 ∷ []) ∷ (7 ∷ []) ∷ [];
  values = (30 ∷ []) ∷ (70 ∷ []) ∷ [];
}

abbrev two : BTree
two = store (new_btree 4) 0 two_leaf

two_leaf-IsLeafNode : IsLeafNode 4 two_leaf
unfolding lex
two_leaf-IsLeafNode = record {
  parallel = refl;
  sorted = ((refl, tt), (tt, tt));
  small = omega arith;
}

two-IsValid : IsValid two
unfolding new_btree
two-IsValid =
    store-IsValid (new_btree-IsValid 4) 0 new_leaf_node two_leaf refl refl refl two_leaf-IsLeafNode

two-Found : Found two (find_leaf two (5 ∷ []))
unfolding new_btree store find_leaf
two-Found = record { leaf = 0; node = two_leaf; result = refl; holds = refl; is_leaf = refl }

abbrev five : Bytes
five = 5 ∷ []

five_ne : five ≢ []
five_ne = λ e. cc

two-Walk : Walk two (5 ∷ [])
unfolding new_btree store find_leaf lex
two-Walk = record {
  leaf = 0;
  leaves = two_leaf ∷ [];
  found = refl;
  chain = link refl end_of_chain;
  fits = omega arith;
  parallel = (refl, tt);
  ascending = ((refl, tt), (tt, tt));
}

first_of_two : find_first_leaf two ≡ done 0
unfolding new_btree store find_first_leaf
first_of_two = refl

room_in_two : length two-Found.node.keys + 1 < two.order
unfolding new_btree store two-Found
room_in_two = omega arith

insert-Updated_example :
    (t' : BTree) × (insert two (5 ∷ []) (50 ∷ []) ≡ done (ok tt, t'))
    × Updated two (5 ∷ []) (some (50 ∷ [])) t'
insert-Updated_example = insert-Updated two-IsValid (5 ∷ []) (50 ∷ []) two-Found five_ne room_in_two

delete-Updated_example :
    ((get two (5 ∷ []) ≡ done none) × (delete two (5 ∷ []) ≡ done (err key_not_found, two)))
    ⊎ ((value : Bytes) × (t' : BTree) × (get two (5 ∷ []) ≡ done (some value))
        × (delete two (5 ∷ []) ≡ done (ok tt, t'))
        × Updated two (5 ∷ []) none t')
delete-Updated_example = delete-Updated two-IsValid (5 ∷ []) five_ne

range-in_range_example :
    range two (5 ∷ []) none ≡ done (in_range (5 ∷ []) none (all_entries two-Walk.leaves))
range-in_range_example = range-in_range none two-Walk

-- Five calls on a new tree of order 4: the fourth splits the root.
abbrev calls : List Write
calls =
    put (3 ∷ []) (30 ∷ [])
    ∷ put (7 ∷ []) (70 ∷ [])
    ∷ put (5 ∷ []) (50 ∷ [])
    ∷ put (9 ∷ []) (90 ∷ [])
    ∷ remove (3 ∷ [])
    ∷ []

few_calls : length calls < (new_btree 4).order / 2 * ((new_btree 4).order - 1)
unfolding new_btree
few_calls = omega arith

calls-GiveKeys : GiveKeys calls
calls-GiveKeys = (λ e. cc, (λ e. cc, (λ e. cc, (λ e. cc, (λ e. cc, tt)))))

call_all-ShowsList_example :
    (t : BTree) × (call_all (new_btree 4) calls ≡ done ((call_all_list [] calls).0, t))
    × ShowsList t (call_all_list [] calls).1
call_all-ShowsList_example = call_all-ShowsList 4 calls few_calls calls-GiveKeys

find_leaf-CoveringLeaf_example :
    (t : BTree) × (call_all (new_btree 4) calls ≡ done ((call_all_list [] calls).0, t))
    × ((key : Bytes) → CoveringLeaf t (call_all_list [] calls).1 key (find_leaf t key))
find_leaf-CoveringLeaf_example = find_leaf-CoveringLeaf 4 calls few_calls calls-GiveKeys

-- Below the root that these calls make, `findLeaf` goes to either of the two leaves.
both_leaves :
    (call_all (new_btree 4) calls >>= λ r.
    find_leaf r.1 (6 ∷ []) >>= λ p. find_leaf r.1 (8 ∷ []) >>= λ q. done (p ∷ q ∷ r.1.root ∷ []))
    ≡ done (0 ∷ 1 ∷ 2 ∷ [])
unfolding lex new_btree call call_all insert delete find_leaf
both_leaves = refl

-- After these calls the chain of the two leaves has what is left.
split_by_calls :
    (call_all (new_btree 4) calls >>= λ r. range r.1 [] none)
    ≡ done ((5 ∷ [], 50 ∷ []) ∷ (7 ∷ [], 70 ∷ []) ∷ (9 ∷ [], 90 ∷ []) ∷ [])
unfolding lex new_btree call call_all insert delete range
split_by_calls = refl
