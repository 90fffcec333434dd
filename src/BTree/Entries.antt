-- ===== src/BTree/Entries.antt =====
-- The entries of one leaf as two lists: what `insertIntoLeaf` and `Delete` do to them.
use xmongodb.Common.{
  ◌+◌, ◌≤◌, ◌<◌, Ordering, ◌≡◌, refl, true, some, List, [], ◌∷◌, arith, done, length, set,
  insert_at, if◌then◌else◌,
}
use xmongodb.Bytes.{Bytes, lex, bytes_equal}
use xmongodb.Bytes.Order.{lex_refl, eq_of_lex, lex_trans, lex_symm}
use xmongodb.BTree.Heap.{Node}
use xmongodb.BTree.Find.{insert_index}
use xmongodb.BTree.Leaf.{holds_at, insert_into_node, find_value}

-- The keys and the values of a leaf after an insertion.
abbrev pub new_keys : Bytes → List Bytes → List Bytes
new_keys key [] = key ∷ []
new_keys key (k ∷ ks) = elim (lex key k) [
  | Ordering.lt ↦ key ∷ k ∷ ks
  | Ordering.eq ↦ k ∷ ks
  | Ordering.gt ↦ k ∷ new_keys key ks
]

abbrev pub new_values : Bytes → Bytes → List Bytes → List Bytes → List Bytes
new_values key v [] vs = v ∷ vs
new_values key v (k ∷ ks) [] = v ∷ []
new_values key v (k ∷ ks) (w ∷ ws) = elim (lex key k) [
  | Ordering.lt ↦ v ∷ w ∷ ws
  | Ordering.eq ↦ v ∷ ws
  | Ordering.gt ↦ w ∷ new_values key v ks ws
]

-- The two lists of a leaf have one length.
abbrev pub AreParallel : List Bytes → List Bytes → Type 0
AreParallel ks vs = length ks ≡ length vs

-- Every key of a list is above `k`.
abbrev pub AreAbove : Bytes → List Bytes → Type 0
AreAbove k [] = Unit
AreAbove k (x ∷ xs) = (lex k x ≡ Ordering.lt) × AreAbove k xs

-- Strictly ascending keys.
abbrev pub IsSorted : List Bytes → Type 0
IsSorted [] = Unit
IsSorted (x ∷ xs) = AreAbove x xs × IsSorted xs

insert_index-bounds :
    (key : Bytes) (ks : List Bytes)
    → (insert_index key ks ≤ length ks)
      × (holds_at ks (insert_index key ks) key ≡ true → insert_index key ks < length ks)
unfolding insert_index
insert_index-bounds key [] = ground arith
insert_index-bounds key (k ∷ ks) = ground (arith, insert_index-bounds key ks)

insert_keys_lem :
    (key : Bytes) (ks : List Bytes)
    → (if holds_at ks (insert_index key ks) key then ks else insert_at (insert_index key ks) key ks)
      ≡ new_keys key ks
unfolding insert_index
insert_keys_lem key [] = refl
insert_keys_lem key (k ∷ ks) = ground (arith, insert_keys_lem key ks)

insert_values_lem :
    (key v : Bytes) (ks vs : List Bytes)
    → AreParallel ks vs
    → (if holds_at ks (insert_index key ks) key
        then set vs (insert_index key ks) v
        else insert_at (insert_index key ks) v vs)
      ≡ new_values key v ks vs
unfolding insert_index
insert_values_lem key v [] [] h = refl
insert_values_lem key v [] (w ∷ ws) h = absurd (omega arith)
insert_values_lem key v (k ∷ ks) [] h = absurd (omega arith)
insert_values_lem key v (k ∷ ks) (w ∷ ws) h = ground (arith, insert_values_lem key v ks ws)

abbrev pub with_entry : Bytes → Bytes → Node → Node
with_entry key v n = record n {
  keys = new_keys key n.keys;
  values = new_values key v n.keys n.values;
}

-- In a leaf whose lists are parallel, `insertIntoLeaf` does not panic.
pub insert_into_node_lem :
    (key v : Bytes) (n : Node)
    → AreParallel n.keys n.values
    → insert_into_node key v n ≡ done (with_entry key v n)
unfolding insert_into_node
insert_into_node_lem key v n h = ground (
  arith,
  insert_index-bounds key n.keys,
  insert_keys_lem key n.keys,
  insert_values_lem key v n.keys n.values,
)

pub length-new_keys : (key : Bytes) (ks : List Bytes) → length (new_keys key ks) ≤ length ks + 1
length-new_keys key [] = omega arith
length-new_keys key (k ∷ ks) = ground (arith, length-new_keys key ks)

pub new_keys-AreParallel :
    (key v : Bytes) (ks vs : List Bytes)
    → AreParallel ks vs
    → AreParallel (new_keys key ks) (new_values key v ks vs)
new_keys-AreParallel key v [] [] h = refl
new_keys-AreParallel key v [] (w ∷ ws) h = absurd (omega arith)
new_keys-AreParallel key v (k ∷ ks) [] h = absurd (omega arith)
new_keys-AreParallel key v (k ∷ ks) (w ∷ ws) h = ground (arith, new_keys-AreParallel key v ks ws)

pub find_value-new_keys :
    (key v j : Bytes) (ks vs : List Bytes)
    → AreParallel ks vs
    → find_value j (new_keys key ks) (new_values key v ks vs)
      ≡ (if bytes_equal key j then done (some v) else find_value j ks vs)
unfolding find_value
find_value-new_keys key v j [] [] h = refl
find_value-new_keys key v j [] (w ∷ ws) h = absurd (omega arith)
find_value-new_keys key v j (k ∷ ks) [] h = absurd (omega arith)
find_value-new_keys key v j (k ∷ ks) (w ∷ ws) h = ground (
  arith,
  find_value-new_keys key v j ks ws,
  eq_of_lex k j,
  eq_of_lex key j,
  eq_of_lex key k,
  lex_refl key,
)

pub AreAbove-trans :
    (k x : Bytes) (ks : List Bytes) → lex k x ≡ Ordering.lt → AreAbove x ks → AreAbove k ks
AreAbove-trans k x [] h a = tt
AreAbove-trans k x (y ∷ ks) h a = (lex_trans k x y h a.0, AreAbove-trans k x ks h a.1)

AreAbove-new_keys :
    (x key : Bytes) (ks : List Bytes)
    → lex x key ≡ Ordering.lt
    → AreAbove x ks
    → AreAbove x (new_keys key ks)
AreAbove-new_keys x key [] h a = (h, tt)
AreAbove-new_keys x key (k ∷ ks) h a = ground (arith, AreAbove-new_keys x key ks h a.1)

pub new_keys-IsSorted : (key : Bytes) (ks : List Bytes) → IsSorted ks → IsSorted (new_keys key ks)
new_keys-IsSorted key [] s = (tt, tt)
new_keys-IsSorted key (k ∷ ks) s = ground (
  arith,
  new_keys-IsSorted key ks s.1,
  AreAbove-new_keys k key ks,
  lex_symm key k,
  AreAbove-trans key k ks,
)
