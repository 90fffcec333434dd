-- ===== src/BTree/Removal.antt =====
-- What `Delete` does to the two lists of a leaf.
use xmongodb.Common.{
  ℕ, suc, ◌<◌, ◌≤◌, ◌≡◌, refl, Bool, true, false, none, some, List, [], ◌∷◌, arith, done, length,
  remove_at, if◌then◌else◌, Bool-cases, ◌⊎◌, inl, inr,
}
use xmongodb.Bytes.{Bytes, bytes_equal}
use xmongodb.Bytes.Order.{lex_refl, eq_of_lex, lex_symm}
use xmongodb.BTree.Heap.{Node}
use xmongodb.BTree.Leaf.{find_value, index_of, remove_entry}
use xmongodb.BTree.Entries.{AreParallel, AreAbove, IsSorted, AreAbove-trans, new_keys}

abbrev pub has_key : Bytes → List Bytes → Bool
has_key key [] = false
has_key key (k ∷ ks) = if bytes_equal k key then true else has_key key ks

abbrev pub without_key : Bytes → List Bytes → List Bytes
without_key key [] = []
without_key key (k ∷ ks) = if bytes_equal k key then ks else k ∷ without_key key ks

abbrev pub without_value : Bytes → List Bytes → List Bytes → List Bytes
without_value key [] vs = vs
without_value key (k ∷ ks) [] = []
without_value key (k ∷ ks) (v ∷ vs) = if bytes_equal k key then vs else v ∷ without_value key ks vs

abbrev pub without_entry : Bytes → Node → Node
without_entry key n = record n {
  keys = without_key key n.keys;
  values = without_value key n.keys n.values;
}

position : Bytes → List Bytes → ℕ
position key [] = 0
position key (k ∷ ks) = if bytes_equal k key then 0 else suc (position key ks)

index_of_lem :
    (key : Bytes) (ks : List Bytes)
    → index_of key ks ≡ (if has_key key ks then some (position key ks) else none)
unfolding index_of position
index_of_lem key [] = refl
index_of_lem key (k ∷ ks) = ground (arith, index_of_lem key ks)

remove_lem :
    (key : Bytes) (ks vs : List Bytes)
    → AreParallel ks vs
    → has_key key ks ≡ true
    → (position key ks < length vs)
      × (remove_at (position key ks) ks ≡ without_key key ks)
      × (remove_at (position key ks) vs ≡ without_value key ks vs)
unfolding position
remove_lem key [] vs h e = cc
remove_lem key (k ∷ ks) [] h e = absurd (omega arith)
remove_lem key (k ∷ ks) (v ∷ vs) h e = ground (arith, remove_lem key ks vs)

pub remove_entry_lem :
    (key : Bytes) (n : Node)
    → AreParallel n.keys n.values
    → ((has_key key n.keys ≡ false) × (index_of key n.keys ≡ none))
      ⊎ ((i : ℕ) × (has_key key n.keys ≡ true)
          × (index_of key n.keys ≡ some i)
          × (remove_entry i n ≡ done (without_entry key n)))
unfolding remove_entry
remove_entry_lem key n h = elim (Bool-cases (has_key key n.keys)) [
  | inl e ↦ inr (
    position key n.keys,
    e,
    ground (arith, index_of_lem key n.keys),
    ground (arith, remove_lem key n.keys n.values h e),
  )
  | inr e ↦ inl (e, ground (arith, index_of_lem key n.keys))
]

-- Keys above another are not equal to it.
has_key-AreAbove : (k : Bytes) (ks : List Bytes) → AreAbove k ks → has_key k ks ≡ false
has_key-AreAbove k [] a = refl
has_key-AreAbove k (x ∷ ks) a = ground (arith, has_key-AreAbove k ks a.1, lex_symm k x)

-- An insertion under a key that is there adds no key.
pub length-new_keys_of_has_key :
    (key : Bytes) (ks : List Bytes)
    → IsSorted ks
    → has_key key ks ≡ true
    → length (new_keys key ks) ≡ length ks
length-new_keys_of_has_key key [] s h = cc
length-new_keys_of_has_key key (k ∷ ks) s h = ground (
  arith,
  length-new_keys_of_has_key key ks s.1,
  lex_symm key k,
  has_key-AreAbove key ks,
  AreAbove-trans key k ks,
)

pub length-without_key : (key : Bytes) (ks : List Bytes) → length (without_key key ks) ≤ length ks
length-without_key key [] = omega arith
length-without_key key (k ∷ ks) = ground (arith, length-without_key key ks)

pub find_value-missing :
    (key : Bytes) (ks vs : List Bytes) → has_key key ks ≡ false → find_value key ks vs ≡ done none
unfolding find_value
find_value-missing key [] vs h = refl
find_value-missing key (k ∷ ks) [] h = ground (arith, find_value-missing key ks [])
find_value-missing key (k ∷ ks) (v ∷ vs) h = ground (arith, find_value-missing key ks vs)

pub find_value-present :
    (key : Bytes) (ks vs : List Bytes)
    → AreParallel ks vs
    → has_key key ks ≡ true
    → (v : Bytes) × (find_value key ks vs ≡ done (some v))
unfolding find_value
find_value-present key [] vs h e = cc
find_value-present key (k ∷ ks) [] h e = absurd (omega arith)
find_value-present key (k ∷ ks) (v ∷ vs) h e = elim (Bool-cases (bytes_equal k key)) [
  | inl same ↦ (v, rw same)
  | inr other ↦
      let (w, found) = find_value-present key ks vs (omega arith) (rw other at e) in
      (w, rw other found)
]

-- The key is gone, every other key keeps its value.
pub find_value-without_key :
    (key j : Bytes) (ks vs : List Bytes)
    → AreParallel ks vs
    → IsSorted ks
    → find_value j (without_key key ks) (without_value key ks vs)
      ≡ (if bytes_equal key j then done none else find_value j ks vs)
unfolding find_value
find_value-without_key key j [] vs h s = ground arith
find_value-without_key key j (k ∷ ks) [] h s = absurd (omega arith)
find_value-without_key key j (k ∷ ks) (v ∷ vs) h s = ground (
  arith,
  find_value-without_key key j ks vs,
  eq_of_lex k j,
  eq_of_lex key j,
  eq_of_lex k key,
  lex_refl key,
  has_key-AreAbove k ks s.0,
  find_value-missing j ks vs,
)

AreAbove-without_key :
    (x key : Bytes) (ks : List Bytes) → AreAbove x ks → AreAbove x (without_key key ks)
AreAbove-without_key x key [] a = tt
AreAbove-without_key x key (k ∷ ks) a = ground (arith, AreAbove-without_key x key ks a.1)

pub without_key-IsSorted :
    (key : Bytes) (ks : List Bytes) → IsSorted ks → IsSorted (without_key key ks)
without_key-IsSorted key [] s = tt
without_key-IsSorted key (k ∷ ks) s =
    ground (arith, without_key-IsSorted key ks s.1, AreAbove-without_key k key ks s.0)

pub without_key-AreParallel :
    (key : Bytes) (ks vs : List Bytes)
    → AreParallel ks vs
    → AreParallel (without_key key ks) (without_value key ks vs)
without_key-AreParallel key [] vs h = h
without_key-AreParallel key (k ∷ ks) [] h = absurd (omega arith)
without_key-AreParallel key (k ∷ ks) (v ∷ vs) h = ground (arith, without_key-AreParallel key ks vs)
