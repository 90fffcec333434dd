-- ===== src/BTree/Sorted.antt =====
-- The specification of the tree: a map as a list of entries whose keys ascend.
use xmongodb.Common.{
  ℕ, ◌≡◌, refl, true, false, Option, none, some, List, [], ◌∷◌, ◌++◌, arith, done, take, drop,
  if◌then◌else◌, Ordering, zero, suc, Bool-cases, inl, inr,
}
use xmongodb.Bytes.{Bytes, lex, bytes_equal}
use xmongodb.Bytes.Order.{lex_symm}
use xmongodb.BTree.Leaf.{find_value}
use xmongodb.BTree.Entries.{AreParallel, new_keys, new_values}
use xmongodb.BTree.Removal.{has_key, without_key, without_value}
use xmongodb.BTree.Chain.{Entries, pair_up, KeysAbove, in_range}

abbrev pub lookup_in : Bytes → Entries → Option Bytes
lookup_in key [] = none
lookup_in key ((k, v) ∷ es) = if bytes_equal k key then some v else lookup_in key es

abbrev pub insert_in : Bytes → Bytes → Entries → Entries
insert_in key v [] = (key, v) ∷ []
insert_in key v ((k, w) ∷ es) = elim (lex key k) [
  | Ordering.lt ↦ (key, v) ∷ (k, w) ∷ es
  | Ordering.eq ↦ (k, v) ∷ es
  | Ordering.gt ↦ (k, w) ∷ insert_in key v es
]

abbrev pub delete_in : Bytes → Entries → Entries
delete_in key [] = []
delete_in key ((k, v) ∷ es) = if bytes_equal k key then es else (k, v) ∷ delete_in key es

-- Every key is below `key`.
abbrev pub KeysBelow : Bytes → Entries → Type 0
KeysBelow key [] = Unit
KeysBelow key ((k, v) ∷ es) = (lex k key ≡ Ordering.lt) × KeysBelow key es

module _ (key : Bytes) where
  pub lookup_in-pair_up :
      (ks vs : List Bytes)
      → AreParallel ks vs
      → find_value key ks vs ≡ done (lookup_in key (pair_up ks vs))
  unfolding find_value
  lookup_in-pair_up [] vs h = refl
  lookup_in-pair_up (k ∷ ks) [] h = absurd (omega arith)
  lookup_in-pair_up (k ∷ ks) (v ∷ vs) h = ground (arith, lookup_in-pair_up ks vs)

  pub insert_in-pair_up :
      (v : Bytes) (ks vs : List Bytes)
      → AreParallel ks vs
      → pair_up (new_keys key ks) (new_values key v ks vs) ≡ insert_in key v (pair_up ks vs)
  insert_in-pair_up v [] [] h = refl
  insert_in-pair_up v [] (x ∷ vs) h = absurd (omega arith)
  insert_in-pair_up v (k ∷ ks) [] h = absurd (omega arith)
  insert_in-pair_up v (k ∷ ks) (w ∷ vs) h = ground (arith, insert_in-pair_up v ks vs)

  pub delete_in-pair_up :
      (ks vs : List Bytes)
      → AreParallel ks vs
      → pair_up (without_key key ks) (without_value key ks vs) ≡ delete_in key (pair_up ks vs)
  delete_in-pair_up [] [] h = refl
  delete_in-pair_up [] (x ∷ vs) h = absurd (omega arith)
  delete_in-pair_up (k ∷ ks) [] h = absurd (omega arith)
  delete_in-pair_up (k ∷ ks) (w ∷ vs) h = ground (arith, delete_in-pair_up ks vs)

  pub lookup_in-missing :
      (ks vs : List Bytes) → has_key key ks ≡ false → lookup_in key (pair_up ks vs) ≡ none
  lookup_in-missing [] vs h = refl
  lookup_in-missing (k ∷ ks) [] h = refl
  lookup_in-missing (k ∷ ks) (v ∷ vs) h = ground (arith, lookup_in-missing ks vs)

  pub lookup_in-present :
      (ks vs : List Bytes)
      → AreParallel ks vs
      → has_key key ks ≡ true
      → (v : Bytes) × (lookup_in key (pair_up ks vs) ≡ some v)
  lookup_in-present [] vs h e = cc
  lookup_in-present (k ∷ ks) [] h e = absurd (omega arith)
  lookup_in-present (k ∷ ks) (v ∷ vs) h e = elim (Bool-cases (bytes_equal k key)) [
    | inl here ↦ (v, rw here)
    | inr there ↦
        let (x, found) = lookup_in-present ks vs (omega arith) (rw there at e) in
        (x, rw there found)
  ]

  pub delete_in-missing : (es : Entries) → lookup_in key es ≡ none → delete_in key es ≡ es
  delete_in-missing [] h = refl
  delete_in-missing ((k, v) ∷ es) h = ground (arith, delete_in-missing es)

  -- What stands below the key, and what stands above it, is not touched.
  pub lookup_in-append :
      (pre es post : Entries)
      → KeysBelow key pre
      → KeysAbove key post
      → lookup_in key (pre ++ (es ++ post)) ≡ lookup_in key es
  lookup_in-append [] [] [] b a = refl
  lookup_in-append [] [] ((k, v) ∷ post) b a =
      ground (arith, lookup_in-append [] [] post tt a.1, lex_symm key k)
  lookup_in-append [] ((k, v) ∷ es) post b a = ground (arith, lookup_in-append [] es post tt a)
  lookup_in-append ((k, v) ∷ pre) es post b a = ground (arith, lookup_in-append pre es post b.1 a)

  pub insert_in-append :
      (v : Bytes) (pre es post : Entries)
      → KeysBelow key pre
      → KeysAbove key post
      → insert_in key v (pre ++ (es ++ post)) ≡ pre ++ (insert_in key v es ++ post)
  insert_in-append v [] [] [] b a = refl
  insert_in-append v [] [] ((k, w) ∷ post) b a = ground arith
  insert_in-append v [] ((k, w) ∷ es) post b a = ground (arith, insert_in-append v [] es post tt a)
  insert_in-append v ((k, w) ∷ pre) es post b a =
      ground (arith, insert_in-append v pre es post b.1 a, lex_symm key k)

  pub delete_in-append :
      (pre es post : Entries)
      → KeysBelow key pre
      → KeysAbove key post
      → delete_in key (pre ++ (es ++ post)) ≡ pre ++ (delete_in key es ++ post)
  delete_in-append [] [] [] b a = refl
  delete_in-append [] [] ((k, w) ∷ post) b a =
      ground (arith, delete_in-append [] [] post tt a.1, lex_symm key k)
  delete_in-append [] ((k, w) ∷ es) post b a = ground (arith, delete_in-append [] es post tt a)
  delete_in-append ((k, w) ∷ pre) es post b a = ground (arith, delete_in-append pre es post b.1 a)

-- A range from `start` does not reach what stands below it.
pub in_range-below :
    (start : Bytes) (end : Option Bytes) (pre es : Entries)
    → KeysBelow start pre
    → in_range start end (pre ++ es) ≡ in_range start end es
in_range-below start end [] es b = refl
in_range-below start end ((k, v) ∷ pre) es b = ground (arith, in_range-below start end pre es b.1)

pub pair_up-take-drop :
    (n : ℕ) (ks vs : List Bytes)
    → AreParallel ks vs
    → pair_up (take n ks) (take n vs) ++ pair_up (drop n ks) (drop n vs) ≡ pair_up ks vs
pair_up-take-drop zero ks vs h = refl
pair_up-take-drop (suc n) [] [] h = refl
pair_up-take-drop (suc n) [] (v ∷ vs) h = absurd (omega arith)
pair_up-take-drop (suc n) (k ∷ ks) [] h = absurd (omega arith)
pair_up-take-drop (suc n) (k ∷ ks) (v ∷ vs) h = rw (pair_up-take-drop n ks vs (omega arith))
