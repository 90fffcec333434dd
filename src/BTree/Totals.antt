-- ===== src/BTree/Totals.antt =====
-- What a call on the sorted list does to the number of its entries and to the bytes of their values.
use xmongodb.Common.{ℕ, ◌+◌, ◌≡◌, refl, none, some, [], ◌∷◌, arith, length, Ordering}
use xmongodb.Bytes.{Bytes, lex}
use xmongodb.Bytes.Order.{lex_trans, lex_symm}
use xmongodb.BTree.Chain.{Entries, KeysAbove, Ascending}
use xmongodb.BTree.Sorted.{lookup_in, insert_in, delete_in}

abbrev pub total : Entries → ℕ
total [] = 0
total ((k, v) ∷ es) = length v + total es

KeysAbove-trans :
    (key k : Bytes) (es : Entries) → lex key k ≡ Ordering.lt → KeysAbove k es → KeysAbove key es
KeysAbove-trans key k [] h a = tt
KeysAbove-trans key k ((k', v) ∷ es) h a =
    (lex_trans key k k' h a.0, KeysAbove-trans key k es h a.1)

lookup_in-KeysAbove : (key : Bytes) (es : Entries) → KeysAbove key es → lookup_in key es ≡ none
lookup_in-KeysAbove key [] a = refl
lookup_in-KeysAbove key ((k, v) ∷ es) a =
    ground (arith, lex_symm k key, a.0, lookup_in-KeysAbove key es a.1)

pub length-insert_in_new :
    (key v : Bytes) (es : Entries)
    → lookup_in key es ≡ none
    → length (insert_in key v es) ≡ length es + 1
length-insert_in_new key v [] h = refl
length-insert_in_new key v ((k, w) ∷ es) h =
    ground (arith, length-insert_in_new key v es, lex_symm k key)

pub total-insert_in_new :
    (key v : Bytes) (es : Entries)
    → lookup_in key es ≡ none
    → total (insert_in key v es) ≡ total es + length v
total-insert_in_new key v [] h = omega arith
total-insert_in_new key v ((k, w) ∷ es) h =
    ground (arith, total-insert_in_new key v es, lex_symm k key)

pub length-insert_in_old :
    (key v old : Bytes) (es : Entries)
    → Ascending es
    → lookup_in key es ≡ some old
    → length (insert_in key v es) ≡ length es
length-insert_in_old key v old [] a h = cc
length-insert_in_old key v old ((k, w) ∷ es) a h = ground (
  arith,
  length-insert_in_old key v old es a.1,
  KeysAbove-trans key k es,
  lookup_in-KeysAbove key es,
  a.0,
  lex_symm k key,
)

pub total-insert_in_old :
    (key v old : Bytes) (es : Entries)
    → Ascending es
    → lookup_in key es ≡ some old
    → total (insert_in key v es) + length old ≡ total es + length v
total-insert_in_old key v old [] a h = cc
total-insert_in_old key v old ((k, w) ∷ es) a h = ground (
  arith,
  total-insert_in_old key v old es a.1,
  KeysAbove-trans key k es,
  lookup_in-KeysAbove key es,
  a.0,
  lex_symm k key,
)

pub length-delete_in :
    (key old : Bytes) (es : Entries)
    → lookup_in key es ≡ some old
    → length (delete_in key es) + 1 ≡ length es
length-delete_in key old [] h = cc
length-delete_in key old ((k, w) ∷ es) h = ground (arith, length-delete_in key old es)

pub total-delete_in :
    (key old : Bytes) (es : Entries)
    → lookup_in key es ≡ some old
    → total (delete_in key es) + length old ≡ total es
total-delete_in key old [] h = cc
total-delete_in key old ((k, w) ∷ es) h = ground (arith, total-delete_in key old es)
