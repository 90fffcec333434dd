-- ===== src/Engine/Stored.antt =====
-- What `Insert` stores: the bodies under the keys of consecutive identifiers.
use xmongodb.Common.{
  ℕ, ◌+◌, ◌%◌, ◌^◌, ◌<◌, ◌≡◌, refl, ap, ◌∙◌, none, List, [], ◌∷◌, ◌++◌, arith, length, Ordering,
}
use xmongodb.Common.Int.{pos}
use xmongodb.Bytes.{Bytes, lex}
use xmongodb.Bytes.Order.{lex_symm}
use xmongodb.RecordId.{put_uint64}
use xmongodb.RecordId.Key.{long_key, lex-put_uint64}
use xmongodb.BTree.Chain.{Entries}
use xmongodb.BTree.Sorted.{KeysBelow, lookup_in, insert_in}
use xmongodb.Engine.Documents.{NonEmptyKeys}

-- The bodies under the identifiers behind `n`.
abbrev pub stored : ℕ → List Bytes → Entries
stored n [] = []
stored n (b ∷ bs) = (long_key (pos (n + 1)), b) ∷ stored (n + 1) bs

insert_in-below :
    (key v : Bytes) (es : Entries) → KeysBelow key es → insert_in key v es ≡ es ++ ((key, v) ∷ [])
insert_in-below key v [] b = refl
insert_in-below key v ((k, w) ∷ es) b =
    ground (arith, lex_symm k key, b.0, insert_in-below key v es b.1)

lookup_in-below : (key : Bytes) (es : Entries) → KeysBelow key es → lookup_in key es ≡ none
lookup_in-below key [] b = refl
lookup_in-below key ((k, w) ∷ es) b = ground (arith, b.0, lookup_in-below key es b.1)

lex-long_key :
    (a b : ℕ) → a < b → b < 2 ^ 63 → lex (long_key (pos a)) (long_key (pos b)) ≡ Ordering.lt
lex-long_key a b h c =
    ground (arith, lex-put_uint64 (a % 2 ^ 64) (b % 2 ^ 64) (omega arith) (omega arith))

stored-KeysBelow :
    (n m : ℕ) (bs : List Bytes)
    → n + length bs < m
    → m < 2 ^ 63
    → KeysBelow (long_key (pos m)) (stored n bs)
stored-KeysBelow n m [] h c = tt
stored-KeysBelow n m (b ∷ bs) h c =
    (lex-long_key (n + 1) m (omega arith) c, stored-KeysBelow (n + 1) m bs (omega arith) c)

stored-append :
    (n : ℕ) (bs : List Bytes) (b : Bytes)
    → stored n bs ++ ((long_key (pos (n + length bs + 1)), b) ∷ []) ≡ stored n (bs ++ (b ∷ []))
stored-append n [] b = ap (λ k. (long_key (pos k), b) ∷ []) (omega arith)
stored-append n (x ∷ bs) b =
    ap (λ k. (long_key (pos (n + 1)), x) ∷ (stored (n + 1) bs ++ ((long_key (pos k), b) ∷ [])))
      (omega arith)
    ∙ ap (λ rest. (long_key (pos (n + 1)), x) ∷ rest) (stored-append (n + 1) bs b)

-- The next identifier is not there, and is stored behind the others.
pub stored-missing :
    (n : ℕ) (bs : List Bytes)
    → length bs ≡ n
    → n + 1 < 2 ^ 63
    → lookup_in (long_key (pos (n + 1))) (stored 0 bs) ≡ none
stored-missing n bs e h =
    lookup_in-below (long_key (pos (n + 1))) (stored 0 bs)
      (stored-KeysBelow 0 (n + 1) bs (omega (arith, e)) h)

pub stored-insert_in :
    (n : ℕ) (bs : List Bytes) (b : Bytes)
    → length bs ≡ n
    → n + 1 < 2 ^ 63
    → insert_in (long_key (pos (n + 1))) b (stored 0 bs) ≡ stored 0 (bs ++ (b ∷ []))
stored-insert_in n bs b e h =
    insert_in-below (long_key (pos (n + 1))) b (stored 0 bs)
      (stored-KeysBelow 0 (n + 1) bs (omega (arith, e)) h)
    ∙ ap (λ k. stored 0 bs ++ ((long_key (pos k), b) ∷ [])) (omega (arith, e))
    ∙ stored-append 0 bs b

pub stored-NonEmptyKeys : (n : ℕ) (bs : List Bytes) → NonEmptyKeys (stored n bs)
unfolding put_uint64
stored-NonEmptyKeys n [] = tt
stored-NonEmptyKeys n (b ∷ bs) = ((λ h. cc), stored-NonEmptyKeys (n + 1) bs)
