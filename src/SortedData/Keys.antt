-- ===== src/SortedData/Keys.antt =====
-- What the composite keys keep of the index keys, and the order that they have.
use xmongodb.Common.{
  ℕ, ◌+◌, ◌*◌, ◌/◌, ◌%◌, ◌^◌, ◌<◌, Ordering, ◌≡◌, ◌≢◌, ap, ◌∙◌, Bool, false, not, ◌&&◌, some, [],
  ◌++◌, arith, ok, length, length-append, take-append, drop-append, ltb,
}
use xmongodb.Bytes.{Bytes, lex, is_lt}
use xmongodb.Bytes.Order.{lex-append}
use xmongodb.BTree.Leaf.{past_end}
use xmongodb.RecordId.{RecordId, null_record_id, new_record_id_from_bytes}
use xmongodb.SortedData.Composite.{
  record_id_bytes, length_prefix, make_composite_key, make_next_key, split_composite,
  parse_composite_key, cut,
}

cut-append : (key rest : Bytes) → cut (length key) (key ++ rest) ≡ ok (key, rest)
unfolding cut
cut-append key rest =
    let fits : ltb (length (key ++ rest)) (length key) ≡ false =
      ground (arith, length-append key rest) in
    rw (fits, take-append key rest, drop-append key rest)

prefix_value :
    (n : ℕ)
    → n < 2 ^ 32
    → n / 2 ^ 24 % 256 * 2 ^ 24 + n / 2 ^ 16 % 256 * 2 ^ 16 + n / 2 ^ 8 % 256 * 2 ^ 8 + n % 256 ≡ n
prefix_value n h = omega arith

pub split-make_composite_key :
    (key : Bytes) (id : RecordId)
    → length key < 2 ^ 32
    → split_composite (make_composite_key key id) ≡ ok (key, record_id_bytes id)
unfolding split_composite make_composite_key
split-make_composite_key key id h =
    ap (λ n. cut n (key ++ record_id_bytes id)) (prefix_value (length key) h)
    ∙ cut-append key (record_id_bytes id)

-- Parsing takes a composite key apart into the index key and the bytes of the identifier, whatever
-- the key and the identifier, as long as the length of the key fits in four bytes.
pub parse-make_composite_key :
    (key : Bytes) (id : RecordId)
    → length key < 2 ^ 32
    → parse_composite_key (make_composite_key key id)
      ≡ ok (key, new_record_id_from_bytes (record_id_bytes id))
unfolding parse_composite_key
parse-make_composite_key key id h = ground (arith, split-make_composite_key key id h)

-- A composite key is in the range that `Seek` and `keyExists` ask the tree for.
abbrev pub in_seek_range : Bytes → Bytes → Bool
in_seek_range key composite =
    not (is_lt (lex composite (make_composite_key key null_record_id)))
    && not (past_end (some (make_next_key key)) composite)

prefix_order :
    (m n : ℕ)
    → m < 2 ^ 32
    → n < 2 ^ 32
    → m < n
    → (a b : Bytes) → lex (length_prefix m ++ a) (length_prefix n ++ b) ≡ Ordering.lt
unfolding lex
prefix_order m n hm hn h a b = ground arith

-- Composite keys of index keys of two lengths are in the order of the lengths.
pub lex-make_composite_key_lt :
    (k k' : Bytes) (id id' : RecordId)
    → length k' < 2 ^ 32
    → length k < length k'
    → lex (make_composite_key k id) (make_composite_key k' id') ≡ Ordering.lt
unfolding make_composite_key
lex-make_composite_key_lt k k' id id' h l =
    prefix_order (length k) (length k') (omega arith) h l (k ++ record_id_bytes id)
      (k' ++ record_id_bytes id')

-- Those of index keys of one length are in the order of key and identifier.
pub lex-make_composite_key_eq :
    (k k' : Bytes) (id id' : RecordId)
    → length k ≡ length k'
    → lex (make_composite_key k id) (make_composite_key k' id')
      ≡ lex (k ++ record_id_bytes id) (k' ++ record_id_bytes id')
unfolding make_composite_key
lex-make_composite_key_eq k k' id id' h =
    rw h
      (lex-append (length_prefix (length k')) (k ++ record_id_bytes id) (k' ++ record_id_bytes id'))

pub make_composite_key_ne : (key : Bytes) (id : RecordId) → make_composite_key key id ≢ []
unfolding make_composite_key
make_composite_key_ne key id = λ h. cc
