-- ===== src/SortedData/Seeks.antt =====
-- Which entries are in the range of `Seek`, and what `keyExists` finds.
use xmongodb.Common.{
  ◌+◌, ◌-◌, ◌^◌, ◌<◌, Ordering, ◌≡◌, refl, ap, ◌∙◌, Bool, true, false, not, some, [], ◌∷◌, ◌++◌,
  arith, done, length, length-append, if◌then◌else◌, ◌==◌, inl, inr, ◌⊎◌,
}
use mathlib.Core.List.{append-nil}
use xmongodb.Bytes.{Bytes, lex, is_lt}
use xmongodb.Bytes.Order.{lex_symm}
use xmongodb.RecordId.{RecordId, null_record_id, as_bytes}
use xmongodb.BTree.Chain.{Entries, all_entries, in_range, range-in_range, Walk}
use xmongodb.SortedData.Composite.{make_composite_key, make_next_key, record_id_bytes}
use xmongodb.SortedData.Keys.{in_seek_range, lex-make_composite_key_lt, lex-make_composite_key_eq}
use xmongodb.SortedData.{BTreeIndex, key_exists}

record_id_bytes-null : record_id_bytes null_record_id ≡ []
unfolding record_id_bytes as_bytes
record_id_bytes-null = refl

-- An entry whose index key has the length of `key`, which fits in four bytes with one to spare, is
-- in the range of `Seek` exactly if index key and identifier together are not below `key`: the
-- range takes in every greater key of that length too.
pub in_seek_range_same_length :
    (key k' : Bytes) (id : RecordId)
    → length key < 2 ^ 32 - 1
    → length k' ≡ length key
    → in_seek_range key (make_composite_key k' id)
      ≡ not (is_lt (lex (k' ++ record_id_bytes id) key))
unfolding make_next_key
in_seek_range_same_length key k' id h e =
    let low : lex (make_composite_key k' id) (make_composite_key key null_record_id)
        ≡ lex (k' ++ record_id_bytes id) key =
      lex-make_composite_key_eq k' key id null_record_id e
      ∙ rw (record_id_bytes-null, append-nil) in
    let more : length (key ++ (0xff ∷ [])) ≡ length key + 1 =
      omega (arith, length-append key (0xff ∷ [])) in
    let high : lex (make_composite_key k' id)
          (make_composite_key (key ++ (0xff ∷ [])) null_record_id)
        ≡ Ordering.lt =
      lex-make_composite_key_lt k' (key ++ (0xff ∷ [])) id null_record_id (omega arith)
        (omega arith) in
    rw (low, high) (ground arith)

-- A key of another length than `key` and than one byte more is never in the range of `Seek`, if the
-- lengths fit in four bytes, that of `key` with one to spare.
pub in_seek_range_other_length :
    (key k' : Bytes) (id : RecordId)
    → length key < 2 ^ 32 - 1
    → length k' < 2 ^ 32
    → (length k' < length key) ⊎ (length key + 1 < length k')
    → in_seek_range key (make_composite_key k' id) ≡ false
unfolding make_next_key
in_seek_range_other_length key k' id h h' (inl s) =
    rw (lex-make_composite_key_lt k' key id null_record_id (omega arith) s)
in_seek_range_other_length key k' id h h' (inr l) =
    let more : length (key ++ (0xff ∷ [])) ≡ length key + 1 =
      omega (arith, length-append key (0xff ∷ [])) in
    let above : lex (make_composite_key (key ++ (0xff ∷ [])) null_record_id)
          (make_composite_key k' id)
        ≡ Ordering.lt =
      lex-make_composite_key_lt (key ++ (0xff ∷ [])) k' null_record_id id h' (omega arith) in
    ground (
      arith,
      above,
      lex_symm (make_composite_key (key ++ (0xff ∷ [])) null_record_id) (make_composite_key k' id),
    )

abbrev pub any_key : (Bytes → Bool) → Entries → Bool
any_key test [] = false
any_key test ((k, v) ∷ es) = if test k then true else any_key test es

any_key-in_range :
    (key : Bytes) (es : Entries)
    → (if length (in_range (make_composite_key key null_record_id) (some (make_next_key key)) es)
          == 0
        then false
        else true)
      ≡ any_key (in_seek_range key) es
any_key-in_range key [] = refl
any_key-in_range key ((k, v) ∷ es) = ground (arith, any_key-in_range key es)

pub any_key_mono :
    (f g : Bytes → Bool) (es : Entries)
    → ((k : Bytes) → f k ≡ true → g k ≡ true)
    → any_key f es ≡ true
    → any_key g es ≡ true
any_key_mono f g [] h e = e
any_key_mono f g ((k, v) ∷ es) h e = ground (arith, h k, any_key_mono f g es h)

lex-append-le : (k r : Bytes) → is_lt (lex (k ++ r) k) ≡ false
unfolding lex
lex-append-le [] [] = refl
lex-append-le [] (x ∷ r) = refl
lex-append-le (x ∷ k) r = ground (arith, lex-append-le k r)

lex-append-ge :
    (k key r : Bytes)
    → length k ≡ length key
    → lex key k ≡ Ordering.lt
    → is_lt (lex (k ++ r) key) ≡ false
unfolding lex
lex-append-ge [] [] r e h = cc
lex-append-ge [] (y ∷ key) r e h = absurd (omega arith)
lex-append-ge (x ∷ k) [] r e h = absurd (omega arith)
lex-append-ge (x ∷ k) (y ∷ key) r e h = ground (arith, lex-append-ge k key r, lex_symm k key)

-- An entry whose key is `key`, or a greater one of the same length, is in the range.
pub in_seek_range_of_le :
    (key k' : Bytes) (id : RecordId)
    → length key < 2 ^ 32 - 1
    → length k' ≡ length key
    → (lex key k' ≡ Ordering.lt) ⊎ (key ≡ k')
    → in_seek_range key (make_composite_key k' id) ≡ true
in_seek_range_of_le key k' id h e (inl l) =
    in_seek_range_same_length key k' id h e ∙ ap not (lex-append-ge k' key (record_id_bytes id) e l)
in_seek_range_of_le key k' id h e (inr l) =
    in_seek_range_same_length key k' id h e ∙ rw l (ap not (lex-append-le k' (record_id_bytes id)))

abbrev pub SeekWalk : BTreeIndex → Bytes → Type 0
SeekWalk idx key = Walk idx.tree (make_composite_key key null_record_id)

-- Over leaves in order, `keyExists` tells whether some entry is in the range of `Seek`.
pub key_exists-any_key :
    (idx : BTreeIndex) (key : Bytes) (w : SeekWalk idx key)
    → key_exists idx key ≡ done (any_key (in_seek_range key) (all_entries w.leaves))
unfolding key_exists
key_exists-any_key idx key w =
    rw (range-in_range (some (make_next_key key)) w)
      (ap done (any_key-in_range key (all_entries w.leaves)))
