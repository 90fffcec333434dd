-- ===== src/SortedData/Composite.antt =====
-- Composite keys of server/storage/sorted_data.go: four bytes of length, the key, the identifier.
use xmongodb.Common.{
  ℕ, ◌+◌, ◌*◌, ◌/◌, ◌%◌, ◌^◌, none, some, [], ◌∷◌, ◌++◌, Result, ok, err, length, take, drop, ltb,
  if◌then◌else◌,
}
use xmongodb.Bytes.{Bytes}
use xmongodb.RecordId.{RecordId, null_record_id, as_bytes, new_record_id_from_bytes}

-- `recordIdBytes, _ := recordId.AsBytes()`: nil where there are none.
unfoldable pub record_id_bytes : RecordId → Bytes
record_id_bytes id = elim (as_bytes id) [ none ↦ [] | some b ↦ b ]

-- The length in big-endian order; `byte(x)` keeps the low byte.
abbrev pub length_prefix : ℕ → Bytes
length_prefix n = (n / 2 ^ 24 % 256) ∷ (n / 2 ^ 16 % 256) ∷ (n / 2 ^ 8 % 256) ∷ (n % 256) ∷ []

unfoldable pub make_composite_key : Bytes → RecordId → Bytes
make_composite_key key id = length_prefix (length key) ++ (key ++ record_id_bytes id)

unfoldable pub make_next_key : Bytes → Bytes
make_next_key key = make_composite_key (key ++ (0xff ∷ [])) null_record_id

pub data CompositeError : Type 0 where
  too_short malformed : CompositeError

-- The cut behind `key_len` bytes.
unfoldable pub cut : ℕ → Bytes → Result CompositeError (Bytes × Bytes)
cut key_len rest =
    if ltb (length rest) key_len then err malformed else ok (take key_len rest, drop key_len rest)

-- The length that the first four bytes write, and what follows them.
unfoldable pub split_composite : Bytes → Result CompositeError (Bytes × Bytes)
split_composite (a ∷ b ∷ c ∷ d ∷ rest) = cut (a * 2 ^ 24 + b * 2 ^ 16 + c * 2 ^ 8 + d) rest
split_composite _ = err too_short

-- `parseCompositeKey`
unfoldable pub parse_composite_key : Bytes → Result CompositeError (Bytes × RecordId)
parse_composite_key composite = elim (split_composite composite) [
  | err e ↦ err e
  | ok (key, id) ↦ ok (key, new_record_id_from_bytes id)
]
