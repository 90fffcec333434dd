-- ===== src/SortedData/IndexCursors.antt =====
-- `btreeIndexCursor` of server/storage/sorted_data.go; `position` is `index + 1`.
use xmongodb.Common.{
  ℕ, zero, suc, Bool, Option, none, some, List, [], ok, err, length, get_elem?, ltb,
}
use xmongodb.Bytes.{Bytes}
use xmongodb.RecordId.{RecordId, null_record_id, new_record_id_from_bytes}
use xmongodb.SortedData.Composite.{split_composite}

pub record IndexCursor : Type 0 where
  pub entries : List (Bytes × Bytes)
  pub position : ℕ

abbrev pub new_index_cursor : List (Bytes × Bytes) → IndexCursor
new_index_cursor es = record { entries = es; position = 0 }

unfoldable pub next : IndexCursor → Bool × IndexCursor
next c = (ltb c.position (length c.entries), record c { position = suc c.position })

abbrev pub current : List (Bytes × Bytes) → ℕ → Option (Bytes × Bytes)
current es zero = none
current es (suc i) = get_elem? es i

-- `Key`: the index key inside the composite key; `none` is nil.
unfoldable pub key : IndexCursor → Option Bytes
key c = elim (current c.entries c.position) [
  | none ↦ none
  | some (k, v) ↦ elim (split_composite k) [ err e ↦ none | ok (found, id) ↦ some found ]
]

unfoldable pub record_id : IndexCursor → RecordId
record_id c = elim (current c.entries c.position) [
  | none ↦ null_record_id
  | some (k, v) ↦ new_record_id_from_bytes v
]

unfoldable pub close : IndexCursor → IndexCursor
close c = record c { entries = [] }
