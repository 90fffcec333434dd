-- ===== src/RecordStore/Cursors.antt =====
-- `btreeCursor` of server/storage/record_store.go. `Range` returns as many values as keys, so the two
-- slices are one list of pairs. `position` is `index + 1`: the index begins at -1.
use xmongodb.Common.{ℕ, zero, suc, Bool, Option, none, some, List, [], length, get_elem?, ltb}
use xmongodb.Bytes.{Bytes}
use xmongodb.RecordId.{RecordId, null_record_id, new_record_id_from_bytes}

pub record Cursor : Type 0 where
  pub entries : List (Bytes × Bytes)
  pub position : ℕ

abbrev pub new_cursor : List (Bytes × Bytes) → Cursor
new_cursor es = record { entries = es; position = 0 }

-- `Next`: the index grows, also beyond the end.
unfoldable pub next : Cursor → Bool × Cursor
next c = (ltb c.position (length c.entries), record c { position = suc c.position })

-- The entry at the index, if the index is in range.
abbrev pub current : List (Bytes × Bytes) → ℕ → Option (Bytes × Bytes)
current es zero = none
current es (suc i) = get_elem? es i

unfoldable pub record_id : Cursor → RecordId
record_id c = elim (current c.entries c.position) [
  | none ↦ null_record_id
  | some (k, v) ↦ new_record_id_from_bytes k
]

-- `Data`: `none` is nil.
unfoldable pub body : Cursor → Option Bytes
body c = elim (current c.entries c.position) [ none ↦ none | some (k, v) ↦ some v ]

unfoldable pub close : Cursor → Cursor
close c = record c { entries = [] }
