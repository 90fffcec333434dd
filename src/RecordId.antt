-- ===== src/RecordId.antt =====
-- server/storage/record_id.go: the identifier of a record.
pub mod Order
pub mod Key
pub mod Text
mod Tests
use xmongodb.Common.{
  ℕ, zero, suc, ◌+◌, ◌-◌, ◌/◌, ◌%◌, ◌^◌, Bool, true, false, Option, none, some, List, [], ◌∷◌, Run,
  done, ◌==◌, if◌then◌else◌,
}
use xmongodb.Common.Int.{ℤ, pos, negsuc, sub_ℕ, ltb_ℤ}
use xmongodb.Common.Word.{uint64}
use xmongodb.Bytes.{Bytes, compare_bytes}

-- `repr` is 0 for null, 1 for an int64, 2 for bytes.
pub record RecordId : Type 0 where
  pub repr : ℕ
  pub long : ℤ
  pub bytes : Bytes

abbrev pub new_record_id_from_long : ℤ → RecordId
new_record_id_from_long id = record { repr = 1; long = id; bytes = [] }

abbrev pub new_record_id_from_bytes : Bytes → RecordId
new_record_id_from_bytes b = record { repr = 2; long = pos 0; bytes = b }

abbrev pub null_record_id : RecordId
null_record_id = record { repr = 0; long = pos 0; bytes = [] }

abbrev pub is_null : RecordId → Bool
is_null r = r.repr == 0

abbrev pub is_long : RecordId → Bool
is_long r = r.repr == 1

unfoldable pub as_long : RecordId → Option ℤ
as_long r = if r.repr == 1 then some r.long else none

-- binary.BigEndian.PutUint64 into a slice of 8 bytes.
unfoldable pub put_uint64 : ℕ → Bytes
put_uint64 v =
    (v / 2 ^ 56 % 256)
    ∷ (v / 2 ^ 48 % 256)
    ∷ (v / 2 ^ 40 % 256)
    ∷ (v / 2 ^ 32 % 256)
    ∷ (v / 2 ^ 24 % 256)
    ∷ (v / 2 ^ 16 % 256)
    ∷ (v / 2 ^ 8 % 256)
    ∷ (v % 256)
    ∷ []

unfoldable pub as_bytes : RecordId → Option Bytes
as_bytes r =
    if r.repr == 2
    then some r.bytes
    else if r.repr == 1
    then some (put_uint64 (uint64 r.long))
    else none

unfoldable pub compare : RecordId → RecordId → Run ℤ
compare r other =
    if not_equal
    then done (sub_ℕ r.repr other.repr)
    else if r.repr == 0
    then done (pos 0)
    else if r.repr == 1
    then (if ltb_ℤ r.long other.long
        then done (negsuc 0)
        else if ltb_ℤ other.long r.long
        then done (pos 1)
        else done (pos 0))
    else if r.repr == 2
    then compare_bytes r.bytes other.bytes
    else done (pos 0)
  where
    not_equal : Bool
    not_equal = if r.repr == other.repr then false else true
