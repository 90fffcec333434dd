-- ===== src/RecordId/Key.antt =====
-- Keys of records: the 8 big-endian bytes of an int64 identifier, and their order.
use xmongodb.Common.{
  ℕ, ◌-◌, ◌%◌, ◌^◌, ◌<◌, Bool, true, false, ◌≡◌, ◌↔◌, refl, ◌∙◌, some, arith, done,
}
use Prim.Native.Nat
use xmongodb.Common.Int.{ℤ, pos, negsuc}
use xmongodb.Common.Word.{uint64, IsInt64}
use xmongodb.Bytes.{Bytes, lex}
use xmongodb.Bytes.Compare.{sign}
use xmongodb.Bytes.Value.{AreBytes, value, lex-eq-compare}
use xmongodb.RecordId.{new_record_id_from_long, put_uint64, as_bytes, compare}

value-put_uint64 : (v : ℕ) → v < 2 ^ 64 → value (put_uint64 v) ≡ v
unfolding put_uint64
value-put_uint64 v h = omega arith

put_uint64-AreBytes : (v : ℕ) → AreBytes (put_uint64 v)
unfolding put_uint64
put_uint64-AreBytes v = omega arith

pub lex-put_uint64 :
    (v w : ℕ) → v < 2 ^ 64 → w < 2 ^ 64 → lex (put_uint64 v) (put_uint64 w) ≡ Nat.compare v w
lex-put_uint64 v w hv hw =
    lex-eq-compare (put_uint64 v) (put_uint64 w) (put_uint64-AreBytes v) (put_uint64-AreBytes w)
      (unfold put_uint64 in refl)
    ∙ rw (value-put_uint64 v hv, value-put_uint64 w hw)

abbrev pub long_key : ℤ → Bytes
long_key z = put_uint64 (uint64 z)

pub as_bytes-from_long : (z : ℤ) → as_bytes (new_record_id_from_long z) ≡ some (long_key z)
unfolding as_bytes
as_bytes-from_long z = refl

abbrev pub is_negative : ℤ → Bool
is_negative (pos n) = false
is_negative (negsuc n) = true

-- For int64 identifiers, `Compare` is the order of the keys that `AsBytes` makes exactly if both are
-- negative or neither is.
pub compare-lex_iff :
    (a b : ℤ)
    → IsInt64 a
    → IsInt64 b
    → (compare (new_record_id_from_long a) (new_record_id_from_long b)
        ≡ done (sign (lex (long_key a) (long_key b))))
      ↔ (is_negative a ≡ is_negative b)
unfolding compare
compare-lex_iff (pos a) (pos b) ha hb =
    ground (arith, lex-put_uint64 (a % 2 ^ 64) (b % 2 ^ 64) (omega arith) (omega arith))
compare-lex_iff (pos a) (negsuc b) ha hb =
    ground
      (arith, lex-put_uint64 (a % 2 ^ 64) (2 ^ 64 - 1 - b % 2 ^ 64) (omega arith) (omega arith))
compare-lex_iff (negsuc a) (pos b) ha hb =
    ground
      (arith, lex-put_uint64 (2 ^ 64 - 1 - a % 2 ^ 64) (b % 2 ^ 64) (omega arith) (omega arith))
compare-lex_iff (negsuc a) (negsuc b) ha hb = ground (
  arith,
  lex-put_uint64 (2 ^ 64 - 1 - a % 2 ^ 64) (2 ^ 64 - 1 - b % 2 ^ 64) (omega arith) (omega arith),
)
