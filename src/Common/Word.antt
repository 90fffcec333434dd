-- ===== src/Common/Word.antt =====
-- int64 and uint64: the conversions, and the addition that wraps round.
use Prim.Native.Nat.{ℕ, ◌+◌, ◌-◌, ◌%◌, ◌^◌, ◌<◌}
use mathlib.Core.Path.{◌≡◌}
use native.Mathlib.Omega.{arith}
use xmongodb.Common.Tests.{ltb, if◌then◌else◌}
use xmongodb.Common.Int.{ℤ, pos, negsuc, ◌+ℤ◌, ◌≤ℤ◌, sub_ℕ}

-- The conversion `uint64(x)` of an int64.
abbrev pub uint64 : ℤ → ℕ
uint64 (pos n) = n % 2 ^ 64
uint64 (negsuc n) = 2 ^ 64 - 1 - n % 2 ^ 64

-- The conversion `int64(x)` of a uint64.
abbrev pub int64 : ℕ → ℤ
int64 w = if ltb w (2 ^ 63) then pos w else negsuc (2 ^ 64 - 1 - w)

-- `a + b` on int64, and atomic.AddInt64.
unfoldable pub add_int64 : ℤ → ℤ → ℤ
add_int64 a b = int64 ((uint64 a + uint64 b) % 2 ^ 64)

-- `-a` on int64.
unfoldable pub neg_int64 : ℤ → ℤ
neg_int64 a = int64 ((2 ^ 64 - uint64 a) % 2 ^ 64)

-- A number of int64.
abbrev pub IsInt64 : ℤ → Type 0
IsInt64 z = (negsuc (2 ^ 63 - 1) ≤ℤ z) × (z ≤ℤ pos (2 ^ 63 - 1))

-- Where the sum is an int64, it is the sum.
pub add_int64_lem : (a b : ℤ) → IsInt64 a → IsInt64 b → IsInt64 (a +ℤ b) → add_int64 a b ≡ a +ℤ b
unfolding add_int64 ◌+ℤ◌
add_int64_lem a b ha hb h = ground arith

pub neg_int64_lem : (n : ℕ) → n < 2 ^ 63 → neg_int64 (pos n) ≡ sub_ℕ 0 n
unfolding neg_int64
neg_int64_lem n h = ground arith

pub add_int64_assoc : (a b c : ℤ) → add_int64 (add_int64 a b) c ≡ add_int64 a (add_int64 b c)
unfolding add_int64
add_int64_assoc a b c = ground arith

pub add_int64_neg :
    (a : ℤ) (n : ℕ)
    → IsInt64 a
    → n < 2 ^ 63
    → add_int64 (add_int64 a (pos n)) (neg_int64 (pos n)) ≡ a
unfolding add_int64 neg_int64
add_int64_neg a n h k = ground arith
