-- ===== src/Bytes/Value.antt =====
-- Big-endian numbers: the number that a byte slice writes, and its order.
use xmongodb.Common.{ℕ, ◌+◌, ◌*◌, ◌<◌, compare, Ordering, ◌≡◌, refl, [], ◌∷◌, arith, length}
use xmongodb.Bytes.{Bytes, lex}

-- Every element is a byte.
abbrev pub AreBytes : Bytes → Type 0
AreBytes [] = Unit
AreBytes (x ∷ xs) = (x < 256) × AreBytes xs

abbrev pub base : Bytes → ℕ
base [] = 1
base (x ∷ xs) = 256 * base xs

abbrev pub value : Bytes → ℕ
value [] = 0
value (x ∷ xs) = x * base xs + value xs

value-lt-base : (a : Bytes) → AreBytes a → value a < base a
value-lt-base [] h = omega arith
value-lt-base (x ∷ a) h = grind (arith, value-lt-base a h.1)

base-eq : (a b : Bytes) → length a ≡ length b → base a ≡ base b
base-eq [] [] h = refl
base-eq [] (y ∷ b) h = absurd (omega arith)
base-eq (x ∷ a) [] h = absurd (omega arith)
base-eq (x ∷ a) (y ∷ b) h = omega (arith, base-eq a b (omega arith))

-- Below a common base the first digit decides.
digits_lt : (p x y v w : ℕ) → x < y → v < p → x * p + v < y * p + w
digits_lt p x y v w h k = grind arith

compare_digits :
    (p x y v w : ℕ)
    → v < p
    → w < p
    → compare (x * p + v) (y * p + w) ≡ elim (compare x y) [
      | Ordering.lt ↦ Ordering.lt
      | Ordering.eq ↦ compare v w
      | Ordering.gt ↦ Ordering.gt
    ]
compare_digits p x y v w hv hw = ground (arith, digits_lt p x y v w, digits_lt p y x w v)

-- On slices of one length the lexicographic order is that of the numbers they write.
pub lex-eq-compare :
    (a b : Bytes)
    → AreBytes a
    → AreBytes b
    → length a ≡ length b
    → lex a b ≡ compare (value a) (value b)
unfolding lex
lex-eq-compare [] [] ha hb h = refl
lex-eq-compare [] (y ∷ b) ha hb h = absurd (omega arith)
lex-eq-compare (x ∷ a) [] ha hb h = absurd (omega arith)
lex-eq-compare (x ∷ a) (y ∷ b) ha hb h =
    let e : length a ≡ length b = omega arith in
    let small : value a < base b = omega (arith, value-lt-base a ha.1, base-eq a b e) in
    rw (base-eq a b e, compare_digits (base b) x y (value a) (value b) small (value-lt-base b hb.1))
      (ground (arith, lex-eq-compare a b ha.1 hb.1 e))
