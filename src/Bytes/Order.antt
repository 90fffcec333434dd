-- ===== src/Bytes/Order.antt =====
-- The lexicographic order on byte slices is a total order.
use Prim.Native.Nat.{Ordering}
use xmongodb.Common.{◌≡◌, refl, ap, true, [], ◌∷◌, ◌++◌, arith}
use xmongodb.Bytes.{Bytes, lex, is_eq, bytes_equal}

abbrev pub flip : Ordering → Ordering
flip Ordering.lt = Ordering.gt
flip Ordering.eq = Ordering.eq
flip Ordering.gt = Ordering.lt

pub lex_refl : (a : Bytes) → lex a a ≡ Ordering.eq
unfolding lex
lex_refl [] = refl
lex_refl (x ∷ a) = ground (arith, lex_refl a)

pub eq_of_lex : (a b : Bytes) → lex a b ≡ Ordering.eq → a ≡ b
unfolding lex
eq_of_lex [] [] h = refl
eq_of_lex [] (y ∷ b) h = cc
eq_of_lex (x ∷ a) [] h = cc
eq_of_lex (x ∷ a) (y ∷ b) h = ground (arith, eq_of_lex a b)

pub lex_symm : (a b : Bytes) → lex b a ≡ flip (lex a b)
unfolding lex
lex_symm [] [] = refl
lex_symm [] (y ∷ b) = refl
lex_symm (x ∷ a) [] = refl
lex_symm (x ∷ a) (y ∷ b) = ground (arith, lex_symm a b)

pub lex_trans :
    (a b c : Bytes) → lex a b ≡ Ordering.lt → lex b c ≡ Ordering.lt → lex a c ≡ Ordering.lt
unfolding lex
lex_trans [] [] c h k = cc
lex_trans [] (y ∷ b) [] h k = cc
lex_trans [] (y ∷ b) (z ∷ c) h k = refl
lex_trans (x ∷ a) [] c h k = cc
lex_trans (x ∷ a) (y ∷ b) [] h k = cc
lex_trans (x ∷ a) (y ∷ b) (z ∷ c) h k = ground (arith, lex_trans a b c)

-- A common front does not matter.
pub lex-append : (p a b : Bytes) → lex (p ++ a) (p ++ b) ≡ lex a b
unfolding lex
lex-append [] a b = refl
lex-append (x ∷ p) a b = ground (arith, lex-append p a b)

pub bytes_equal_refl : (a : Bytes) → bytes_equal a a ≡ true
bytes_equal_refl a = ap is_eq (lex_refl a)

pub eq_of_bytes_equal : (a b : Bytes) → bytes_equal a b ≡ true → a ≡ b
eq_of_bytes_equal a b h = ground (arith, eq_of_lex a b)

pub bytes_equal_comm : (a b : Bytes) → bytes_equal a b ≡ bytes_equal b a
bytes_equal_comm a b = ground (arith, lex_symm a b)

-- Two equal keys compare alike with a third.
pub bytes_equal_trans : (a b c : Bytes) → bytes_equal a b ≡ true → bytes_equal a c ≡ bytes_equal b c
bytes_equal_trans a b c h = ap (λ x. bytes_equal x c) (eq_of_bytes_equal a b h)
