-- ===== src/Bytes/Compare.antt =====
-- The loop of `compareBytes` computes the sign of the lexicographic order.
use xmongodb.Common.{
  ℕ, zero, suc, Ordering, ◌≡◌, refl, Option, none, some, [], ◌∷◌, arith, Run, done, length, ltb,
  if◌then◌else◌, ◌>>=◌,
}
use xmongodb.Common.Int.{ℤ, pos, negsuc}
use xmongodb.Bytes.{Bytes, lex, compare_loop, compare_lengths, compare_bytes}

abbrev pub sign : Ordering → ℤ
sign Ordering.lt = negsuc 0
sign Ordering.eq = pos 0
sign Ordering.gt = pos 1

compare_loop_shift :
    (n i x y : ℕ) (a b : Bytes) → compare_loop n (suc i) (x ∷ a) (y ∷ b) ≡ compare_loop n i a b
unfolding compare_loop
compare_loop_shift zero i x y a b = refl
compare_loop_shift (suc n) i x y a b = ground (arith, compare_loop_shift n (suc i) x y a b)

min_len : Bytes → Bytes → ℕ
min_len a b = if ltb (length b) (length a) then length b else length a

min_len-cons : (x y : ℕ) (a b : Bytes) → min_len (x ∷ a) (y ∷ b) ≡ suc (min_len a b)
unfolding min_len
min_len-cons x y a b = ground arith

-- The loop and what follows it.
rest_of : Option ℤ → ℤ → Run ℤ
rest_of none z = done z
rest_of (some r) z = done r

loop_from : ℕ → Bytes → Bytes → Run ℤ
unfolding rest_of
loop_from n a b = compare_loop n 0 a b >>= λ early. rest_of early (compare_lengths a b)

loop_from-eq-lex : (a b : Bytes) → loop_from (min_len a b) a b ≡ done (sign (lex a b))
unfolding loop_from lex compare_lengths compare_loop
loop_from-eq-lex [] [] = unfold min_len in refl
loop_from-eq-lex [] (y ∷ b) = unfold min_len in ground arith
loop_from-eq-lex (x ∷ a) [] = unfold min_len in ground arith
loop_from-eq-lex (x ∷ a) (y ∷ b) =
    rw (min_len-cons x y a b)
      (ground (arith, loop_from-eq-lex a b, compare_loop_shift (min_len a b) 0 x y a b))

-- `compareBytes` never reads out of range, and returns -1, 0 or 1 as the first slice is below, equal
-- to or above the second in the order of `bytes.Compare`.
pub compare_bytes-eq-lex : (a b : Bytes) → compare_bytes a b ≡ done (sign (lex a b))
unfolding compare_bytes loop_from min_len
compare_bytes-eq-lex a b = ground (arith, loop_from-eq-lex a b)
