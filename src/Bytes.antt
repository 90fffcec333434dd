-- ===== src/Bytes.antt =====
-- Byte slices: Go's `[]byte` and `string` as lists of numbers, `bytes.Compare` and `bytes.Equal` of
-- its standard library, and `compareBytes` of server/storage/record_id.go.
pub mod Order
pub mod Compare
pub mod Value
use xmongodb.Common.{
  ℕ, zero, suc, compare, Ordering, Bool, true, false, Option, none, some, List, [], ◌∷◌, Run, done,
  must, ◌>>=◌, length, get_elem?, ltb, if◌then◌else◌,
}
use xmongodb.Common.Int.{ℤ, pos, negsuc}

abbrev pub Bytes : Type 0
Bytes = List ℕ

-- bytes.Compare: the lexicographic order.
unfoldable pub lex : Bytes → Bytes → Ordering
lex [] [] = Ordering.eq
lex [] (y ∷ ys) = Ordering.lt
lex (x ∷ xs) [] = Ordering.gt
lex (x ∷ xs) (y ∷ ys) = elim (compare x y) [
  | Ordering.lt ↦ Ordering.lt
  | Ordering.eq ↦ lex xs ys
  | Ordering.gt ↦ Ordering.gt
]

abbrev pub is_lt : Ordering → Bool
is_lt Ordering.lt = true
is_lt Ordering.eq = false
is_lt Ordering.gt = false

abbrev pub is_eq : Ordering → Bool
is_eq Ordering.lt = false
is_eq Ordering.eq = true
is_eq Ordering.gt = false

abbrev pub is_gt : Ordering → Bool
is_gt Ordering.lt = false
is_gt Ordering.eq = false
is_gt Ordering.gt = true

-- bytes.Equal
abbrev pub bytes_equal : Bytes → Bytes → Bool
bytes_equal a b = is_eq (lex a b)

-- The loop of `compareBytes`, on the rounds that are left: `some` is an early return.
compare_loop : (rounds i : ℕ) → Bytes → Bytes → Run (Option ℤ)
compare_loop zero i a b = done none
compare_loop (suc rounds) i a b = must (get_elem? a i) >>= λ x. must (get_elem? b i) >>= λ y.
    if ltb x y
    then done (some (negsuc 0))
    else if ltb y x
    then done (some (pos 1))
    else compare_loop rounds (suc i) a b

-- What `compareBytes` returns behind its loop.
compare_lengths : Bytes → Bytes → ℤ
compare_lengths a b =
    if ltb (length a) (length b)
    then negsuc 0
    else if ltb (length b) (length a)
    then pos 1
    else pos 0

unfoldable pub compare_bytes : Bytes → Bytes → Run ℤ
unfolding compare_loop compare_lengths
compare_bytes a b =
    let min_len = if ltb (length b) (length a) then length b else length a in
    compare_loop min_len 0 a b >>= λ early. elim early [
      | some r ↦ done r
      | none ↦ done (compare_lengths a b)
    ]
