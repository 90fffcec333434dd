-- ===== src/RecordId/Order.antt =====
-- `Compare` is an order on the identifiers that the constructors make.
use xmongodb.Common.{◌≤◌, ◌≡◌, ◌≢◌, ◌⊎◌, ◌↔◌, arith, done, panic, out_of_fuel, [], ◌>>=◌}
use xmongodb.Common.Int.{ℤ, pos, sub_ℕ, pos_part, neg_part, eq_of_parts}
use xmongodb.Bytes.Order.{lex_symm, eq_of_lex, lex_refl}
use xmongodb.Bytes.Compare.{compare_bytes-eq-lex}
use xmongodb.RecordId.{RecordId, compare}

abbrev pub opposite : ℤ → ℤ
opposite z = sub_ℕ (neg_part z) (pos_part z)

-- What the three constructors of the file make.
pub record IsMade (r : RecordId) : Type 0 where
  pub known : r.repr ≤ 2
  pub no_long : (r.repr ≡ 1) ⊎ (r.long ≡ pos 0)
  pub no_bytes : (r.repr ≡ 2) ⊎ (r.bytes ≡ [])

eq_of_compare : (r s : RecordId) → IsMade r → IsMade s → compare r s ≡ done (pos 0) → r ≡ s
unfolding compare
eq_of_compare r s hr hs h =
    let reprs : r.repr ≡ s.repr = ground arith in
    let longs : r.long ≡ s.long = ground (arith, eq_of_parts r.long s.long) in
    let slices : r.bytes ≡ s.bytes =
      ground (arith, compare_bytes-eq-lex r.bytes s.bytes, eq_of_lex r.bytes s.bytes) in
    λ i. record { repr = reprs i; long = longs i; bytes = slices i }

compare_refl : (r : RecordId) → IsMade r → compare r r ≡ done (pos 0)
unfolding compare
compare_refl r hr = ground (arith, hr.known, compare_bytes-eq-lex r.bytes r.bytes, lex_refl r.bytes)

-- `Compare` of two identifiers that the constructors make does not panic; swapping them turns its
-- result round, and the result is 0 exactly when the two are equal.
pub compare_lem :
    (r s : RecordId)
    → IsMade r
    → IsMade s
    → (compare s r ≡ (compare r s >>= λ z. done (opposite z)))
      × (compare r s ≢ panic)
      × (compare r s ≢ out_of_fuel)
      × ((compare r s ≡ done (pos 0)) ↔ (r ≡ s))
unfolding compare
compare_lem r s hr hs = (
  ground (
    arith,
    compare_bytes-eq-lex r.bytes s.bytes,
    compare_bytes-eq-lex s.bytes r.bytes,
    lex_symm r.bytes s.bytes,
  ),
  ground (arith, compare_bytes-eq-lex r.bytes s.bytes),
  ground (arith, compare_bytes-eq-lex r.bytes s.bytes),
  (eq_of_compare r s hr hs, λ e. simp (← e) (compare_refl r hr)),
)
