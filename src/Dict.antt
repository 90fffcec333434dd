-- ===== src/Dict.antt =====
-- Go's `map[string]V` as an association list. The order of the list stands for the order in which a
-- `range` loop meets the entries, which Go leaves open.
use xmongodb.Common.{
  ◌+◌, ◌≤◌, ◌≡◌, refl, Bool, Option, none, some, List, [], ◌∷◌, arith, length, if◌then◌else◌,
}
use xmongodb.Bytes.{Bytes, bytes_equal}
use xmongodb.Bytes.Order.{eq_of_lex, lex_refl}

abbrev pub Dict {ℓ} : Type ℓ → Type ℓ
Dict V = List (Bytes × V)

module _ {ℓ} {V : Type ℓ} where
  unfoldable pub lookup : Bytes → Dict V → Option V
  lookup k [] = none
  lookup k ((j, v) ∷ m) = if bytes_equal j k then some v else lookup k m

  unfoldable pub insert : Bytes → V → Dict V → Dict V
  insert k v [] = (k, v) ∷ []
  insert k v ((j, w) ∷ m) = if bytes_equal j k then (j, v) ∷ m else (j, w) ∷ insert k v m

  -- The entries whose key does not pass the test.
  unfoldable pub remove_if : (Bytes → Bool) → Dict V → Dict V
  remove_if test [] = []
  remove_if test ((j, w) ∷ m) =
      let rest = remove_if test m in if test j then rest else (j, w) ∷ rest

  -- `delete(m, k)`
  abbrev pub remove : Bytes → Dict V → Dict V
  remove k = remove_if (bytes_equal k)

  pub lookup-insert :
      (k j : Bytes) (v : V) (m : Dict V)
      → lookup j (insert k v m) ≡ (if bytes_equal k j then some v else lookup j m)
  unfolding lookup insert
  lookup-insert k j v [] = refl
  lookup-insert k j v ((i, w) ∷ m) = ground (
    arith,
    lookup-insert k j v m,
    eq_of_lex i k,
    eq_of_lex i j,
    eq_of_lex k j,
    lex_refl i,
    lex_refl k,
  )

  pub lookup-remove_if :
      (test : Bytes → Bool) (j : Bytes) (m : Dict V)
      → lookup j (remove_if test m) ≡ (if test j then none else lookup j m)
  unfolding lookup remove_if
  lookup-remove_if test j [] = ground arith
  lookup-remove_if test j ((i, w) ∷ m) = ground (arith, lookup-remove_if test j m, eq_of_lex i j)

  pub length-insert : (k : Bytes) (v : V) (m : Dict V) → length (insert k v m) ≤ length m + 1
  unfolding insert
  length-insert k v [] = omega arith
  length-insert k v ((i, w) ∷ m) = ground (arith, length-insert k v m)

  pub length-remove_if : (test : Bytes → Bool) (m : Dict V) → length (remove_if test m) ≤ length m
  unfolding remove_if
  length-remove_if test [] = omega arith
  length-remove_if test ((i, w) ∷ m) = ground (arith, length-remove_if test m)
